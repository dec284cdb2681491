-- ===== src/Trunk/Service/Tests.antt =====
-- Runs of the service on two tenants.
use zenith_voip.Prelude.{
  ◌≡◌, refl, ap, true, false, none, some, [], ◌∷◌, ◌||◌, ◌↔◌, codes, text_eq, is_some,
  if◌then◌else◌, arith,
}
use zenith_voip.Prelude.Result.{ok, err}
use zenith_voip.Text.{strip}
use zenith_voip.Trunk.Db.{
  unknown, Trunk, get_pbx, get_condominium, get_trunk, find_identity, find_prefix, all_digits,
  identity_taken, prefix_taken, violation, create_trunk, update_trunk,
}
use zenith_voip.Trunk.Service.{
  scope, trunk_not_found, validate_scope, ensure_unique, validate_create_inputs, prepare, create,
  check_identity, encrypt_change, check_changes, owned_trunk, update, trunk_of,
  sip_identity_changed, prefix_in_use, changed_trunk, pbx_in_tenant,
}
use zenith_voip.Trunk.Service.Upsert.{upsert_imported}
use zenith_voip.Trunk.Service.Lookup.{
  lookup_directory_identity, condominium_serves, tenant_is_active,
}
use zenith_voip.Trunk.Service.Scope.{upsert-others}
use zenith_voip.Trunk.Service.Placement.{AllInScope, service-AllInScope}
use zenith_voip.Trunk.Service.Directory.{
  lookup_directory_identity_iff, create-fresh, update-registration,
}
use zenith_voip.Trunk.Service.Examples.{
  tools, ours, theirs, tables, tenants, newcomer, new_password, stolen,
}

abbrev new_row : Trunk
new_row = trunk_of (codes "t3") (codes "A") (codes "pa") newcomer (codes "#pw")

create_runs :
    create tools (codes "t3") (codes "A") (codes "pa") newcomer tables
    ≡ (ok new_row, record tables { trunks = ours ∷ theirs ∷ new_row ∷ [] })
unfolding text_eq create prepare validate_create_inputs validate_scope ensure_unique get_pbx
    get_condominium find_identity find_prefix all_digits strip violation identity_taken prefix_taken
    create_trunk
create_runs = refl

steal_fails :
    (upsert_imported tools (codes "t3") (codes "A") (codes "pa") stolen tables).0
    ≡ err (scope trunk_not_found)
unfolding text_eq upsert_imported find_identity update owned_trunk get_trunk
steal_fails = refl

upsert-others_example :
    get_trunk
      (codes "t2")
      (upsert_imported tools (codes "t3") (codes "A") (codes "pa") stolen tables).1.trunks
    ≡ some theirs
unfolding text_eq get_trunk
upsert-others_example =
    upsert-others tools (codes "t3") (codes "A") (codes "pa") stolen tables (codes "t2") theirs refl
      (λ e. absurd (ground (arith, e)))

tables-AllInScope : AllInScope tables
unfolding text_eq get_pbx get_condominium
tables-AllInScope = ((refl, refl), ((refl, refl), tt))

service-AllInScope_example :
    AllInScope (create tools (codes "t3") (codes "A") (codes "pa") newcomer tables).1
    × AllInScope (update tools (codes "A") (codes "t1") new_password tables).1
    × AllInScope (upsert_imported tools (codes "t3") (codes "A") (codes "pa") stolen tables).1
service-AllInScope_example =
    service-AllInScope tools (codes "t3") (codes "A") (codes "pa") (codes "t1") newcomer
      new_password stolen tables tables-AllInScope

lookup_directory_identity_iff_test :
    lookup_directory_identity (some tenants) (codes "internal") (codes "ana") tables ≡ some ours
    ↔ (find_identity (codes "internal") (codes "ana") tables.trunks ≡ some ours)
      × (ours.enabled ≡ true)
      × (condominium_serves ours (get_condominium ours.condominium_id tables.condominiums) ≡ true)
      × (pbx_in_tenant ours.tenant_id (get_pbx ours.pbx_id tables.pbxs) ≡ true)
      × (tenant_is_active ours.tenant_id (some tenants) ≡ true)
lookup_directory_identity_iff_test =
    lookup_directory_identity_iff (some tenants) (codes "internal") (codes "ana") tables ours

create-fresh_test :
    (find_identity newcomer.sip_profile newcomer.auth_username tables.trunks ≡ none)
    × (prefix_in_use tables (codes "A") newcomer.prefix ≡ false)
    × (tools.legacy_contains newcomer.sip_profile newcomer.auth_username ≡ ok false)
    × (find_identity newcomer.sip_profile newcomer.auth_username
          (create tools (codes "t3") (codes "A") (codes "pa") newcomer tables).1.trunks
        ≡ some new_row)
    × (new_row.registration_status ≡ unknown)
create-fresh_test =
    create-fresh tools (codes "t3") (codes "A") (codes "pa") newcomer tables new_row
      (ap (λ x. x.0) create_runs)

abbrev renewed : Trunk
renewed = changed_trunk ours new_password (some (codes "#pw"))

owned_runs : owned_trunk tables (codes "A") (codes "t1") ≡ ok ours
unfolding text_eq owned_trunk get_trunk
owned_runs = refl

update_runs : (update tools (codes "A") (codes "t1") new_password tables).0 ≡ ok (some renewed)
unfolding text_eq update owned_trunk get_trunk check_changes all_digits check_identity
    encrypt_change strip update_trunk violation identity_taken prefix_taken get_pbx get_condominium
update_runs = refl

update-registration_test :
    let reset = sip_identity_changed ours new_password || is_some new_password.password in
    (renewed.registration_status ≡ (if reset then unknown else ours.registration_status))
    × (renewed.last_registered_at ≡ (if reset then none else ours.last_registered_at))
    × (renewed.last_unregistered_at ≡ (if reset then none else ours.last_unregistered_at))
update-registration_test =
    update-registration tools (codes "A") (codes "t1") new_password tables ours renewed owned_runs
      update_runs
