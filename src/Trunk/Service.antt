-- ===== src/Trunk/Service.antt =====
-- `TrunkService` (src/services/trunks.py).
pub mod Lookup
pub mod Upsert
pub mod Scope
pub mod Placement
pub mod Directory
mod Tests
pub mod Examples
use zenith_voip.Prelude.{
  ℕ, Bool, true, false, not, ◌&&◌, ◌||◌, Option, none, some, List, [], ◌∷◌, Text, codes, text_eq,
  is_empty, is_some, if◌then◌else◌,
}
use zenith_voip.Prelude.Result.{Result, ok, err, ◌>>=◌, ◌>>◌, raise_if}
use zenith_voip.Text.{strip}
use zenith_voip.Trunk.Db.{
  RegistrationStatus, unknown, Tenant, get_tenant, Pbx, Condominium, Trunk, Db, get_pbx,
  get_condominium, get_trunk, find_identity, find_prefix, prefix_ok, is_profile, Violation,
  value_too_long, prefix_digits, other_check, profile_username, tenant_prefix, foreign_key,
  create_trunk, update_trunk,
}

pub data Code : Type 0 where
  pbx_not_found condominium_not_found trunk_not_found duplicate_auth_identity duplicate_prefix :
      Code
  invalid_prefix invalid_password invalid_sip_configuration : Code

-- `ScopeValidationError`, `DuplicateIdentityError` and `ValueError` with their codes; `unexpected` is
-- any other exception.
pub data Error : Type 0 where
  scope duplicate value : Code → Error
  unexpected : Error

-- The collaborators: the legacy directory and the cipher.
pub record Collaborators : Type 0 where
  pub legacy_contains : Text → Text → Result Error Bool
  pub encrypt : Text → Result Error Text

-- `_translate_trunk_integrity_error`; a value that is too long is no integrity error.
unfoldable pub translate : Violation → Error
translate value_too_long = unexpected
translate prefix_digits = value invalid_prefix
translate tenant_prefix = duplicate duplicate_prefix
translate foreign_key = scope condominium_not_found
translate other_check = duplicate duplicate_auth_identity
translate profile_username = duplicate duplicate_auth_identity

abbrev pub pbx_in_tenant : Text → Option Pbx → Bool
pbx_in_tenant tenant none = false
pbx_in_tenant tenant (some p) = text_eq p.tenant_id tenant

abbrev pub condominium_in_scope : Text → Text → Option Condominium → Bool
condominium_in_scope tenant pbx none = false
condominium_in_scope tenant pbx (some c) = text_eq c.tenant_id tenant && text_eq c.pbx_id pbx

-- `_validate_scope`
unfoldable pub validate_scope : Db → Text → Text → Text → Result Error (Unit {0})
validate_scope db tenant pbx condominium = do
  raise_if (not (pbx_in_tenant tenant (get_pbx pbx db.pbxs))) (scope pbx_not_found)
  raise_if (not (condominium_in_scope tenant pbx (get_condominium condominium db.condominiums)))
      (scope condominium_not_found)
  ok tt

abbrev pub prefix_in_use : Db → Text → Option Text → Bool
prefix_in_use db tenant none = false
prefix_in_use db tenant (some p) = is_some (find_prefix tenant p db.trunks)

-- `_ensure_unique`
unfoldable pub ensure_unique :
    Collaborators → Db → Text → Option Text → Text → Text → Result Error (Unit {0})
ensure_unique k db tenant prefix profile username = do
  raise_if (is_some (find_identity profile username db.trunks)) (duplicate duplicate_auth_identity)
  raise_if (prefix_in_use db tenant prefix) (duplicate duplicate_prefix)
  legacy ← k.legacy_contains profile username
  raise_if legacy (duplicate duplicate_auth_identity)
  ok tt

pub record NewTrunk : Type 0 where
  pub condominium_id : Text
  pub prefix : Option Text
  pub auth_username : Text
  pub password : Text
  pub sip_profile : Text
  pub transport : Text
  pub enabled : Bool

-- `not password or not password.strip()`
abbrev pub is_blank : Text → Bool
is_blank s = is_empty s || is_empty (strip s)

-- `_validate_create_inputs`
unfoldable pub validate_create_inputs :
    Collaborators → Db → Text → Text → NewTrunk → Result Error (Unit {0})
validate_create_inputs k db tenant pbx n = do
  validate_scope db tenant pbx n.condominium_id
  raise_if (not (prefix_ok n.prefix)) (value invalid_prefix)
  raise_if (is_blank n.password) (value invalid_password)
  raise_if (not (is_profile n.sip_profile) || not (text_eq n.transport (codes "udp")))
      (value invalid_sip_configuration)
  ensure_unique k db tenant n.prefix n.sip_profile n.auth_username

abbrev pub trunk_of : Text → Text → Text → NewTrunk → Text → Trunk
trunk_of id tenant pbx n encrypted = record {
  id = id;
  tenant_id = tenant;
  pbx_id = pbx;
  condominium_id = n.condominium_id;
  prefix = n.prefix;
  auth_username = n.auth_username;
  encrypted_password = encrypted;
  sip_profile = n.sip_profile;
  transport = n.transport;
  enabled = n.enabled;
  registration_status = unknown;
  last_registered_at = none;
  last_unregistered_at = none;
}

-- What `create` finds before it writes: the encrypted password.
unfoldable pub prepare : Collaborators → Db → Text → Text → NewTrunk → Result Error Text
prepare k db tenant pbx n = do validate_create_inputs k db tenant pbx n; k.encrypt n.password

-- `except IntegrityConstraintError`
abbrev pub translated : {A : Type 0} → Result Violation A → Result Error A
translated (ok a) = ok a
translated (err v) = err (translate v)

-- `create`, for a row with the new id `id`
unfoldable pub create : Collaborators → Text → Text → Text → NewTrunk → Db → Result Error Trunk × Db
create k id tenant pbx n db = elim (prepare k db tenant pbx n) [
  | err e ↦ (err e, db)
  | ok encrypted ↦
      let (r, db') = create_trunk db (trunk_of id tenant pbx n encrypted) in (translated r, db')
]

-- The keyword arguments of `update`: `none` where the key is absent. A prefix may be given as None.
pub record Changes : Type 0 where
  pub condominium_id : Option Text
  pub prefix : Option (Option Text)
  pub auth_username : Option Text
  pub sip_profile : Option Text
  pub enabled : Option Bool
  pub password : Option Text

-- `updates.get(key, old)`
abbrev pub given {ℓ} : {A : Type ℓ} → Option A → A → A
given none old = old
given (some a) old = a

-- `key in updates and str(updates[key]) != str(old)`
abbrev pub changed : Option Text → Text → Bool
changed none old = false
changed (some a) old = not (text_eq a old)

abbrev pub sip_identity_changed : Trunk → Changes → Bool
sip_identity_changed t c =
    changed c.auth_username t.auth_username || changed c.sip_profile t.sip_profile

abbrev pub is_other : Trunk → Option Trunk → Bool
is_other t none = false
is_other t (some u) = not (text_eq u.id t.id)

-- The tests of a new identity in `update`.
unfoldable pub check_identity : Collaborators → Db → Trunk → Changes → Result Error (Unit {0})
check_identity k db t c =
    let username = given c.auth_username t.auth_username in
    let profile = given c.sip_profile t.sip_profile in
    if sip_identity_changed t c
    then (do
      raise_if (is_other t (find_identity profile username db.trunks))
          (duplicate duplicate_auth_identity)
      legacy ← k.legacy_contains profile username
      raise_if legacy (duplicate duplicate_auth_identity)
      ok tt)
    else ok tt

-- The new encrypted password, if one is given.
unfoldable pub encrypt_change : Collaborators → Option Text → Result Error (Option Text)
encrypt_change k none = ok none
encrypt_change k (some password) = do
  raise_if (is_blank password) (value invalid_password)
  encrypted ← k.encrypt password
  ok (some encrypted)

abbrev pub resets : Trunk → Changes → Option Text → Bool
resets t c encrypted = sip_identity_changed t c || is_some encrypted

-- The row with the changes; a new identity or password resets its registration.
abbrev pub changed_trunk : Trunk → Changes → Option Text → Trunk
changed_trunk t c encrypted = record t {
  condominium_id = given c.condominium_id t.condominium_id;
  prefix = given c.prefix t.prefix;
  auth_username = given c.auth_username t.auth_username;
  sip_profile = given c.sip_profile t.sip_profile;
  enabled = given c.enabled t.enabled;
  encrypted_password = given encrypted t.encrypted_password;
  registration_status = if resets t c encrypted then unknown else t.registration_status;
  last_registered_at = if resets t c encrypted then none else t.last_registered_at;
  last_unregistered_at = if resets t c encrypted then none else t.last_unregistered_at;
}

-- The validation in `update`, and the encrypted password.
unfoldable pub check_changes :
    Collaborators → Db → Text → Trunk → Changes → Result Error (Option Text)
check_changes k db tenant t c = do
  (if changed c.condominium_id t.condominium_id
      then validate_scope db tenant t.pbx_id (given c.condominium_id t.condominium_id)
      else ok tt)
  raise_if (not (prefix_ok (given c.prefix t.prefix))) (value invalid_prefix)
  raise_if
      (is_empty (given c.auth_username t.auth_username)
        || not (is_profile (given c.sip_profile t.sip_profile)))
      (value invalid_sip_configuration)
  check_identity k db t c
  encrypt_change k c.password

-- The row of the tenant that `update` works on.
unfoldable pub owned_trunk : Db → Text → Text → Result Error Trunk
owned_trunk db tenant trunk_id = elim (get_trunk trunk_id db.trunks) [
  | none ↦ err (scope trunk_not_found)
  | some t ↦ if text_eq t.tenant_id tenant then ok t else err (scope trunk_not_found)
]

-- `update`
unfoldable pub update :
    Collaborators → Text → Text → Changes → Db → Result Error (Option Trunk) × Db
update k tenant trunk_id c db = elim (owned_trunk db tenant trunk_id) [
  | err e ↦ (err e, db)
  | ok t ↦ elim (check_changes k db tenant t c) [
    | err e ↦ (err e, db)
    | ok encrypted ↦
        let (r, db') = update_trunk db (changed_trunk t c encrypted) in (translated r, db')
  ]
]
