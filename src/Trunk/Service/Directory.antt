-- ===== src/Trunk/Service/Directory.antt =====
-- What FreeSWITCH is told about an identity, and what a stored identity does to a creation.
use zenith_voip.Prelude.{
  ◌≡◌, ap, sym, ◌∙◌, ◌↔◌, true, false, Option, none, some, List, [], ◌∷◌, inl, inr, Text,
  text_eq_iff, arith, Bool-cases, Option-cases, is_some, ◌||◌, ◌++◌, if◌then◌else◌,
}
use zenith_voip.Prelude.Result.{ok, Result-cases}
use zenith_voip.Trunk.Db.{
  unknown, Tenant, Trunk, Db, get_pbx, get_condominium, get_trunk, create_trunk, update_trunk,
  find_identity, violation,
}
use zenith_voip.Trunk.Service.{
  Collaborators, NewTrunk, Changes, pbx_in_tenant, sip_identity_changed, changed_trunk,
  ensure_unique, validate_create_inputs, prepare, create, trunk_of, prefix_in_use, encrypt_change,
  check_changes, update, owned_trunk,
}
use zenith_voip.Trunk.Service.Lookup.{
  condominium_serves, tenant_is_active, lookup_directory_identity,
}

find-has :
    (profile username : Text) (ts : List Trunk) (t : Trunk)
    → find_identity profile username ts ≡ some t
    → (t.sip_profile ≡ profile) × (t.auth_username ≡ username)
unfolding find_identity
find-has profile username [] t h = absurd (ground arith)
find-has profile username (x ∷ ts) t h = ground (
  arith,
  find-has profile username ts t,
  text_eq_iff x.sip_profile profile,
  text_eq_iff x.auth_username username,
)

-- FreeSWITCH is given a trunk for an identity exactly if it is the first stored row with that profile
-- and username, is enabled, its condominium is enabled and belongs to the trunk's tenant and PBX, its
-- PBX belongs to its tenant, and its tenant is active where tenants are known.
pub lookup_directory_identity_iff :
    (tenants : Option (List Tenant)) (profile username : Text) (db : Db) (t : Trunk)
    → lookup_directory_identity tenants profile username db ≡ some t
      ↔ (find_identity profile username db.trunks ≡ some t)
        × (t.enabled ≡ true)
        × (condominium_serves t (get_condominium t.condominium_id db.condominiums) ≡ true)
        × (pbx_in_tenant t.tenant_id (get_pbx t.pbx_id db.pbxs) ≡ true)
        × (tenant_is_active t.tenant_id tenants ≡ true)
unfolding lookup_directory_identity
lookup_directory_identity_iff tenants profile username db t =
    elim (Option-cases (find_identity profile username db.trunks)) [
      | inl e ↦ ground (arith, e)
      | inr (u, e) ↦ ground (arith, e)
    ]

find-append :
    (profile username : Text) (ts : List Trunk) (t : Trunk)
    → find_identity profile username ts ≡ none
    → t.sip_profile ≡ profile
    → t.auth_username ≡ username
    → find_identity profile username (ts ++ (t ∷ [])) ≡ some t
unfolding find_identity
find-append profile username [] t h p u =
    ground (arith, text_eq_iff t.sip_profile profile, text_eq_iff t.auth_username username)
find-append profile username (x ∷ ts) t h p u = ground (arith, find-append profile username ts t)

ensure_unique_lem :
    (k : Collaborators) (db : Db) (tenant : Text) (prefix : Option Text) (profile username : Text)
    → ensure_unique k db tenant prefix profile username ≡ ok tt
    → (find_identity profile username db.trunks ≡ none)
      × (prefix_in_use db tenant prefix ≡ false)
      × (k.legacy_contains profile username ≡ ok false)
unfolding ensure_unique
ensure_unique_lem k db tenant prefix profile username h =
    elim (Option-cases (find_identity profile username db.trunks)) [
      | inr (t, e) ↦ absurd (ground (arith, e, h))
      | inl e ↦ elim (Bool-cases (prefix_in_use db tenant prefix)) [
        | inl p ↦ absurd (ground (arith, e, p, h))
        | inr p ↦ elim (Result-cases (k.legacy_contains profile username)) [
          | inl (b, l) ↦ elim (Bool-cases b) [
            | inl y ↦ absurd (ground (arith, e, p, l, y, h))
            | inr y ↦ (e, p, l ∙ ap ok y)
          ]
          | inr (x, l) ↦ absurd (ground (arith, e, p, l, h))
        ]
      ]
    ]

validate_create_inputs_lem :
    (k : Collaborators) (db : Db) (tenant pbx : Text) (n : NewTrunk)
    → validate_create_inputs k db tenant pbx n ≡ ok tt
    → ensure_unique k db tenant n.prefix n.sip_profile n.auth_username ≡ ok tt
unfolding validate_create_inputs
validate_create_inputs_lem k db tenant pbx n h = ground arith

pub prepare-validates :
    (k : Collaborators) (db : Db) (tenant pbx : Text) (n : NewTrunk) (e : Text)
    → prepare k db tenant pbx n ≡ ok e
    → validate_create_inputs k db tenant pbx n ≡ ok tt
unfolding prepare
prepare-validates k db tenant pbx n e h =
    elim (Result-cases (validate_create_inputs k db tenant pbx n)) [
      | inl (tt, p) ↦ p
      | inr (x, p) ↦ absurd (ground arith)
    ]

pub create-made :
    (k : Collaborators) (id tenant pbx : Text) (n : NewTrunk) (db : Db) (t : Trunk)
    → (create k id tenant pbx n db).0 ≡ ok t
    → (e : Text) × (prepare k db tenant pbx n ≡ ok e)
      × (t ≡ trunk_of id tenant pbx n e)
      × ((create k id tenant pbx n db).1.trunks ≡ db.trunks ++ (t ∷ []))
unfolding create create_trunk
create-made k id tenant pbx n db t h = elim (Result-cases (prepare k db tenant pbx n)) [
  | inl (e, p) ↦ elim (Option-cases (violation db (trunk_of id tenant pbx n e))) [
    | inl v ↦ (e, p, ground (arith, p, v, h), ground (arith, p, v, h))
    | inr (x, v) ↦ absurd (ground (arith, p, v, h))
  ]
  | inr (x, p) ↦ absurd (ground (arith, p, h))
]

-- A creation succeeds only if no stored trunk has the identity, no trunk of the tenant has the prefix
-- and the legacy directory has no such user; from then on the identity is found and is the new trunk,
-- whose registration is unknown.
pub create-fresh :
    (k : Collaborators) (id tenant pbx : Text) (n : NewTrunk) (db : Db) (t : Trunk)
    → (create k id tenant pbx n db).0 ≡ ok t
    → (find_identity n.sip_profile n.auth_username db.trunks ≡ none)
      × (prefix_in_use db tenant n.prefix ≡ false)
      × (k.legacy_contains n.sip_profile n.auth_username ≡ ok false)
      × (find_identity n.sip_profile n.auth_username (create k id tenant pbx n db).1.trunks
          ≡ some t)
      × (t.registration_status ≡ unknown)
create-fresh k id tenant pbx n db t h =
    let (e, p, is, stored) = create-made k id tenant pbx n db t h in
    let valid =
      validate_create_inputs_lem k db tenant pbx n (prepare-validates k db tenant pbx n e p) in
    let (new, free, legacy) =
      ensure_unique_lem k db tenant n.prefix n.sip_profile n.auth_username valid in
    let last =
      find-append n.sip_profile n.auth_username db.trunks t new (ap (λ x. x.sip_profile) is)
        (ap (λ x. x.auth_username) is) in
    (
      new,
      free,
      legacy,
      ap (find_identity n.sip_profile n.auth_username) stored ∙ last,
      ap (λ x. x.registration_status) is,
    )

encrypt_change_lem :
    (k : Collaborators) (password : Option Text) (e : Option Text)
    → encrypt_change k password ≡ ok e
    → is_some e ≡ is_some password
unfolding encrypt_change
encrypt_change_lem k none e h = ground arith
encrypt_change_lem k (some s) e h = elim (Result-cases (k.encrypt s)) [
  | inl (x, p) ↦ ground arith
  | inr (x, p) ↦ absurd (ground arith)
]

check-encrypts :
    (k : Collaborators) (db : Db) (tenant : Text) (t : Trunk) (c : Changes) (e : Option Text)
    → check_changes k db tenant t c ≡ ok e
    → encrypt_change k c.password ≡ ok e
unfolding check_changes
check-encrypts k db tenant t c e h = ground arith

update-made :
    (k : Collaborators) (tenant trunk_id : Text) (c : Changes) (db : Db) (t u : Trunk)
    → owned_trunk db tenant trunk_id ≡ ok t
    → (update k tenant trunk_id c db).0 ≡ ok (some u)
    → (e : Option Text) × (check_changes k db tenant t c ≡ ok e) × (u ≡ changed_trunk t c e)
unfolding update update_trunk
update-made k tenant trunk_id c db t u o h = elim (Result-cases (check_changes k db tenant t c)) [
  | inr (x, p) ↦ absurd (ground (arith, o, p, h))
  | inl (e, p) ↦ elim (Bool-cases (is_some (get_trunk t.id db.trunks))) [
    | inr g ↦ absurd (ground (arith, o, p, g, h))
    | inl g ↦ elim (Option-cases (violation db (changed_trunk t c e))) [
      | inl v ↦ (e, p, ground (arith, o, p, g, v, h))
      | inr (x, v) ↦ absurd (ground (arith, o, p, g, v, h))
    ]
  ]
]

-- An update that succeeds makes the registration unknown and forgets its times exactly if it
-- changes the username or the profile or gives a password; otherwise it keeps them.
pub update-registration :
    (k : Collaborators) (tenant trunk_id : Text) (c : Changes) (db : Db) (t u : Trunk)
    → owned_trunk db tenant trunk_id ≡ ok t
    → (update k tenant trunk_id c db).0 ≡ ok (some u)
    → let reset = sip_identity_changed t c || is_some c.password in
      (u.registration_status ≡ (if reset then unknown else t.registration_status))
      × (u.last_registered_at ≡ (if reset then none else t.last_registered_at))
      × (u.last_unregistered_at ≡ (if reset then none else t.last_unregistered_at))
update-registration k tenant trunk_id c db t u o h =
    let (e, p, is) = update-made k tenant trunk_id c db t u o h in
    let same = encrypt_change_lem k c.password e (check-encrypts k db tenant t c e p) in
    rw (sym same) (
      ap (λ x. x.registration_status) is,
      ap (λ x. x.last_registered_at) is,
      ap (λ x. x.last_unregistered_at) is,
    )
