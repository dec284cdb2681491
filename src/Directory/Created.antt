-- ===== src/Directory/Created.antt =====
-- From the creation of a trunk to the answer of the directory.
use zenith_voip.Prelude.{
  ℕ, ◌≡◌, refl, ap, ◌∙◌, true, false, none, some, List, [], Text, text_eq_iff, codes, one_of, inl,
  inr, arith, Option-cases, Bool-cases, is_empty, ◌∷◌,
}
use zenith_voip.Prelude.Result.{Result, ok, err, Result-cases}
use zenith_voip.Trunk.Db.{
  Tenant, Trunk, Db, create_trunk, violation, get_pbx, get_condominium, is_profile,
}
use zenith_voip.Trunk.Service.{
  Error, unexpected, Collaborators, NewTrunk, pbx_in_tenant, condominium_in_scope, validate_scope,
  validate_create_inputs, prepare, create, trunk_of,
}
use zenith_voip.Trunk.Service.Lookup.{condominium_serves, tenant_is_active}
use zenith_voip.Trunk.Service.Directory.{
  create-made, prepare-validates, create-fresh, lookup_directory_identity_iff,
}
use zenith_voip.Directory.Credentials.{Fernet, encrypt_credential, decrypt_credential}
use zenith_voip.Directory.Legacy.{LegacyFile, new_provider, lookup_user, contains_user}
use zenith_voip.Directory.Answer.{Xml, choose, lookup_directory}
use zenith_voip.Directory.Entry.{trunk_user}

is_profile_lem :
    (s : Text)
    → is_profile s ≡ true
    → one_of s (codes "internal" ∷ codes "internal-7060" ∷ codes "internal-5062" ∷ []) ≡ true
unfolding one_of
is_profile_lem s h =
    let internal = text_eq_iff s (codes "internal") in
    let internal' = text_eq_iff (codes "internal") s in
    let other = text_eq_iff s (codes "internal-7060") in
    let other' = text_eq_iff (codes "internal-7060") s in
    ground (arith, h, internal, internal', other, other')

-- An exception of a collaborator, which the service of the trunks does not handle.
abbrev pub unhandled : {E A : Type 0} → Result E A → Result Error A
unhandled (ok a) = ok a
unhandled (err e) = err unexpected

module _ (X : Xml) (F : Fernet) where
  -- The cipher and the legacy directory as the service of the trunks calls them, with a provider that
  -- has read nothing.
  abbrev pub collaborators : List Text → ℕ → LegacyFile → Collaborators
  collaborators keys n file = record {
    legacy_contains = λ profile username.
        unhandled (contains_user X.fromstring file profile username new_provider).0;
    encrypt = λ s. unhandled (encrypt_credential F keys n s);
  }

  not_contained :
      (file : LegacyFile) (profile username : Text)
      → is_profile profile ≡ true
      → unhandled (contains_user X.fromstring file profile username new_provider).0 ≡ ok false
      → (lookup_user X.fromstring file username new_provider).0 ≡ ok none
  unfolding contains_user
  not_contained file profile username p h =
      elim (Result-cases (lookup_user X.fromstring file username new_provider).0) [
        | inr (x, e) ↦ absurd (ground (arith, e, is_profile_lem profile p, h))
        | inl (none, e) ↦ e
        | inl (some u, e) ↦ absurd (ground (arith, e, is_profile_lem profile p, h))
      ]

  encrypted :
      (k : Text) (keys : List Text) (n : ℕ) (s e : Text)
      → F.is_key k ≡ true
      → unhandled (encrypt_credential F (k ∷ keys) n s) ≡ ok e
      → decrypt_credential F (k ∷ keys) e ≡ ok s
  unfolding encrypt_credential decrypt_credential
  encrypted k keys n s e key h = elim (Bool-cases (is_empty s)) [
    | inl x ↦ absurd (ground (arith, x, h))
    | inr x ↦
        let is : F.encrypt (k ∷ keys) n s ≡ e = ground (arith, x, h) in
        let back = F.decrypt-encrypt k keys n s key in rw (← is) (ground (arith, back))
  ]

valid_lem :
    (k : Collaborators) (db : Db) (tenant pbx : Text) (n : NewTrunk)
    → validate_create_inputs k db tenant pbx n ≡ ok tt
    → (pbx_in_tenant tenant (get_pbx pbx db.pbxs) ≡ true)
      × (condominium_in_scope tenant pbx (get_condominium n.condominium_id db.condominiums) ≡ true)
      × (is_profile n.sip_profile ≡ true)
unfolding validate_create_inputs validate_scope
valid_lem k db tenant pbx n h = ground (arith, h)

create-same :
    (k : Collaborators) (id tenant pbx : Text) (n : NewTrunk) (db : Db)
    → ((create k id tenant pbx n db).1.pbxs ≡ db.pbxs)
      × ((create k id tenant pbx n db).1.condominiums ≡ db.condominiums)
unfolding create create_trunk
create-same k id tenant pbx n db = elim (Result-cases (prepare k db tenant pbx n)) [
  | inr (x, p) ↦ (ground (arith, p), ground (arith, p))
  | inl (e, p) ↦ elim (Option-cases (violation db (trunk_of id tenant pbx n e))) [
    | inl v ↦ (ground (arith, p, v), ground (arith, p, v))
    | inr (x, v) ↦ (ground (arith, p, v), ground (arith, p, v))
  ]
]

prepare-encrypt :
    (k : Collaborators) (db : Db) (tenant pbx : Text) (n : NewTrunk) (e : Text)
    → prepare k db tenant pbx n ≡ ok e
    → k.encrypt n.password ≡ ok e
unfolding prepare
prepare-encrypt k db tenant pbx n e h =
    let valid = prepare-validates k db tenant pbx n e h in ground (arith, valid, h)

module _ (X : Xml) (F : Fernet) where
  -- With a cipher of some keys: a trunk that is created, enabled, in a condominium that is enabled and
  -- for a tenant that is active, is what the directory answers right after the creation for its
  -- profile and username, with the password that it was created with, while the legacy file is the same.
  pub create-lookup_directory :
      (k : Text) (keys : List Text) (seed : ℕ) (file : LegacyFile) (id tenant pbx : Text)
      (n : NewTrunk) (tenants : List Tenant) (db : Db) (t : Trunk)
      → let tools = collaborators X F (k ∷ keys) seed file in
        F.is_key k ≡ true
        → (create tools id tenant pbx n db).0 ≡ ok t
        → n.enabled ≡ true
        → condominium_serves t (get_condominium n.condominium_id db.condominiums) ≡ true
        → tenant_is_active tenant (some tenants) ≡ true
        → lookup_directory X F
            (k ∷ keys)
            file
            tenants
            (create tools id tenant pbx n db).1
            n.sip_profile
            n.auth_username
          ≡ ok (some (trunk_user t n.password))
  unfolding lookup_directory choose
  create-lookup_directory k keys seed file id tenant pbx n tenants db t key made enabled serves
        active =
      let tools = collaborators X F (k ∷ keys) seed file in
      let db' = (create tools id tenant pbx n db).1 in
      let (e, p, is, stored) = create-made tools id tenant pbx n db t made in
      let (in_tenant, in_scope, profile) =
        valid_lem tools db tenant pbx n (prepare-validates tools db tenant pbx n e p) in
      let (new, free, legacy, found, status) = create-fresh tools id tenant pbx n db t made in
      let absent = not_contained X F file n.sip_profile n.auth_username profile legacy in
      let back =
        encrypted X F k keys seed n.password e key (prepare-encrypt tools db tenant pbx n e p) in
      let (pbxs, condominiums) = create-same tools id tenant pbx n db in
      let opened : decrypt_credential F (k ∷ keys) t.encrypted_password ≡ ok n.password =
        ap (λ x. decrypt_credential F (k ∷ keys) x.encrypted_password) is ∙ back in
      let on : t.enabled ≡ true = ap (λ x. x.enabled) is ∙ enabled in
      let place : condominium_serves t (get_condominium t.condominium_id db'.condominiums) ≡ true =
        rw (condominiums, is) (rw (← is) serves) in
      let owned : pbx_in_tenant t.tenant_id (get_pbx t.pbx_id db'.pbxs) ≡ true =
        rw (pbxs, is) in_tenant in
      let live : tenant_is_active t.tenant_id (some tenants) ≡ true = rw is active in
      let known =
        (lookup_directory_identity_iff (some tenants) n.sip_profile n.auth_username db' t).1
          (found, on, place, owned, live) in
      rw (absent, known, opened) refl
