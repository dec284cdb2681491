-- ===== src/Directory/Disclosure.antt =====
-- Which requests are given a user with its password.
use zenith_voip.Prelude.{
  ◌≡◌, ◌≢◌, refl, sym, ap, ◌∙◌, inl, inr, true, false, Option, none, some, List, Text, ltb, ◌≤◌,
  text_eq_iff, arith, Bool-cases, Option-cases,
}
use zenith_voip.Prelude.Dict.{Dict}
use zenith_voip.Prelude.Result.{Result, ok, err, Result-cases}
use zenith_voip.Trunk.Db.{Tenant, Db}
use zenith_voip.Trunk.Service.Lookup.{lookup_directory_identity}
use zenith_voip.Directory.Credentials.{Fernet, keys_of, new_cipher, decrypt_credential}
use zenith_voip.Directory.Legacy.{LegacyFile, new_provider, lookup_user}
use zenith_voip.Directory.Answer.{
  Xml, Settings, xml, LookupError, identity_ambiguous, credential_unavailable, legacy_failed,
  choose, lookup_directory, extract_directory_lookup, not_found_xml, utf8_length, xml_response,
  compare_digest, authenticated, answer_of, domain_of, answer_form, freeswitch_directory,
}
use zenith_voip.Directory.Entry.{DirectoryUser, trunk_user, legacy_user, build_directory_xml}

compare_digest-equal : (a b : Text) → compare_digest a b ≡ ok true → a ≡ b
unfolding compare_digest
compare_digest-equal a b h = ground (arith, text_eq_iff a b)

authenticated-equal :
    (settings : Settings) (credentials : Option (Text × Text))
    → authenticated settings credentials ≡ ok true
    → credentials ≡ some (settings.basic_username, settings.basic_password)
unfolding authenticated
authenticated-equal settings none h = absurd (ground arith)
authenticated-equal settings (some (username, password)) h =
    elim (Result-cases (compare_digest username settings.basic_username)) [
      | inr (x, e) ↦ absurd (ground (arith, e, h))
      | inl (b, e) ↦ elim (Bool-cases b) [
        | inr y ↦ absurd (ground (arith, e, y, h))
        | inl y ↦
            let name = compare_digest-equal username settings.basic_username (e ∙ ap ok y) in
            let word =
              compare_digest-equal password settings.basic_password (ground (arith, e, y, h)) in
            rw (name, word) refl
      ]
    ]

xml_inj : {s t : Text} → xml s ≡ xml t → s ≡ t
xml_inj h = ground (arith, h)

xml_response-short :
    (s p : Text) → xml_response s ≡ xml p → p ≢ not_found_xml → (p ≡ s) × (utf8_length p ≤ 65_536)
unfolding xml_response
xml_response-short s p h n = elim (Bool-cases (ltb 65_536 (utf8_length s))) [
  | inl long ↦ let is : not_found_xml ≡ p = xml_inj (ground (arith, long, h)) in absurd (n (sym is))
  | inr short ↦
      let is : s ≡ p = xml_inj (ground (arith, short, h)) in
      (sym is, rw (← is) (ground (arith, short)))
]

module _ (X : Xml) (F : Fernet) where
  -- What the tables and the legacy file have, where a user is found: a trunk that may register and
  -- whose password decrypts, or a user of the file, and never both.
  abbrev pub IsAllowed :
      List Text → LegacyFile → List Tenant → Db → Text → Text → DirectoryUser → Type 0
  IsAllowed keys file tenants db profile username (trunk_user t s) =
      (lookup_directory_identity (some tenants) profile username db ≡ some t)
      × (decrypt_credential F keys t.encrypted_password ≡ ok s)
      × ((lookup_user X.fromstring file username new_provider).0 ≡ ok none)
  IsAllowed keys file tenants db profile username (legacy_user u) =
      (lookup_directory_identity (some tenants) profile username db ≡ none)
      × ((lookup_user X.fromstring file username new_provider).0 ≡ ok (some u))

  lookup_directory-IsAllowed :
      (keys : List Text) (file : LegacyFile) (tenants : List Tenant) (db : Db)
      (profile username : Text) (user : DirectoryUser)
      → lookup_directory X F keys file tenants db profile username ≡ ok (some user)
      → IsAllowed keys file tenants db profile username user
  unfolding lookup_directory choose
  lookup_directory-IsAllowed keys file tenants db profile username user h =
      elim (Result-cases (lookup_user X.fromstring file username new_provider).0) [
        | inr (x, e) ↦ absurd (ground (arith, e, h))
        | inl (none, e) ↦
            elim (Option-cases (lookup_directory_identity (some tenants) profile username db)) [
              | inl f ↦ absurd (ground (arith, e, f, h))
              | inr (t, f) ↦ elim (Result-cases (decrypt_credential F keys t.encrypted_password)) [
                | inr (x, d) ↦ absurd (ground (arith, e, f, d, h))
                | inl (s, d) ↦
                    let is : trunk_user t s ≡ user = ground (arith, e, f, d, h) in
                    rw (← is) (f, d, e)
              ]
            ]
        | inl (some u, e) ↦
            elim (Option-cases (lookup_directory_identity (some tenants) profile username db)) [
              | inr (t, f) ↦ absurd (ground (arith, e, f, h))
              | inl f ↦ let is : legacy_user u ≡ user = ground (arith, e, f, h) in rw (← is) (f, e)
            ]
      ]

module _ (X : Xml) (F : Fernet) (settings : Settings) where
  -- What is known of a request that is given an entry: the credentials are the configured ones, the
  -- form asks for an identity of the directory, and the entry is that of an allowed user.
  abbrev pub Discloses :
      Option (Text × Text) → LegacyFile → List Tenant → Db → Dict Text → Text → Type 0
  Discloses credentials file tenants db form p =
      (credentials ≡ some (settings.basic_username, settings.basic_password))
      × (keys : List Text) × (profile : Text) × (username : Text) × (user : DirectoryUser)
      × (new_cipher F (keys_of settings.credential_keys) ≡ ok keys)
      × (extract_directory_lookup form ≡ some (profile, username))
      × IsAllowed X F keys file tenants db profile username user
      × (p ≡ X.tostring (build_directory_xml (domain_of X F settings form) user))
      × (utf8_length p ≤ 65_536)

  answer_of-user :
      (form : Dict Text) (r : Result LookupError (Option DirectoryUser)) (p : Text)
      → answer_of X F settings form r ≡ xml p
      → p ≢ not_found_xml
      → (user : DirectoryUser) × (r ≡ ok (some user))
        × (p ≡ X.tostring (build_directory_xml (domain_of X F settings form) user))
        × (utf8_length p ≤ 65_536)
  answer_of-user form (err identity_ambiguous) p h n =
      absurd (n (xml_response-short not_found_xml p h n).0)
  answer_of-user form (err (credential_unavailable id)) p h n = absurd (ground (arith, h))
  answer_of-user form (err (legacy_failed e)) p h n = absurd (ground (arith, h))
  answer_of-user form (ok none) p h n = absurd (n (xml_response-short not_found_xml p h n).0)
  answer_of-user form (ok (some user)) p h n =
      let (is, short) =
        xml_response-short (X.tostring (build_directory_xml (domain_of X F settings form) user)) p h
          n in
      (user, refl, is, short)

  -- An XML answer other than the one for a user that is not found is given only to a request with the
  -- configured credentials whose form asks for a profile and a username of the directory; it is then
  -- the entry of a trunk that may register under them, with its decrypted password, where the legacy
  -- file has no such user, or the entry of a user of the legacy file, where no trunk may register; an
  -- identity of both is never answered, and the entry has at most 65 536 bytes.
  pub freeswitch_directory-Discloses :
      (credentials : Option (Text × Text)) (file : LegacyFile) (tenants : List Tenant) (db : Db)
      (form : Dict Text) (p : Text)
      → freeswitch_directory X F settings credentials file tenants db form ≡ xml p
      → p ≢ not_found_xml
      → Discloses credentials file tenants db form p
  unfolding freeswitch_directory answer_form
  freeswitch_directory-Discloses credentials file tenants db form p h n =
      elim (Result-cases (new_cipher F (keys_of settings.credential_keys))) [
        | inr (x, c) ↦ absurd (ground (arith, c, h))
        | inl (keys, c) ↦ elim (Result-cases (authenticated settings credentials)) [
          | inr (x, a) ↦ absurd (ground (arith, c, a, h))
          | inl (false, a) ↦ absurd (ground (arith, c, a, h))
          | inl (true, a) ↦ elim (Option-cases (extract_directory_lookup form)) [
            | inl x ↦
                let none_found : xml_response not_found_xml ≡ xml p = ground (arith, c, a, x, h) in
                absurd (n (xml_response-short not_found_xml p none_found n).0)
            | inr ((profile, username), x) ↦
                let r = lookup_directory X F keys file tenants db profile username in
                let answered : answer_of X F settings form r ≡ xml p = ground (arith, c, a, x, h) in
                let (user, found, is, short) = answer_of-user form r p answered n in
                let allowed =
                  lookup_directory-IsAllowed X F keys file tenants db profile username user found in
                (
                  authenticated-equal settings credentials a,
                  keys,
                  profile,
                  username,
                  user,
                  c,
                  x,
                  allowed,
                  is,
                  short,
                )
          ]
        ]
      ]
