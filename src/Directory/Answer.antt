-- ===== src/Directory/Answer.antt =====
-- The callback of the XML directory (src/api/freeswitch_directory.py), for one request. `ET.fromstring`
-- and `ET.tostring` are parameters, as is the library that encrypts.
use zenith_voip.Prelude.{
  ℕ, ◌+◌, Bool, true, false, not, ◌&&◌, ◌||◌, Option, none, some, List, [], ◌∷◌, Text, codes,
  text_eq, is_empty, ltb, if◌then◌else◌,
}
use zenith_voip.Prelude.Dict.{Dict, lookup}
use zenith_voip.Prelude.Result.{Result, ok, err, ◌>>=◌}
use zenith_voip.Prelude.Xml.{Element}
use zenith_voip.Trunk.Db.{Tenant, Trunk, Db}
use zenith_voip.Trunk.Service.Lookup.{lookup_directory_identity}
use zenith_voip.Directory.Credentials.{
  CredentialError, Fernet, keys_of, new_cipher, decrypt_credential,
}
use zenith_voip.Directory.Entry.{DirectoryUser, trunk_user, legacy_user, build_directory_xml}
use zenith_voip.Directory.Legacy.{LegacyError, LegacyUser, LegacyFile, new_provider, lookup_user}

pub record Xml : Type 0 where
  pub fromstring : Text → Option Element
  pub tostring : Element → Text

pub record Settings : Type 0 where
  pub credential_keys : Text
  pub basic_username : Text
  pub basic_password : Text

-- What ends the lookup: the two exceptions that the callback handles, and any other.
pub data LookupError : Type 0 where
  identity_ambiguous : LookupError
  credential_unavailable : Text → LookupError
  legacy_failed : LegacyError → LookupError

-- What the request gets; `server_error` is an exception that no handler takes.
pub data HttpAnswer : Type 0 where
  xml : Text → HttpAnswer
  http_error : ℕ → Text → HttpAnswer
  server_error : HttpAnswer

abbrev pub failed_legacy :
    Result LegacyError (Option LegacyUser) → Result LookupError (Option LegacyUser)
failed_legacy (ok u) = ok u
failed_legacy (err e) = err (legacy_failed e)

abbrev pub with_password :
    Trunk → Result CredentialError Text → Result LookupError (Option DirectoryUser)
with_password t (ok s) = ok (some (trunk_user t s))
with_password t (err e) = err (credential_unavailable t.id)

-- `DirectoryLookupService.lookup`, from what the trunks and the legacy file have
unfoldable pub choose :
    (Trunk → Result CredentialError Text)
    → Option Trunk
    → Option LegacyUser
    → Result LookupError (Option DirectoryUser)
choose decrypt (some t) (some u) = err identity_ambiguous
choose decrypt (some t) none = with_password t (decrypt t)
choose decrypt none (some u) = ok (some (legacy_user u))
choose decrypt none none = ok none

module _ (X : Xml) (F : Fernet) where
  -- `DirectoryLookupService.lookup`, with a provider that has read nothing
  unfoldable pub lookup_directory :
      List Text
      → LegacyFile
      → List Tenant
      → Db
      → Text
      → Text
      → Result LookupError (Option DirectoryUser)
  lookup_directory keys file tenants db profile username = do
    legacy ← failed_legacy (lookup_user X.fromstring file username new_provider).0
    choose (λ t. decrypt_credential F keys t.encrypted_password)
        (lookup_directory_identity (some tenants) profile username db) legacy

-- `form.get(key) or default`
abbrev pub get_or : Dict Text → Text → Option Text → Option Text
get_or form key default = elim (lookup key form) [
  | none ↦ default
  | some s ↦ if is_empty s then default else some s
]

abbrev pub both : Option Text → Option Text → Option (Text × Text)
both (some a) (some b) = if is_empty a || is_empty b then none else some (a, b)
both _ _ = none

-- `extract_directory_lookup`
unfoldable pub extract_directory_lookup : Dict Text → Option (Text × Text)
extract_directory_lookup form = elim (lookup (codes "section") form) [
  | none ↦ none
  | some section ↦
      if not (text_eq section (codes "directory"))
      then none
      else both
          (get_or form (codes "sip_profile") (
            get_or form (codes "sip_profile_name")
              (lookup (codes "variable_sofia_profile_name") form)))
          (get_or form (codes "sip_auth_username") (lookup (codes "user") form))
]

abbrev pub not_found_xml : Text
not_found_xml =
    codes
      "<document type=\"freeswitch/xml\"><section name=\"result\"><result status=\"not found\"/></section></document>"

-- `len(text.encode("utf-8"))`
unfoldable pub utf8_length : Text → ℕ
utf8_length [] = 0
utf8_length (c ∷ s) =
    let rest = utf8_length s in
    if ltb c 0x80
    then 1 + rest
    else if ltb c 0x800
    then 2 + rest
    else if ltb c 0x10000
    then 3 + rest
    else 4 + rest

-- `_xml_response`
unfoldable pub xml_response : Text → HttpAnswer
xml_response payload = if ltb 65_536 (utf8_length payload) then xml not_found_xml else xml payload

abbrev pub is_ascii : Text → Bool
is_ascii [] = true
is_ascii (c ∷ s) = ltb c 0x80 && is_ascii s

-- `hmac.compare_digest`, which raises a TypeError for texts that are not ASCII
unfoldable pub compare_digest : Text → Text → Result (Unit {0}) Bool
compare_digest a b = if is_ascii a && is_ascii b then ok (text_eq a b) else err tt

-- `_authenticated`
unfoldable pub authenticated : Settings → Option (Text × Text) → Result (Unit {0}) Bool
authenticated settings none = ok false
authenticated settings (some (username, password)) =
    compare_digest username settings.basic_username >>= λ same.
    if same then compare_digest password settings.basic_password else ok false

abbrev pub key_unavailable : HttpAnswer
key_unavailable = http_error 503 (codes "credential_key_unavailable")

module _ (X : Xml) (F : Fernet) (settings : Settings) where
  abbrev pub domain_of : Dict Text → Text
  domain_of form = elim (get_or form (codes "domain") (get_or form (codes "key_value") none)) [
    | none ↦ codes "zenith.local"
    | some d ↦ d
  ]

  abbrev pub answer_of : Dict Text → Result LookupError (Option DirectoryUser) → HttpAnswer
  answer_of form (err identity_ambiguous) = xml_response not_found_xml
  answer_of form (err (credential_unavailable id)) = key_unavailable
  answer_of form (err (legacy_failed e)) = server_error
  answer_of form (ok none) = xml_response not_found_xml
  answer_of form (ok (some user)) =
      xml_response (X.tostring (build_directory_xml (domain_of form) user))

  -- The body of `freeswitch_directory` behind the test of the credentials.
  unfoldable pub answer_form : List Text → LegacyFile → List Tenant → Db → Dict Text → HttpAnswer
  answer_form keys file tenants db form = elim (extract_directory_lookup form) [
    | none ↦ xml_response not_found_xml
    | some (profile, username) ↦
        answer_of form (lookup_directory X F keys file tenants db profile username)
  ]

  -- `freeswitch_directory`; the service is made before the body runs.
  unfoldable pub freeswitch_directory :
      Option (Text × Text) → LegacyFile → List Tenant → Db → Dict Text → HttpAnswer
  freeswitch_directory credentials file tenants db form =
      elim (new_cipher F (keys_of settings.credential_keys)) [
        | err e ↦ key_unavailable
        | ok keys ↦ elim (authenticated settings credentials) [
          | err e ↦ server_error
          | ok false ↦ http_error 401 (codes "unauthorized")
          | ok true ↦ answer_form keys file tenants db form
        ]
      ]
