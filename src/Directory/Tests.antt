-- ===== src/Directory/Tests.antt =====
-- The directory at concrete users, with a cipher that marks its text.
use zenith_voip.Prelude.{
  ◌≡◌, ◌≢◌, refl, true, none, some, List, [], ◌∷◌, ◌++◌, map, Text, codes, text_eq, text_eq_iff,
  arith, one_of,
}
use zenith_voip.Prelude.Dict.{Dict, lookup, insert}
use zenith_voip.Prelude.Result.{ok}
use zenith_voip.Prelude.Xml.{Element, element, named, named_in, below}
use zenith_voip.Text.{strip}
use zenith_voip.Trunk.Db.{
  Trunk, create_trunk, violation, identity_taken, prefix_taken, get_pbx, get_condominium,
  get_tenant, find_identity, find_prefix, all_digits,
}
use zenith_voip.Trunk.Service.{
  create, prepare, trunk_of, validate_create_inputs, validate_scope, ensure_unique,
}
use zenith_voip.Trunk.Service.Lookup.{lookup_directory_identity}
use zenith_voip.Trunk.Service.Examples.{ours, tables, tenants, newcomer}
use zenith_voip.Directory.Credentials.{
  Fernet, normalized, split_commas, keys_of, new_cipher, encrypt_credential, decrypt_credential,
}
use zenith_voip.Directory.Legacy.{
  LegacyFile, modified, missing, new_provider, has_word, is_unsafe, first_password, user_of,
  add_users, candidates, parse_root, read_users, refresh, lookup_user, contains_user,
}
use zenith_voip.Directory.Answer.{
  Xml, Settings, xml, choose, lookup_directory, extract_directory_lookup, not_found_xml,
  utf8_length, xml_response, compare_digest, authenticated, answer_form, freeswitch_directory,
}
use zenith_voip.Directory.Entry.{trunk_user, named_value, inside, user_element, build_directory_xml}
use zenith_voip.Directory.Cache.{fresh_answer, run_lookups, run_lookups-fresh}
use zenith_voip.Directory.Created.{collaborators, create-lookup_directory}
use zenith_voip.Directory.Disclosure.{Discloses, freeswitch_directory-Discloses}
use zenith_voip.Directory.RoundTrip.{answered_user, read_answer}

abbrev legacy_root : Element
legacy_root = inside (codes "include") [] (
    inside (codes "user") ((codes "id", codes "ramal") ∷ []) (
      inside (codes "params") [] (named_value (codes "param") (codes "password", codes "pw") ∷ [])
      ∷ [])
    ∷ [])

ids : List Element → Text
unfolding user_of
ids [] = []
ids (e ∷ es) = (user_of e).username ++ codes ":" ++ (user_of e).password ++ ids es

-- The users and their passwords, after the name of the root.
abbrev printed : Element → Text
printed (element tag attributes inner) = tag ++ codes " of " ++ ids (below (codes "user") inner)

abbrev parser : Xml
parser = record { fromstring = λ raw. some legacy_root; tostring = printed }

abbrev cipher : Fernet
cipher = record {
  is_key = λ k. true;
  encrypt = λ ks n s. b'#' ∷ s;
  decrypt = λ ks token. elim token [ [] ↦ none | c ∷ s ↦ some s ];
  decrypt-encrypt = λ k ks n s key. refl;
}

abbrev at_seven : LegacyFile
at_seven = record { stat = modified 7; content = some (codes "<include/>") }

abbrev gone : LegacyFile
gone = record { stat = missing; content = none }

abbrev looks : List (LegacyFile × Text)
looks = (at_seven, codes "ramal") ∷ (at_seven, codes "nobody") ∷ (gone, codes "ramal") ∷ []

legacy_found :
    (lookup_user parser.fromstring at_seven (codes "ramal") new_provider).0
    ≡ ok (
        some (
          user_of (
            inside (codes "user") ((codes "id", codes "ramal") ∷ []) (
              inside
                (codes "params")
                []
                (named_value (codes "param") (codes "password", codes "pw") ∷ [])
              ∷ []))))
unfolding text_eq lookup_user refresh read_users has_word is_unsafe parse_root candidates below
    add_users user_of insert lookup strip
legacy_found = refl

run_lookups-fresh_example :
    run_lookups parser.fromstring looks new_provider ≡ map (fresh_answer parser.fromstring) looks
run_lookups-fresh_example =
    run_lookups-fresh parser.fromstring (λ m. some (codes "<include/>")) looks
      ((λ m h. refl), ((λ m h. refl), ((λ m h. absurd (ground (arith, h))), tt)))

read_answer_example :
    add_users
      (candidates (build_directory_xml (codes "zenith.local") (trunk_user ours (codes "old"))))
      []
    ≡ ok ((codes "ana", answered_user (trunk_user ours (codes "old"))) ∷ [])
unfolding strip
read_answer_example = read_answer (codes "zenith.local") (trunk_user ours (codes "old")) refl

abbrev settings : Settings
settings = record {
  credential_keys = codes "k1, ,k2";
  basic_username = codes "freeswitch";
  basic_password = codes "secret";
}

keys_run : keys_of settings.credential_keys ≡ codes "k1" ∷ codes "k2" ∷ []
unfolding keys_of normalized split_commas strip
keys_run = refl

abbrev form : Dict Text
form =
    (codes "section", codes "directory")
    ∷ (codes "sip_profile", codes "internal")
    ∷ (codes "user", codes "ana")
    ∷ []

abbrev entry : Text
entry = codes "document of ana:old"

entry_answered :
    freeswitch_directory parser cipher settings
      (some (codes "freeswitch", codes "secret"))
      gone
      tenants
      tables
      form
    ≡ xml entry
unfolding text_eq freeswitch_directory keys_of normalized split_commas strip new_cipher
    authenticated compare_digest answer_form extract_directory_lookup lookup lookup_directory
    lookup_user refresh choose lookup_directory_identity find_identity get_condominium get_pbx
    get_tenant decrypt_credential build_directory_xml user_element below user_of named_in named
    first_password ids xml_response utf8_length
entry_answered = refl

other_entry : entry ≢ not_found_xml
unfolding text_eq
other_entry h =
    let same : text_eq entry not_found_xml ≡ true = (text_eq_iff entry not_found_xml).1 h in
    absurd (ground (arith, same))

freeswitch_directory-Discloses_example :
    Discloses parser cipher settings
      (some (codes "freeswitch", codes "secret"))
      gone
      tenants
      tables
      form
      entry
freeswitch_directory-Discloses_example =
    freeswitch_directory-Discloses parser cipher settings
      (some (codes "freeswitch", codes "secret")) gone tenants tables form entry entry_answered
      other_entry

abbrev new_row : Trunk
new_row = trunk_of (codes "t3") (codes "A") (codes "pa") newcomer (codes "#pw")

created :
    (create
      (collaborators parser cipher (codes "k1" ∷ []) 0 at_seven)
      (codes "t3")
      (codes "A")
      (codes "pa")
      newcomer
      tables).0
    ≡ ok new_row
unfolding text_eq create prepare validate_create_inputs validate_scope ensure_unique get_pbx
    get_condominium find_identity find_prefix all_digits strip violation identity_taken prefix_taken
    create_trunk contains_user lookup_user refresh read_users has_word is_unsafe parse_root
    candidates below add_users user_of insert lookup encrypt_credential one_of
created = refl

create-lookup_directory_example :
    lookup_directory parser cipher
      (codes "k1" ∷ [])
      at_seven
      tenants
      (create
        (collaborators parser cipher (codes "k1" ∷ []) 0 at_seven)
        (codes "t3")
        (codes "A")
        (codes "pa")
        newcomer
        tables).1
      newcomer.sip_profile
      newcomer.auth_username
    ≡ ok (some (trunk_user new_row newcomer.password))
unfolding text_eq get_condominium get_tenant
create-lookup_directory_example =
    create-lookup_directory parser cipher (codes "k1") [] 0 at_seven (codes "t3") (codes "A")
      (codes "pa") newcomer tenants tables new_row refl created refl refl refl
