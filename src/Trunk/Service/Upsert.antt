-- ===== src/Trunk/Service/Upsert.antt =====
-- `TrunkService.validate_importable` and `upsert_imported` (src/services/trunks.py).
use zenith_voip.Prelude.{false, not, Option, none, some, Text, codes, text_eq, is_empty}
use zenith_voip.Prelude.Result.{Result, ok, ◌>>=◌, ◌>>◌, raise_if}
use zenith_voip.Text.{strip}
use zenith_voip.Trunk.Db.{Db, find_identity}
use zenith_voip.Trunk.Service.{
  trunk_not_found, invalid_password, Error, scope, value, Collaborators, NewTrunk, Changes,
  validate_create_inputs, create, update,
}

-- A row of an import.
pub record Row : Type 0 where
  pub condominium_id : Text
  pub prefix : Option Text
  pub auth_username : Text
  pub password : Text
  pub sip_profile : Text

abbrev pub new_of_row : Row → NewTrunk
new_of_row r = record {
  condominium_id = r.condominium_id;
  prefix = r.prefix;
  auth_username = r.auth_username;
  password = r.password;
  sip_profile = r.sip_profile;
  transport = codes "udp";
  enabled = false;
}

-- `validate_importable`; the password of a row is never None.
unfoldable pub validate_importable :
    Collaborators → Db → Text → Text → Row → Result Error (Unit {0})
validate_importable k db tenant pbx r =
    elim (find_identity r.sip_profile r.auth_username db.trunks) [
      | none ↦ validate_create_inputs k db tenant pbx (new_of_row r)
      | some t ↦ do
        raise_if (not (text_eq t.tenant_id tenant)) (scope trunk_not_found)
        raise_if (is_empty (strip r.password)) (value invalid_password)
        ok tt
    ]

pub data Outcome : Type 0 where
  created updated : Outcome

abbrev pub changes_of_row : Row → Changes
changes_of_row r = record {
  condominium_id = none;
  prefix = none;
  auth_username = some r.auth_username;
  sip_profile = some r.sip_profile;
  enabled = some false;
  password = some r.password;
}

-- `upsert_imported`
unfoldable pub upsert_imported :
    Collaborators → Text → Text → Text → Row → Db → Result Error Outcome × Db
upsert_imported k id tenant pbx r db =
    elim (find_identity r.sip_profile r.auth_username db.trunks) [
      | some t ↦
          let (x, db') = update k tenant t.id (changes_of_row r) db in
          ((x >>= λ _. ok updated), db')
      | none ↦
          let (x, db') = create k id tenant pbx (new_of_row r) db in ((x >>= λ _. ok created), db')
    ]
