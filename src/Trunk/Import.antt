-- ===== src/Trunk/Import.antt =====
-- The imports of parsed rows (src/services/trunk_import.py): the CSV import, which rejects rows one
-- by one, and the JSON batch, which validates every row before it writes the first.
pub mod Csv
pub mod Parse
pub mod Files
pub mod Totals
pub mod Isolation
mod Tests
use zenith_voip.Prelude.{
  ℕ, ◌+◌, Bool, true, false, not, ◌&&◌, ◌||◌, Option, none, some, List, [], ◌∷◌, ◌++◌, Text, codes,
  text_eq, is_empty, length, if◌then◌else◌,
}
use zenith_voip.Prelude.Dict.{Dict, lookup}
use zenith_voip.Prelude.Result.{Result, ok, err}
use zenith_voip.Trunk.Db.{Db}
use zenith_voip.Trunk.Service.{
  Code, pbx_not_found, condominium_not_found, trunk_not_found, duplicate_auth_identity,
  duplicate_prefix, invalid_prefix, invalid_password, invalid_sip_configuration, Error, scope,
  duplicate, value, unexpected, Collaborators, given,
}
use zenith_voip.Trunk.Service.Upsert.{
  Row, Outcome, created, updated, upsert_imported, validate_importable,
}

-- `TrunkCSVRow`
pub record TrunkRow : Type 0 where
  pub line : ℕ
  pub prefix : Option Text
  pub condominium_name : Text
  pub auth_username : Text
  pub password : Text
  pub sip_profile : Text
  pub condominium_id : Option Text

-- What the service reads of a row; the id None is the empty text, which no condominium has.
abbrev pub row_of : TrunkRow → Row
row_of r = record {
  condominium_id = given r.condominium_id [];
  prefix = r.prefix;
  auth_username = r.auth_username;
  password = r.password;
  sip_profile = r.sip_profile;
}

pub record RowError : Type 0 where
  pub line : ℕ
  pub code : Code
  pub column : Option Text

-- `TrunkImportResult`
pub record ImportResult : Type 0 where
  pub dry_run : Bool
  pub rows : ℕ
  pub created_rows : ℕ
  pub updated_rows : ℕ
  pub unchanged : ℕ
  pub rejected : ℕ
  pub errors : List RowError

abbrev pub new_result : Bool → ℕ → ℕ → ImportResult
new_result dry n ignored = record {
  dry_run = dry;
  rows = n;
  created_rows = 0;
  updated_rows = 0;
  unchanged = ignored;
  rejected = 0;
  errors = [];
}

-- `_ROW_ERROR_FIELDS`
unfoldable pub error_column : Code → Option Text
error_column pbx_not_found = some (codes "pbx_id")
error_column condominium_not_found = some (codes "condominium_id")
error_column trunk_not_found = none
error_column duplicate_auth_identity = some (codes "auth_username")
error_column duplicate_prefix = some (codes "prefix")
error_column invalid_prefix = some (codes "prefix")
error_column invalid_password = some (codes "password")
error_column invalid_sip_configuration = some (codes "sip_profile")

-- The errors that the CSV import catches, and their text.
abbrev pub caught : Error → Option Code
caught (scope c) = some c
caught (duplicate c) = some c
caught (value c) = some c
caught unexpected = none

unfoldable pub count : Outcome → ImportResult → ImportResult
count created r = record r { created_rows = r.created_rows + 1 }
count updated r = record r { updated_rows = r.updated_rows + 1 }

unfoldable pub reject : TrunkRow → Code → ImportResult → ImportResult
reject row code r = record r {
  rejected = r.rejected + 1;
  errors = r.errors ++ (record { line = row.line; code = code; column = error_column code } ∷ []);
}

-- The ids that new trunks get, by the line of their row, and the tenant and PBX of the import.
pub record Target : Type 0 where
  pub new_id : ℕ → Text
  pub tenant_id : Text
  pub pbx_id : Text

-- One row through the service.
abbrev pub upsert_row : Collaborators → Target → TrunkRow → Db → Result Error Outcome × Db
upsert_row k to r db = upsert_imported k (to.new_id r.line) to.tenant_id to.pbx_id (row_of r) db

-- The loop of `import_trunk_csv`.
unfoldable pub csv_rows :
    Collaborators → Target → List TrunkRow → ImportResult → Db → Result Error ImportResult × Db
csv_rows k to [] res db = (ok res, db)
csv_rows k to (r ∷ rs) res db = elim (upsert_row k to r db).0 [
  | ok outcome ↦ csv_rows k to rs (count outcome res) (upsert_row k to r db).1
  | err e ↦ elim (caught e) [
    | some code ↦ csv_rows k to rs (reject r code res) (upsert_row k to r db).1
    | none ↦ (err e, (upsert_row k to r db).1)
  ]
]

-- `import_trunk_csv` of the parsed rows, after so many ignored ones
unfoldable pub import_trunk_csv :
    Collaborators → Target → Bool → List TrunkRow → ℕ → Db → Result Error ImportResult × Db
import_trunk_csv k to dry_run rows ignored db = elim dry_run [
  | true ↦ (ok (new_result true (length rows) ignored), db)
  | false ↦ csv_rows k to rows (new_result false (length rows) ignored) db
]

-- The errors of the JSON imports: one of the service, or the missing condominium of the schema.
pub data BatchError : Type 0 where
  service : Error → BatchError
  condominium_missing : BatchError

-- `not condominium_ids.get(row.condominium_name)`
abbrev pub no_condominium : Dict Text → TrunkRow → Bool
no_condominium ids r = is_empty (given (lookup r.condominium_name ids) [])

unfoldable pub any_missing : Dict Text → List TrunkRow → Bool
any_missing ids [] = false
any_missing ids (r ∷ rs) = no_condominium ids r || any_missing ids rs

unfoldable pub resolved_rows : Dict Text → List TrunkRow → List TrunkRow
resolved_rows ids [] = []
resolved_rows ids (r ∷ rs) =
    record r { condominium_id = lookup r.condominium_name ids } ∷ resolved_rows ids rs

unfoldable pub validate_rows : Collaborators → Target → List TrunkRow → Db → Result Error (Unit {0})
validate_rows k to [] db = ok tt
validate_rows k to (r ∷ rs) db = elim (validate_importable k db to.tenant_id to.pbx_id (row_of r)) [
  | ok tt ↦ validate_rows k to rs db
  | err e ↦ err e
]

unfoldable pub batch_rows :
    Collaborators → Target → List TrunkRow → ImportResult → Db → Result BatchError ImportResult × Db
batch_rows k to [] res db = (ok res, db)
batch_rows k to (r ∷ rs) res db = elim (upsert_row k to r db).0 [
  | ok outcome ↦ batch_rows k to rs (count outcome res) (upsert_row k to r db).1
  | err e ↦ (err (service e), (upsert_row k to r db).1)
]

-- `import_trunk_json_batch` of the parsed rows
unfoldable pub import_trunk_json_batch :
    Collaborators
    → Target
    → Dict Text
    → Bool
    → List TrunkRow
    → Db
    → Result BatchError ImportResult × Db
import_trunk_json_batch k to ids dry_run rows db = elim dry_run [
  | true ↦ (ok (new_result true (length rows) 0), db)
  | false ↦ elim (any_missing ids rows) [
    | true ↦ (err condominium_missing, db)
    | false ↦ elim (validate_rows k to (resolved_rows ids rows) db) [
      | err e ↦ (err (service e), db)
      | ok tt ↦ batch_rows k to (resolved_rows ids rows) (new_result false (length rows) 0) db
    ]
  ]
]
