-- ===== src/Trunk/Import/Files/Tests.antt =====
-- Imports of small files on two tenants.
use zenith_voip.Prelude.{
  ℕ, ◌≤◌, ◌<◌, ◌≡◌, refl, true, false, Option, none, some, List, [], ◌∷◌, ◌++◌, Text, codes,
  text_eq, length, one_of,
}
use zenith_voip.Prelude.Dict.{Dict, lookup}
use zenith_voip.Prelude.Result.{ok}
use zenith_voip.Prelude.Json.{
  Items, Json, num, str, obj, arr, nil, cons, Fields, end, field, member,
}
use zenith_voip.Text.{strip, lstrip, is_space}
use zenith_voip.Trunk.Db.{
  get_pbx, get_condominium, get_trunk, find_identity, find_prefix, all_digits, identity_taken,
  prefix_taken, violation, create_trunk,
}
use zenith_voip.Trunk.Service.{
  validate_scope, ensure_unique, validate_create_inputs, prepare, create, owned_trunk, update,
}
use zenith_voip.Trunk.Service.Upsert.{upsert_imported}
use zenith_voip.Trunk.Service.Examples.{tools, tables}
use zenith_voip.Trunk.Import.{
  TrunkRow, ImportResult, Target, new_result, count, reject, error_column, csv_rows,
  import_trunk_csv,
}
use zenith_voip.Trunk.Import.Totals.{total}
use zenith_voip.Trunk.Import.Parse.{
  Conversions, Document, normalize_trunk_entry, open_document, parse_entry, parse_entries,
  parse_trunk_json_batch,
}
use zenith_voip.Trunk.Import.Csv.{Record, CsvFile, csv_records, parse_trunk_csv}
use zenith_voip.Trunk.Import.Parse.Accepted.{AreRowsOf, parse_trunk_json_batch-ok}
use zenith_voip.Trunk.Import.Files.{
  import_csv_file, import_json_file, import_batch_file, max_csv_rows, max_csv_bytes,
  import_csv_file-total, dry_run-keeps,
}

abbrev target : Target
target = record { new_id = λ n. codes "n" ++ (n ∷ []); tenant_id = codes "A"; pbx_id = codes "pa" }

abbrev columns : List Text
columns = codes "technology" ∷ codes "device_user" ∷ codes "device_password" ∷ []

abbrev of_pairs : List (Text × Text) → Record
of_pairs d k = lookup k d

-- a trunk, and a virtual device
abbrev records : List Record
records =
    of_pairs (
      (codes "technology", codes "PJSIP")
      ∷ (codes "device_user", codes " eva ")
      ∷ (codes "device_password", codes "pw")
      ∷ (codes "condominium_id", codes "ca")
      ∷ [])
    ∷ of_pairs ((codes "technology", codes "virtual") ∷ [])
    ∷ []

abbrev imported : ImportResult
imported = record (new_result false 1 1) { created_rows = 1 }

csv_run :
    (import_csv_file tools target false
      (record { size = 90; content = some (columns, records) })
      tables).0
    ≡ ok imported
unfolding text_eq import_csv_file parse_trunk_csv csv_records one_of lookup strip lstrip is_space
    import_trunk_csv csv_rows upsert_imported create prepare validate_create_inputs validate_scope
    ensure_unique get_pbx get_condominium find_identity find_prefix all_digits violation
    identity_taken prefix_taken create_trunk update owned_trunk get_trunk count reject error_column
csv_run = refl

import_csv_file-total_example :
    (total imported ≡ length records)
    × (length imported.errors ≡ imported.rejected)
    × (length records ≤ max_csv_rows)
    × (90 ≤ max_csv_bytes)
import_csv_file-total_example =
    import_csv_file-total tools target 90 columns records tables imported csv_run

abbrev text_of : Json → Text
text_of (str t) = t
text_of _ = []

abbrev number_of : Json → Option ℕ
number_of (num n) = some n
number_of _ = none

abbrev plain : Conversions
plain = record {
  str_of = text_of;
  int_of = number_of;
  str_of_str = λ s. refl;
  int_of_num = λ n. refl;
}

abbrev entry : Json
entry = obj (
    field (codes "numero") (str (codes "101")) (
      field (codes "tecnologia") (str (codes "pjsip")) (
        field (codes "configuracoes")
          (obj (
            field (codes "autenticacao_e_rede")
              (obj (
                field (codes "porta") (num 7060) (
                  field (codes "nome_de_usuario_remoto") (str (codes "eva"))
                    (field (codes "segredo_remoto") (str (codes "pw")) end))))
              end))
          end)))

abbrev ramais : Fields
ramais = field (codes "ramais") (arr (cons entry nil)) end

abbrev document : Document plain
document = record { size = 300; value = some (obj ramais) }

abbrev names : Dict Text
names = (codes "101", codes "Sol") ∷ []

abbrev eva : TrunkRow
eva = record {
  line = 1;
  prefix = none;
  condominium_name = codes "Sol";
  auth_username = codes "eva";
  password = codes "pw";
  sip_profile = codes "internal-7060";
  condominium_id = none;
}

batch_run : parse_trunk_json_batch plain names 500 1000 document ≡ ok (eva ∷ [])
unfolding parse_trunk_json_batch open_document member text_eq parse_entries parse_entry lookup strip
    lstrip is_space normalize_trunk_entry
batch_run = refl

parse_trunk_json_batch-ok_example :
    (0 < 1)
    × (1 ≤ 500)
    × ((fs : Fields) × (entries : Items) × (document.value ≡ some (obj fs))
        × (member (codes "ramais") fs ≡ some (arr entries))
        × AreRowsOf plain names 1 entries (eva ∷ []))
parse_trunk_json_batch-ok_example =
    parse_trunk_json_batch-ok plain names 500 1000 document (eva ∷ []) batch_run

dry_run-keeps_example :
    ((f : CsvFile) → (import_csv_file tools target true f tables).1 ≡ tables)
    × ((name : Text) (id : Option Text) (d : Document plain)
        → (import_json_file tools target true plain name id d tables).1 ≡ tables)
    × ((names ids : Dict Text) (max_items : ℕ) (d : Document plain)
        → (import_batch_file tools target true plain names ids max_items d tables).1 ≡ tables)
dry_run-keeps_example = dry_run-keeps tools target plain tables
