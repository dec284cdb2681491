-- ===== src/Trunk/Import/Files.antt =====
-- The imports from the uploaded content on (`import_trunk_csv`, `import_trunk_json` and
-- `import_trunk_json_batch` of src/services/trunk_import.py).
mod Tests
use zenith_voip.Prelude.{
  ℕ, ◌+◌, ◌*◌, ◌≤◌, ◌≡◌, refl, ◌∙◌, Bool, true, false, Option, none, some, List, [], ◌∷◌, Text,
  is_empty, length, All, arith, Bool-cases, Option-cases, inl, inr, if◌then◌else◌,
}
use zenith_voip.Prelude.Dict.{Dict}
use zenith_voip.Prelude.Result.{Result, ok, err, Result-cases}
use zenith_voip.Trunk.Db.{Db}
use zenith_voip.Trunk.Service.{Error, Collaborators, given}
use zenith_voip.Trunk.Import.{
  TrunkRow, ImportResult, Target, BatchError, new_result, count, upsert_row, import_trunk_csv,
  import_trunk_json_batch,
}
use zenith_voip.Trunk.Import.Totals.{total, import_trunk_csv-total}
use zenith_voip.Trunk.Import.Parse.{Conversions, Document, parse_trunk_json, parse_trunk_json_batch}
use zenith_voip.Trunk.Import.Csv.{
  SchemaError, condominium_missing, CsvFile, Record, Parsed, parse_trunk_csv,
}
use zenith_voip.Trunk.Import.Csv.Accepted.{HasIdentity}
use zenith_voip.Trunk.Import.Csv.Accepted.{parse_trunk_csv-ok}

-- What an import raises: the refusal of its content, or an error of the rows' import.
pub data FileError (E : Type 0) : Type 0 where
  schema : SchemaError → FileError E
  rows_error : E → FileError E

abbrev pub of_rows : {E A : Type 0} → Result E A × Db → Result (FileError E) A × Db
of_rows (ok a, db) = (ok a, db)
of_rows (err e, db) = (err (rows_error e), db)

abbrev pub max_csv_rows : ℕ
max_csv_rows = 10_000

abbrev pub max_csv_bytes : ℕ
max_csv_bytes = 5 * 1024 * 1024

module _ (k : Collaborators) (to : Target) (dry_run : Bool) where
  unfoldable pub import_csv_file : CsvFile → Db → Result (FileError Error) ImportResult × Db
  import_csv_file f db = elim (parse_trunk_csv max_csv_rows max_csv_bytes f) [
    | err e ↦ (err (schema e), db)
    | ok p ↦ of_rows (import_trunk_csv k to dry_run p.rows p.ignored db)
  ]

  module _ (c : Conversions) where
    unfoldable pub import_json_file :
        Text → Option Text → Document c → Db → Result (FileError Error) ImportResult × Db
    import_json_file name condominium_id d db = elim (parse_trunk_json c name (256 * 1024) d) [
      | err e ↦ (err (schema e), db)
      | ok row ↦ elim dry_run [
        | true ↦ (ok (new_result true 1 0), db)
        | false ↦ elim (is_empty (given condominium_id [])) [
          | true ↦ (err (schema condominium_missing), db)
          | false ↦
              let (r, db') = upsert_row k to (record row { condominium_id = condominium_id }) db in
              (
                elim r [ ok o ↦ ok (count o (new_result false 1 0)) | err e ↦ err (rows_error e) ],
                db',
              )
        ]
      ]
    ]

    unfoldable pub import_batch_file :
        Dict Text
        → Dict Text
        → ℕ
        → Document c
        → Db
        → Result (FileError BatchError) ImportResult × Db
    import_batch_file names ids max_items d db =
        elim (parse_trunk_json_batch c names max_items (1024 * 1024) d) [
          | err e ↦ (err (schema e), db)
          | ok rows ↦ of_rows (import_trunk_json_batch k to ids dry_run rows db)
        ]

of_rows-ok : {E A : Type 0} (o : Result E A × Db) (a : A) → (of_rows o).0 ≡ ok a → o.0 ≡ ok a
of_rows-ok (ok b, db) a h = ground (arith, h)
of_rows-ok (err e, db) a h = absurd (ground (arith, h))

-- When the import of a CSV file returns, each record of the file has been counted exactly once as
-- created, updated, unchanged or rejected, as many errors are listed as rows were rejected, and the
-- file was within its limits of 10000 records and 5 MiB.
pub import_csv_file-total :
    (k : Collaborators) (to : Target) (size : ℕ) (names : List Text) (raws : List Record) (db : Db)
    (s : ImportResult)
    → (import_csv_file k to false (record { size = size; content = some (names, raws) }) db).0
      ≡ ok s
    → (total s ≡ length raws)
      × (length s.errors ≡ s.rejected)
      × (length raws ≤ max_csv_rows)
      × (size ≤ max_csv_bytes)
unfolding import_csv_file
import_csv_file-total k to size names raws db s h =
    let f : CsvFile = record { size = size; content = some (names, raws) } in
    elim (Result-cases (parse_trunk_csv max_csv_rows max_csv_bytes f)) [
      | inr (x, e) ↦ absurd (ground (arith, e, h))
      | inl (p, e) ↦
          let (ids, sum, few, fits) =
            parse_trunk_csv-ok max_csv_rows max_csv_bytes size names raws p e in
          let ran : (of_rows (import_trunk_csv k to false p.rows p.ignored db)).0 ≡ ok s =
            ground (arith, e, h) in
          let (whole, errors) =
            import_trunk_csv-total k to p.rows p.ignored db s (of_rows-ok _ s ran) in
          (omega (arith, whole, sum), errors, few, fits)
    ]

-- A dry run of any of the three imports changes nothing, whatever it answers.
pub dry_run-keeps :
    (k : Collaborators) (to : Target) (c : Conversions) (db : Db)
    → ((f : CsvFile) → (import_csv_file k to true f db).1 ≡ db)
      × ((name : Text) (id : Option Text) (d : Document c)
          → (import_json_file k to true c name id d db).1 ≡ db)
      × ((names ids : Dict Text) (max_items : ℕ) (d : Document c)
          → (import_batch_file k to true c names ids max_items d db).1 ≡ db)
unfolding import_csv_file import_json_file import_batch_file import_trunk_csv
    import_trunk_json_batch
dry_run-keeps k to c db = (
  λ f. elim (Result-cases (parse_trunk_csv max_csv_rows max_csv_bytes f)) [
    | inr (x, e) ↦ ground (arith, e)
    | inl (p, e) ↦ ground (arith, e)
  ],
  λ name id d. elim (Result-cases (parse_trunk_json c name (256 * 1024) d)) [
    | inr (x, e) ↦ ground (arith, e)
    | inl (p, e) ↦ ground (arith, e)
  ],
  λ names ids max_items d.
      elim (Result-cases (parse_trunk_json_batch c names max_items (1024 * 1024) d)) [
        | inr (x, e) ↦ ground (arith, e)
        | inl (p, e) ↦ ground (arith, e)
      ],
)
