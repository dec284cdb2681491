-- ===== src/Trunk/Import/Totals.antt =====
-- What the results of an import count, and when a batch writes nothing.
use zenith_voip.Prelude.{
  ℕ, ◌+◌, ◌≡◌, refl, false, List, [], ◌∷◌, ◌⊎◌, inl, inr, Text, length, length-append, All, some,
  is_empty, arith, Bool-cases, Option-cases,
}
use zenith_voip.Prelude.Dict.{Dict, lookup}
use zenith_voip.Prelude.Result.{ok, err, Result-cases}
use zenith_voip.Trunk.Db.{Db}
use zenith_voip.Trunk.Service.{Collaborators}
use zenith_voip.Trunk.Service.Upsert.{created, updated, Outcome, validate_importable}
use zenith_voip.Trunk.Import.{
  TrunkRow, row_of, ImportResult, Target, BatchError, service, condominium_missing, count, reject,
  error_column, caught, new_result, upsert_row, csv_rows, import_trunk_csv, any_missing,
  resolved_rows, validate_rows, batch_rows, import_trunk_json_batch,
}

abbrev pub total : ImportResult → ℕ
total r = r.created_rows + r.updated_rows + r.unchanged + r.rejected

total-count : (o : Outcome) (r : ImportResult) → total (count o r) ≡ total r + 1
unfolding count
total-count created r = omega arith
total-count updated r = omega arith

count-rejected : (o : Outcome) (r : ImportResult) → (count o r).rejected ≡ r.rejected
unfolding count
count-rejected created r = refl
count-rejected updated r = refl

count-errors : (o : Outcome) (r : ImportResult) → (count o r).errors ≡ r.errors
unfolding count
count-errors created r = refl
count-errors updated r = refl

csv_rows-total :
    (k : Collaborators) (to : Target) (rs : List TrunkRow) (r s : ImportResult) (db : Db)
    → (csv_rows k to rs r db).0 ≡ ok s
    → length r.errors ≡ r.rejected
    → (total s ≡ total r + length rs) × (length s.errors ≡ s.rejected)
unfolding csv_rows reject
csv_rows-total k to [] r s db h e = ground arith
csv_rows-total k to (x ∷ rs) r s db h e = elim (Result-cases (upsert_row k to x db).0) [
  | inl (o, u) ↦ ground (
    arith,
    u,
    total-count o r,
    count-rejected o r,
    count-errors o r,
    csv_rows-total k to rs (count o r) s (upsert_row k to x db).1,
  )
  | inr (f, u) ↦ elim (Option-cases (caught f)) [
    | inl c ↦ absurd (ground (arith, u, c))
    | inr (code, c) ↦ ground (
      arith,
      u,
      c,
      length-append r.errors
          (record { line = x.line; code = code; column = error_column code } ∷ []),
      csv_rows-total k to rs (reject x code r) s (upsert_row k to x db).1,
    )
  ]
]

-- A CSV import that returns has counted every row and every ignored line exactly once as created,
-- updated, unchanged or rejected, and lists as many errors as it rejected rows.
pub import_trunk_csv-total :
    (k : Collaborators) (to : Target) (rows : List TrunkRow) (ignored : ℕ) (db : Db)
    (s : ImportResult)
    → (import_trunk_csv k to false rows ignored db).0 ≡ ok s
    → (total s ≡ ignored + length rows) × (length s.errors ≡ s.rejected)
unfolding import_trunk_csv
import_trunk_csv-total k to rows ignored db s h =
    ground (arith, csv_rows-total k to rows (new_result false (length rows) ignored) s db h)

batch_rows-total :
    (k : Collaborators) (to : Target) (rs : List TrunkRow) (r s : ImportResult) (db : Db)
    → (batch_rows k to rs r db).0 ≡ ok s
    → (total s ≡ total r + length rs) × (s.rejected ≡ r.rejected)
unfolding batch_rows
batch_rows-total k to [] r s db h = ground arith
batch_rows-total k to (x ∷ rs) r s db h = elim (Result-cases (upsert_row k to x db).0) [
  | inl (o, u) ↦ ground (
    arith,
    u,
    total-count o r,
    count-rejected o r,
    batch_rows-total k to rs (count o r) s (upsert_row k to x db).1,
  )
  | inr (f, u) ↦ absurd (ground (arith, u))
]

length-resolved_rows :
    (ids : Dict Text) (rows : List TrunkRow) → length (resolved_rows ids rows) ≡ length rows
unfolding resolved_rows
length-resolved_rows ids [] = refl
length-resolved_rows ids (r ∷ rs) = omega (arith, length-resolved_rows ids rs)

-- The row has a condominium, and could be imported into it as the tables stand.
abbrev pub IsImportable : Collaborators → Target → Dict Text → Db → TrunkRow → Type 0
IsImportable k to ids db r =
    (id : Text) × (lookup r.condominium_name ids ≡ some id)
    × (is_empty id ≡ false)
    × (validate_importable k db to.tenant_id to.pbx_id
          (row_of (record r { condominium_id = some id }))
        ≡ ok tt)

validated :
    (k : Collaborators) (to : Target) (ids : Dict Text) (rows : List TrunkRow) (db : Db)
    → any_missing ids rows ≡ false
    → validate_rows k to (resolved_rows ids rows) db ≡ ok tt
    → All (IsImportable k to ids db) rows
unfolding any_missing validate_rows resolved_rows
validated k to ids [] db m v = tt
validated k to ids (r ∷ rs) db m v = elim (Option-cases (lookup r.condominium_name ids)) [
  | inl e ↦ absurd (ground (arith, e, m))
  | inr (id, e) ↦
      let q = row_of (record r { condominium_id = some id }) in
      elim (Result-cases (validate_importable k db to.tenant_id to.pbx_id q)) [
        | inr (x, f) ↦ absurd (ground (arith, e, f, v))
        | inl (tt, f) ↦
            let missing : any_missing ids rs ≡ false = ground (arith, e, m) in
            let valid : validate_rows k to (resolved_rows ids rs) db ≡ ok tt =
              ground (arith, e, f, v) in
            ((id, e, ground (arith, e, m), f), validated k to ids rs db missing valid)
      ]
]

-- A batch that is no dry run either raises and leaves the tables as they were, or the map has a
-- condominium for every one of its rows and every row passes, in that condominium, the validation
-- against the tables before the first write; and then, if it returns, it has counted every row and
-- rejected none.
pub import_trunk_json_batch-total :
    (k : Collaborators) (to : Target) (ids : Dict Text) (rows : List TrunkRow) (db : Db)
    → (((import_trunk_json_batch k to ids false rows db).1 ≡ db)
        × ((e : BatchError) × ((import_trunk_json_batch k to ids false rows db).0 ≡ err e)))
      ⊎ (All (IsImportable k to ids db) rows
          × ((s : ImportResult)
              → (import_trunk_json_batch k to ids false rows db).0 ≡ ok s
              → (total s ≡ length rows) × (s.rejected ≡ 0)))
unfolding import_trunk_json_batch
import_trunk_json_batch-total k to ids rows db = elim (Bool-cases (any_missing ids rows)) [
  | inl m ↦ inl (ground (arith, m), (condominium_missing, ground (arith, m)))
  | inr m ↦ elim (Result-cases (validate_rows k to (resolved_rows ids rows) db)) [
    | inr (e, v) ↦ inl (ground (arith, m, v), (service e, ground (arith, m, v)))
    | inl (tt, v) ↦ inr (
      validated k to ids rows db m v,
      λ s h. ground (
        arith,
        m,
        v,
        length-resolved_rows ids rows,
        batch_rows-total k to (resolved_rows ids rows) (new_result false (length rows) 0) s db,
      ),
    )
  ]
]
