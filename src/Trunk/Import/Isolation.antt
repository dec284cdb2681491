-- ===== src/Trunk/Import/Isolation.antt =====
-- An import cannot touch another tenant's trunks, and keeps every trunk in its scope.
use zenith_voip.Prelude.{
  ℕ, length, ◌≡◌, ◌≢◌, Bool, true, false, some, List, [], ◌∷◌, inl, inr, Text, arith, Bool-cases,
  Option-cases,
}
use zenith_voip.Prelude.Dict.{Dict}
use zenith_voip.Prelude.Result.{Result-cases}
use zenith_voip.Trunk.Db.{Trunk, Db, get_trunk}
use zenith_voip.Trunk.Service.{Collaborators}
use zenith_voip.Trunk.Service.Scope.{upsert-others}
use zenith_voip.Trunk.Import.{
  TrunkRow, row_of, ImportResult, Target, count, reject, caught, new_result, upsert_row, csv_rows,
  import_trunk_csv, any_missing, resolved_rows, validate_rows, batch_rows, import_trunk_json_batch,
}

module _ (k : Collaborators) (to : Target) (j : Text) (u : Trunk)
    (ne : u.tenant_id ≢ to.tenant_id) where
  upsert_row-others :
      (r : TrunkRow) (db : Db)
      → get_trunk j db.trunks ≡ some u
      → get_trunk j (upsert_row k to r db).1.trunks ≡ some u
  upsert_row-others r db h =
      upsert-others k (to.new_id r.line) to.tenant_id to.pbx_id (row_of r) db j u h ne

  csv_rows-others :
      (rs : List TrunkRow) (res : ImportResult) (db : Db)
      → get_trunk j db.trunks ≡ some u
      → get_trunk j (csv_rows k to rs res db).1.trunks ≡ some u
  unfolding csv_rows
  csv_rows-others [] res db h = h
  csv_rows-others (r ∷ rs) res db h =
      let next = upsert_row-others r db h in
      elim (Result-cases (upsert_row k to r db).0) [
        | inl (o, x) ↦
            ground (arith, x, csv_rows-others rs (count o res) (upsert_row k to r db).1 next)
        | inr (e, x) ↦ elim (Option-cases (caught e)) [
          | inl c ↦ ground (arith, x, c, next)
          | inr (code, c) ↦
              ground
                (arith, x, c, csv_rows-others rs (reject r code res) (upsert_row k to r db).1 next)
        ]
      ]

  batch_rows-others :
      (rs : List TrunkRow) (res : ImportResult) (db : Db)
      → get_trunk j db.trunks ≡ some u
      → get_trunk j (batch_rows k to rs res db).1.trunks ≡ some u
  unfolding batch_rows
  batch_rows-others [] res db h = h
  batch_rows-others (r ∷ rs) res db h =
      let next = upsert_row-others r db h in
      elim (Result-cases (upsert_row k to r db).0) [
        | inl (o, x) ↦
            ground (arith, x, batch_rows-others rs (count o res) (upsert_row k to r db).1 next)
        | inr (e, x) ↦ ground (arith, x, next)
      ]

-- Whatever its rows, whether it is a dry run and however it ends, a CSV import or a JSON batch for
-- one tenant leaves every trunk of another tenant as it was.
pub imports-others :
    (k : Collaborators) (to : Target) (ids : Dict Text) (dry_run : Bool) (rows : List TrunkRow)
    (ignored : ℕ) (db : Db) (j : Text) (u : Trunk)
    → get_trunk j db.trunks ≡ some u
    → u.tenant_id ≢ to.tenant_id
    → (get_trunk j (import_trunk_csv k to dry_run rows ignored db).1.trunks ≡ some u)
      × (get_trunk j (import_trunk_json_batch k to ids dry_run rows db).1.trunks ≡ some u)
unfolding import_trunk_csv import_trunk_json_batch
imports-others k to ids true rows ignored db j u h ne = (h, h)
imports-others k to ids false rows ignored db j u h ne = (
  csv_rows-others k to j u ne rows (new_result false (length rows) ignored) db h,
  elim (Bool-cases (any_missing ids rows)) [
    | inl m ↦ ground (arith, m, h)
    | inr m ↦ elim (Result-cases (validate_rows k to (resolved_rows ids rows) db)) [
      | inr (e, v) ↦ ground (arith, m, v, h)
      | inl (tt, v) ↦ ground (
        arith,
        m,
        v,
        batch_rows-others k to j u ne (resolved_rows ids rows) (new_result false (length rows) 0) db
            h,
      )
    ]
  ],
)
