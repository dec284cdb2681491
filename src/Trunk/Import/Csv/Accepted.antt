-- ===== src/Trunk/Import/Csv/Accepted.antt =====
-- What the parser of a CSV file lets through.
use zenith_voip.Prelude.{
  ℕ, zero, suc, ◌+◌, ◌≤◌, ◌≡◌, refl, Bool, false, ◌||◌, some, List, [], ◌∷◌, Text, is_empty, ltb,
  length, All, arith, Bool-cases, inl, inr,
}
use zenith_voip.Prelude.Result.{ok, Result-cases}
use zenith_voip.Trunk.Import.{TrunkRow}
use zenith_voip.Trunk.Import.Csv.{
  Record, technology_of, is_sip, csv_row, Parsed, ignore, keep, csv_records, has_columns,
  parse_trunk_csv,
}

-- A row that has what an identity needs.
pub record HasIdentity (r : TrunkRow) : Type 0 where
  pub username : is_empty r.auth_username ≡ false
  pub secret : is_empty r.password ≡ false

pub or_false : (a b : Bool) → (a || b) ≡ false → (a ≡ false) × (b ≡ false)
or_false a b h = ground (arith, h)

csv_records_lem :
    (line left : ℕ) (raws : List Record) (p : Parsed)
    → csv_records line left raws ≡ ok p
    → All HasIdentity p.rows × (length p.rows + p.ignored ≡ length raws) × (length raws ≤ left)
unfolding csv_records
csv_records_lem line left [] p h =
    let whole : record { rows = []; ignored = 0 } ≡ p = ground (arith, h) in
    rw (← whole) (tt, refl, omega arith)
csv_records_lem line zero (raw ∷ raws) p h = absurd (ground (arith, h))
csv_records_lem line (suc n) (raw ∷ raws) p h =
    let row = csv_row line raw in
    elim (Bool-cases (is_sip (technology_of raw))) [
      | inr s ↦ elim (Result-cases (csv_records (line + 1) n raws)) [
        | inr (x, e) ↦ absurd (ground (arith, s, e, h))
        | inl (q, e) ↦
            let (ids, total, fits) = csv_records_lem (line + 1) n raws q e in
            let whole : ignore q ≡ p = ground (arith, s, e, h) in
            rw (← whole) (ids, omega (arith, total), omega (arith, fits))
      ]
      | inl s ↦ elim (Bool-cases (is_empty row.auth_username || is_empty row.password)) [
        | inl bad ↦ absurd (ground (arith, s, bad, h))
        | inr good ↦ elim (Result-cases (csv_records (line + 1) n raws)) [
          | inr (x, e) ↦ absurd (ground (arith, s, good, e, h))
          | inl (q, e) ↦
              let (ids, total, fits) = csv_records_lem (line + 1) n raws q e in
              let whole : keep row q ≡ p = ground (arith, s, good, e, h) in
              let (name, secret) =
                or_false (is_empty row.auth_username) (is_empty row.password) good in
              let id : HasIdentity row = record { username = name; secret = secret } in
              rw (← whole) ((id, ids), omega (arith, total), omega (arith, fits))
        ]
      ]
    ]

-- When the CSV is accepted, every row has a username and a password, rows and ignored records are
-- together the records of the file, and these are no more than the limit.
pub parse_trunk_csv-ok :
    (max_rows max_bytes size : ℕ) (names : List Text) (raws : List Record) (p : Parsed)
    → parse_trunk_csv max_rows max_bytes (record { size = size; content = some (names, raws) })
      ≡ ok p
    → All HasIdentity p.rows
      × (length p.rows + p.ignored ≡ length raws)
      × (length raws ≤ max_rows)
      × (size ≤ max_bytes)
unfolding parse_trunk_csv
parse_trunk_csv-ok max_rows max_bytes size names raws p h = elim (Bool-cases (ltb max_bytes size)) [
  | inl big ↦ absurd (ground (arith, big, h))
  | inr fits ↦ elim (Bool-cases (has_columns names)) [
    | inr c ↦ absurd (ground (arith, fits, c, h))
    | inl c ↦
        let (ids, total, few) = csv_records_lem 2 max_rows raws p (ground (arith, fits, c, h)) in
        (ids, total, few, ground (arith, fits))
  ]
]
