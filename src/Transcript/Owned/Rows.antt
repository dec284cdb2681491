-- ===== src/Transcript/Owned/Rows.antt =====
-- The rows of a call in the table of transcripts.
use zenith_voip.Prelude.{
  ◌≡◌, refl, List, [], ◌∷◌, Text, text_eq, text_eq_refl, arith, ap, if◌then◌else◌,
}
use zenith_voip.Transcript.Owned.{Row, delete_rows, rows_of, replace_rows}

-- The segments of a call in the table.
unfoldable pub select_rows : {S : Type 0} → Text → List (Row S) → List S
select_rows id [] = []
select_rows id ((k, s) ∷ rows) =
    let rest = select_rows id rows in if text_eq k id then s ∷ rest else rest

module _ {S : Type 0} (id : Text) where
  select_rows-rows_of : (ss : List S) → select_rows id (rows_of id ss) ≡ ss
  unfolding select_rows rows_of
  select_rows-rows_of [] = refl
  select_rows-rows_of (s ∷ ss) = rw (text_eq_refl id) (ap (λ r. s ∷ r) (select_rows-rows_of ss))

  delete_rows-rows_of : (ss : List S) → delete_rows id (rows_of id ss) ≡ []
  unfolding delete_rows rows_of
  delete_rows-rows_of [] = refl
  delete_rows-rows_of (s ∷ ss) = rw (text_eq_refl id) (delete_rows-rows_of ss)

  pub select_rows-replace_rows :
      (ss : List S) (rows : List (Row S)) → select_rows id (replace_rows id ss rows) ≡ ss
  unfolding select_rows replace_rows delete_rows
  select_rows-replace_rows ss [] = select_rows-rows_of ss
  select_rows-replace_rows ss ((k, s) ∷ rows) = ground (arith, select_rows-replace_rows ss rows)

  pub delete_rows-replace_rows :
      (ss : List S) (rows : List (Row S))
      → delete_rows id (replace_rows id ss rows) ≡ delete_rows id rows
  unfolding replace_rows delete_rows
  delete_rows-replace_rows ss [] = delete_rows-rows_of ss
  delete_rows-replace_rows ss ((k, s) ∷ rows) = ground (arith, delete_rows-replace_rows ss rows)
