-- ===== src/Trunk/Import/Csv.antt =====
-- `parse_trunk_csv` (src/services/trunk_import.py) behind the records that `csv.DictReader` yields.
pub mod Accepted
use zenith_voip.Prelude.{
  ℕ, zero, suc, map, ◌+◌, ◌≡◌, Bool, true, false, not, ◌&&◌, ◌||◌, Option, none, some, List, [],
  ◌∷◌, Text, codes, text_eq, one_of, is_empty, ltb, ◌==◌, length, if◌then◌else◌,
}
use zenith_voip.Prelude.Dict.{Dict, lookup}
use zenith_voip.Prelude.Result.{Result, ok, err, ◌>>=◌, ◌>>◌, raise_if}
use zenith_voip.Prelude.Json.{
  Json, null, bool, num, other_num, str, arr, obj, Items, nil, cons, Fields, end, field, member,
}
use zenith_voip.Text.{strip, lower}
use zenith_voip.Trunk.Import.{TrunkRow}

-- The codes of `CSVSchemaError`.
pub data SchemaError : Type 0 where
  csv_too_large csv_encoding_invalid csv_schema_invalid csv_row_limit : SchemaError
  csv_row_invalid : SchemaError
  json_too_large json_invalid json_schema_invalid sip_configuration_invalid : SchemaError
  username_missing username_mismatch secret_missing credentials_mismatch : SchemaError
  too_many_items condominium_missing : SchemaError

-- A record of the reader: `raw.get(key)`, where a missing key and a missing value are both None.
abbrev pub Record : Type 0
Record = Text → Option Text

-- `value or default`
abbrev pub or_else : Option Text → Text → Text
or_else none d = d
or_else (some s) d = if is_empty s then d else s

-- `s.lower()`, as far as it is compared with words in ASCII that have no k
abbrev pub lower_text : Text → Text
lower_text = map lower

-- `s or None`
abbrev pub some_text : Text → Option Text
some_text s = if is_empty s then none else some s

abbrev pub technology_of : Record → Text
technology_of raw = lower_text (strip (or_else (raw (codes "technology")) []))

abbrev pub is_sip : Text → Bool
is_sip t = text_eq t (codes "sip") || text_eq t (codes "pjsip")

abbrev pub profile_of : Text → Text
profile_of t = if text_eq t (codes "pjsip") then codes "internal-7060" else codes "internal"

abbrev pub csv_row : ℕ → Record → TrunkRow
csv_row line raw = record {
  line = line;
  prefix =
      some_text (strip (or_else (raw (codes "prefix")) (or_else (raw (codes "extension")) [])));
  condominium_name =
      strip (or_else (raw (codes "condominium")) (or_else (raw (codes "ext_name")) []));
  auth_username = strip (or_else (raw (codes "device_user")) []);
  password = or_else (raw (codes "device_password")) [];
  sip_profile = profile_of (technology_of raw);
  condominium_id = some_text (strip (or_else (raw (codes "condominium_id")) []));
}

-- `ParsedTrunkCSV`
pub record Parsed : Type 0 where
  pub rows : List TrunkRow
  pub ignored : ℕ

abbrev pub ignore : Parsed → Parsed
ignore p = record p { ignored = p.ignored + 1 }

abbrev pub keep : TrunkRow → Parsed → Parsed
keep r p = record p { rows = r ∷ p.rows }

-- The loop of `parse_trunk_csv`, after so many records; `left` records may follow.
unfoldable pub csv_records : ℕ → ℕ → List Record → Result SchemaError Parsed
csv_records line left [] = ok (record { rows = []; ignored = 0 })
csv_records line left (raw ∷ raws) = elim left [
  | zero ↦ err csv_row_limit
  | suc n ↦
      let row = csv_row line raw in
      let rest = csv_records (line + 1) n raws in
      if not (is_sip (technology_of raw))
      then (rest >>= λ p. ok (ignore p))
      else if is_empty row.auth_username || is_empty row.password
      then err csv_row_invalid
      else (rest >>= λ p. ok (keep row p))
]

abbrev pub has_columns : List Text → Bool
has_columns names =
    one_of (codes "technology") names
    && one_of (codes "device_user") names
    && one_of (codes "device_password") names

-- A file: its size, and the names and records that the reader yields of it if it is UTF-8.
pub record CsvFile : Type 0 where
  pub size : ℕ
  pub content : Option (List Text × List Record)

unfoldable pub parse_trunk_csv : ℕ → ℕ → CsvFile → Result SchemaError Parsed
parse_trunk_csv max_rows max_bytes f =
    if ltb max_bytes f.size then err csv_too_large else elim f.content [
      | none ↦ err csv_encoding_invalid
      | some (names, raws) ↦
          if has_columns names then csv_records 2 max_rows raws else err csv_schema_invalid
    ]
