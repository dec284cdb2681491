-- ===== src/Trunk/Import/Parse.antt =====
-- The JSON parsers of the imports (src/services/trunk_import.py): `parse_trunk_json` and
-- `parse_trunk_json_batch` behind `json.loads`.
pub mod Accepted
use zenith_voip.Prelude.{
  ℕ, zero, suc, map, ◌+◌, ◌≡◌, Bool, true, false, not, ◌&&◌, ◌||◌, Option, none, some, List, [],
  ◌∷◌, Text, codes, text_eq, one_of, is_empty, ltb, ◌==◌, length, if◌then◌else◌,
}
use zenith_voip.Prelude.Dict.{Dict, lookup}
use zenith_voip.Prelude.Result.{Result, ok, err, ◌>>=◌, ◌>>◌, raise_if}
use zenith_voip.Prelude.Json.{
  Json, null, bool, num, other_num, str, arr, obj, Items, nil, cons, Fields, end, field, member,
}
use zenith_voip.Text.{strip, lower}
use zenith_voip.Trunk.Import.{TrunkRow}
use zenith_voip.Trunk.Import.Csv.{
  SchemaError, condominium_missing, credentials_mismatch, json_invalid, json_schema_invalid,
  json_too_large, lower_text, or_else, secret_missing, sip_configuration_invalid, some_text,
  too_many_items, username_mismatch, username_missing,
}

-- The calls of Python on JSON values: `str`, and `int` with None for a TypeError, a ValueError or a
-- number below zero.
pub record Conversions : Type 0 where
  pub str_of : Json → Text
  pub int_of : Json → Option ℕ
  pub str_of_str : (s : Text) → str_of (str s) ≡ s
  pub int_of_num : (n : ℕ) → int_of (num n) ≡ some n

-- `bool(value)`
abbrev pub is_truthy : Json → Bool
is_truthy null = false
is_truthy (bool b) = b
is_truthy (num n) = not (n == 0)
is_truthy (other_num _) = true
is_truthy (str s) = not (is_empty s)
is_truthy (arr nil) = false
is_truthy (arr (cons _ _)) = true
is_truthy (obj end) = false
is_truthy (obj (field _ _ _)) = true

-- `isinstance(value, str) and value`
abbrev pub nonempty_text : Option Json → Option Text
nonempty_text (some (str s)) = some_text s
nonempty_text _ = none

-- `value in (None, "", secret)`
abbrev pub agrees : Option Json → Text → Bool
agrees none secret = true
agrees (some null) secret = true
agrees (some (str s)) secret = is_empty s || text_eq s secret
agrees (some _) secret = false

abbrev pub object_of : Option Json → Option Fields
object_of (some (obj fs)) = some fs
object_of _ = none

module _ (c : Conversions) where
  -- `str(value or "").strip()`
  abbrev pub text_of : Option Json → Text
  text_of none = []
  text_of (some v) = if is_truthy v then strip (c.str_of v) else []

  abbrev pub port_of : Fields → Option ℕ
  port_of connection = elim (member (codes "porta") connection) [
    | none ↦ none
    | some v ↦ c.int_of v
  ]

  abbrev pub is_pjsip_7060 : Option Json → Fields → Bool
  is_pjsip_7060 technology connection = elim (port_of connection) [
    | none ↦ false
    | some port ↦ text_eq (lower_text (text_of technology)) (codes "pjsip") && port == 7060
  ]

  abbrev pub entry_row : ℕ → Text → Text → Text → TrunkRow
  entry_row line condominium_name username secret = record {
    line = line;
    prefix = none;
    condominium_name = strip condominium_name;
    auth_username = username;
    password = secret;
    sip_profile = codes "internal-7060";
    condominium_id = none;
  }

  -- `_normalize_trunk_entry`
  unfoldable pub normalize_trunk_entry :
      Option Json → Fields → Text → ℕ → Result SchemaError TrunkRow
  normalize_trunk_entry technology connection condominium_name line =
      let remote = text_of (member (codes "nome_de_usuario_remoto") connection) in
      let outgoing = text_of (member (codes "nome_de_usuario_de_saida") connection) in
      if not (is_pjsip_7060 technology connection)
      then err sip_configuration_invalid
      else if is_empty remote
      then err username_missing
      else if not (is_empty outgoing) && not (text_eq outgoing remote)
      then err username_mismatch
      else elim (nonempty_text (member (codes "segredo_remoto") connection)) [
        | none ↦ err secret_missing
        | some secret ↦
            if agrees (member (codes "segredo_local") connection) secret
            then ok (entry_row line condominium_name remote secret)
            else err credentials_mismatch
      ]

  -- A document: its size, and the value of `json.loads` if it is UTF-8 and JSON.
  pub record Document : Type 0 where
    pub size : ℕ
    pub value : Option Json

  -- The parts of `parse_trunk_json` before the entry.
  unfoldable pub open_document : ℕ → Document → Result SchemaError Fields
  open_document max_bytes d = if ltb max_bytes d.size then err json_too_large else elim d.value [
    | none ↦ err json_invalid
    | some v ↦ elim (object_of (some v)) [ none ↦ err json_schema_invalid | some fs ↦ ok fs ]
  ]

  unfoldable pub parse_trunk_json : Text → ℕ → Document → Result SchemaError TrunkRow
  parse_trunk_json condominium_name max_bytes d = open_document max_bytes d >>= λ fs.
      if is_empty (strip condominium_name)
      then err json_schema_invalid
      else elim (object_of (member (codes "configuracoes_gerais") fs)) [
        | none ↦ err json_schema_invalid
        | some general ↦ elim (object_of (member (codes "general_configurations") fs)) [
          | none ↦ err json_schema_invalid
          | some connection ↦
              normalize_trunk_entry (member (codes "tecnologia") general) connection
                condominium_name 1
        ]
      ]

  -- `settings.get("autenticacao_e_rede") if isinstance(settings, dict) else None`, if it is an object
  abbrev pub connection_of : Fields → Option Fields
  connection_of entry = elim (object_of (member (codes "configuracoes") entry)) [
    | none ↦ none
    | some settings ↦ object_of (member (codes "autenticacao_e_rede") settings)
  ]

  -- The condominium that the map names for the entry's number.
  abbrev pub condominium_of : Dict Text → Fields → Text
  condominium_of names entry =
      let number = text_of (member (codes "numero") entry) in
      if is_empty number then [] else strip (or_else (lookup number names) [])

  unfoldable pub parse_entry : Dict Text → ℕ → Json → Result SchemaError TrunkRow
  parse_entry names line v = elim (object_of (some v)) [
    | none ↦ err json_schema_invalid
    | some entry ↦ elim (connection_of entry) [
      | none ↦ err json_schema_invalid
      | some connection ↦
          if is_empty (condominium_of names entry)
          then err condominium_missing
          else normalize_trunk_entry (member (codes "tecnologia") entry) connection
              (condominium_of names entry) line
    ]
  ]

  unfoldable pub parse_entries : Dict Text → ℕ → Items → Result SchemaError (List TrunkRow)
  parse_entries names line nil = ok []
  parse_entries names line (cons v vs) =
      let rest = parse_entries names (line + 1) vs in
      parse_entry names line v >>= λ row. rest >>= λ rows. ok (row ∷ rows)

  abbrev pub count_items : Items → ℕ
  count_items nil = 0
  count_items (cons v vs) = suc (count_items vs)

  abbrev pub items_of : Option Json → Items
  items_of (some (arr vs)) = vs
  items_of _ = nil

  unfoldable pub parse_trunk_json_batch :
      Dict Text → ℕ → ℕ → Document → Result SchemaError (List TrunkRow)
  parse_trunk_json_batch names max_items max_bytes d = open_document max_bytes d >>= λ fs.
      let entries = items_of (member (codes "ramais") fs) in
      if count_items entries == 0
      then err json_schema_invalid
      else if ltb max_items (count_items entries)
      then err too_many_items
      else parse_entries names 1 entries
