-- ===== src/Trunk/Import/Parse/Accepted.antt =====
-- What the JSON parsers let through.
use zenith_voip.Prelude.{
  ℕ, suc, ◌+◌, ◌≤◌, ◌<◌, ◌≡◌, refl, false, not, ◌&&◌, ◌==◌, Option, none, some, List, [], ◌∷◌, Text,
  codes, text_eq, is_empty, ltb, length, arith, Bool-cases, Option-cases, inl, inr, ap, ◌∙◌,
}
use zenith_voip.Prelude.Dict.{Dict}
use zenith_voip.Prelude.Result.{ok, Result-cases}
use zenith_voip.Prelude.Json.{
  Json, null, bool, num, other_num, str, arr, obj, Items, nil, cons, Fields, member,
}
use zenith_voip.Text.{strip}
use zenith_voip.Trunk.Import.{TrunkRow}
use zenith_voip.Trunk.Import.Parse.{
  Conversions, nonempty_text, agrees, object_of, text_of, is_pjsip_7060, entry_row,
  normalize_trunk_entry, Document, open_document, connection_of, condominium_of, parse_entry,
  parse_entries, count_items, items_of, parse_trunk_json_batch,
}
use zenith_voip.Trunk.Import.Csv.Accepted.{HasIdentity}

module _ (c : Conversions) where
  -- A row of the JSON imports, on its line, from the settings of a connection and the name of a
  -- condominium.
  pub record IsJsonRow (connection : Fields) (name : Text) (line : ℕ) (r : TrunkRow) : Type 0 where
    pub from_remote :
        r.auth_username ≡ text_of c (member (codes "nome_de_usuario_remoto") connection)
    pub from_secret : member (codes "segredo_remoto") connection ≡ some (str r.password)
    pub in_condominium : r.condominium_name ≡ strip name
    pub on_line : r.line ≡ line
    pub no_prefix : r.prefix ≡ none
    pub profile : r.sip_profile ≡ codes "internal-7060"
    pub identity : HasIdentity r

  -- A row and the entry that it comes from, with the condominium that the map has for its number.
  abbrev pub IsRowOf : Dict Text → ℕ → Json → TrunkRow → Type 0
  IsRowOf names line v r =
      (entry : Fields) × (settings : Fields) × (connection : Fields) × (v ≡ obj entry)
      × (member (codes "configuracoes") entry ≡ some (obj settings))
      × (member (codes "autenticacao_e_rede") settings ≡ some (obj connection))
      × IsJsonRow connection (condominium_of c names entry) line r

  -- One row for each entry, in their order.
  abbrev pub AreRowsOf : Dict Text → ℕ → Items → List TrunkRow → Type 0
  AreRowsOf names line nil [] = Unit
  AreRowsOf names line (cons v vs) (r ∷ rs) =
      IsRowOf names line v r × AreRowsOf names (line + 1) vs rs
  AreRowsOf names line _ _ = ⊥

  nonempty_text_lem :
      (o : Option Json) (s : Text)
      → nonempty_text o ≡ some s
      → (is_empty s ≡ false) × (o ≡ some (str s))
  nonempty_text_lem (some (str [])) s h = absurd (ground (arith, h))
  nonempty_text_lem (some (str (d ∷ t))) s h =
      let e : d ∷ t ≡ s = ground (arith, h) in rw (← e) (refl, refl)
  nonempty_text_lem none s h = absurd (ground (arith, h))
  nonempty_text_lem (some null) s h = absurd (ground (arith, h))
  nonempty_text_lem (some (bool _)) s h = absurd (ground (arith, h))
  nonempty_text_lem (some (num _)) s h = absurd (ground (arith, h))
  nonempty_text_lem (some (other_num _)) s h = absurd (ground (arith, h))
  nonempty_text_lem (some (arr _)) s h = absurd (ground (arith, h))
  nonempty_text_lem (some (obj _)) s h = absurd (ground (arith, h))

  accepted :
      (connection : Fields) (line : ℕ) (name secret : Text)
      → let remote = text_of c (member (codes "nome_de_usuario_remoto") connection) in
        is_empty remote ≡ false
        → is_empty secret ≡ false
        → member (codes "segredo_remoto") connection ≡ some (str secret)
        → IsJsonRow connection name line (entry_row c line name remote secret)
  accepted connection line name secret h k m = record {
    from_remote = refl;
    from_secret = m;
    in_condominium = refl;
    on_line = refl;
    no_prefix = refl;
    profile = refl;
    identity = record { username = h; secret = k };
  }

  normalize_trunk_entry-IsJsonRow :
      (technology : Option Json) (connection : Fields) (name : Text) (line : ℕ) (r : TrunkRow)
      → normalize_trunk_entry c technology connection name line ≡ ok r
      → IsJsonRow connection name line r
  unfolding normalize_trunk_entry
  normalize_trunk_entry-IsJsonRow technology connection name line r h =
      let remote = text_of c (member (codes "nome_de_usuario_remoto") connection) in
      let outgoing = text_of c (member (codes "nome_de_usuario_de_saida") connection) in
      elim (Bool-cases (is_pjsip_7060 c technology connection)) [
        | inr a ↦ absurd (ground (arith, a, h))
        | inl a ↦ elim (Bool-cases (is_empty remote)) [
          | inl b ↦ absurd (ground (arith, a, b, h))
          | inr b ↦ elim (Bool-cases (not (is_empty outgoing) && not (text_eq outgoing remote))) [
            | inl d ↦ absurd (ground (arith, a, b, d, h))
            | inr d ↦
                elim (Option-cases (nonempty_text (member (codes "segredo_remoto") connection))) [
                  | inl e ↦ absurd (ground (arith, a, b, d, e, h))
                  | inr (secret, e) ↦
                      elim (Bool-cases
                        (agrees (member (codes "segredo_local") connection) secret)) [
                          | inr f ↦ absurd (ground (arith, a, b, d, e, f, h))
                          | inl f ↦
                              let whole : entry_row c line name remote secret ≡ r =
                                ground (arith, a, b, d, e, f, h) in
                              let (k, m) = nonempty_text_lem _ secret e in
                              rw (← whole) (accepted connection line name secret b k m)
                        ]
                ]
          ]
        ]
      ]

  object_of_lem : (v : Json) (fs : Fields) → object_of (some v) ≡ some fs → v ≡ obj fs
  object_of_lem (obj gs) fs h = ground (arith, h)
  object_of_lem null fs h = absurd (ground (arith, h))
  object_of_lem (bool _) fs h = absurd (ground (arith, h))
  object_of_lem (num _) fs h = absurd (ground (arith, h))
  object_of_lem (other_num _) fs h = absurd (ground (arith, h))
  object_of_lem (str _) fs h = absurd (ground (arith, h))
  object_of_lem (arr _) fs h = absurd (ground (arith, h))

  open_document_lem :
      (max_bytes : ℕ) (d : Document c) (fs : Fields)
      → open_document c max_bytes d ≡ ok fs
      → d.value ≡ some (obj fs)
  unfolding open_document
  open_document_lem max_bytes d fs h = elim (Bool-cases (ltb max_bytes d.size)) [
    | inl a ↦ absurd (ground (arith, a, h))
    | inr a ↦ elim (Option-cases d.value) [
      | inl b ↦ absurd (ground (arith, a, b, h))
      | inr (v, b) ↦ elim (Option-cases (object_of (some v))) [
        | inl e ↦ absurd (ground (arith, a, b, e, h))
        | inr (gs, e) ↦
            let same : gs ≡ fs = ground (arith, a, b, e, h) in
            rw (← same) (b ∙ ap some (object_of_lem v gs e))
      ]
    ]
  ]

  connection_of_lem :
      (entry connection : Fields)
      → connection_of c entry ≡ some connection
      → (settings : Fields) × (member (codes "configuracoes") entry ≡ some (obj settings))
        × (member (codes "autenticacao_e_rede") settings ≡ some (obj connection))
  connection_of_lem entry connection h =
      elim (Option-cases (member (codes "configuracoes") entry)) [
        | inl a ↦ absurd (ground (arith, a, h))
        | inr (v, a) ↦ elim (Option-cases (object_of (some v))) [
          | inl b ↦ absurd (ground (arith, a, b, h))
          | inr (settings, b) ↦
              elim (Option-cases (member (codes "autenticacao_e_rede") settings)) [
                | inl d ↦ absurd (ground (arith, a, b, d, h))
                | inr (w, d) ↦
                    let e : object_of (some w) ≡ some connection = ground (arith, a, b, d, h) in
                    (
                      settings,
                      a ∙ ap some (object_of_lem v settings b),
                      d ∙ ap some (object_of_lem w connection e),
                    )
              ]
        ]
      ]

  parse_entry-IsRowOf :
      (names : Dict Text) (line : ℕ) (v : Json) (r : TrunkRow)
      → parse_entry c names line v ≡ ok r
      → IsRowOf names line v r
  unfolding parse_entry
  parse_entry-IsRowOf names line v r h = elim (Option-cases (object_of (some v))) [
    | inl a ↦ absurd (ground (arith, a, h))
    | inr (entry, a) ↦ elim (Option-cases (connection_of c entry)) [
      | inl b ↦ absurd (ground (arith, a, b, h))
      | inr (connection, b) ↦ elim (Bool-cases (is_empty (condominium_of c names entry))) [
        | inl d ↦ absurd (ground (arith, a, b, d, h))
        | inr d ↦
            let (settings, s, t) = connection_of_lem entry connection b in
            let row =
              normalize_trunk_entry-IsJsonRow (member (codes "tecnologia") entry) connection
                (condominium_of c names entry) line r (ground (arith, a, b, d, h)) in
            (entry, settings, connection, object_of_lem v entry a, s, t, row)
      ]
    ]
  ]

  parse_entries_lem :
      (names : Dict Text) (line : ℕ) (vs : Items) (rows : List TrunkRow)
      → parse_entries c names line vs ≡ ok rows
      → AreRowsOf names line vs rows × (length rows ≡ count_items c vs)
  unfolding parse_entries
  parse_entries_lem names line nil rows h =
      let whole : [] ≡ rows = ground (arith, h) in rw (← whole) (tt, refl)
  parse_entries_lem names line (cons v vs) rows h =
      elim (Result-cases (parse_entry c names line v)) [
        | inr (x, e) ↦ absurd (ground (arith, e, h))
        | inl (r, e) ↦ elim (Result-cases (parse_entries c names (line + 1) vs)) [
          | inr (x, f) ↦ absurd (ground (arith, e, f, h))
          | inl (rs, f) ↦
              let (numbered, count) = parse_entries_lem names (line + 1) vs rs f in
              let whole : r ∷ rs ≡ rows = ground (arith, e, f, h) in
              rw (← whole) ((parse_entry-IsRowOf names line v r e, numbered), ap suc count)
        ]
      ]

  items_of_lem :
      (o : Option Json)
      → (count_items c (items_of c o) == 0) ≡ false
      → o ≡ some (arr (items_of c o))
  items_of_lem (some (arr vs)) h = refl
  items_of_lem none h = absurd (ground (arith, h))
  items_of_lem (some null) h = absurd (ground (arith, h))
  items_of_lem (some (bool _)) h = absurd (ground (arith, h))
  items_of_lem (some (num _)) h = absurd (ground (arith, h))
  items_of_lem (some (other_num _)) h = absurd (ground (arith, h))
  items_of_lem (some (str _)) h = absurd (ground (arith, h))
  items_of_lem (some (obj _)) h = absurd (ground (arith, h))

  -- When a batch is accepted, it gives one row for each entry in their order, at least one and at most
  -- the limit, numbered from 1; each entry is an object with a connection, and its row has the remote
  -- username and the remote secret of that connection, neither of them empty, the condominium of the
  -- entry's number, no prefix and the profile internal-7060.
  pub parse_trunk_json_batch-ok :
      (names : Dict Text) (max_items max_bytes : ℕ) (d : Document c) (rows : List TrunkRow)
      → parse_trunk_json_batch c names max_items max_bytes d ≡ ok rows
      → (0 < length rows)
        × (length rows ≤ max_items)
        × ((fs : Fields) × (entries : Items) × (d.value ≡ some (obj fs))
            × (member (codes "ramais") fs ≡ some (arr entries))
            × AreRowsOf names 1 entries rows)
  unfolding parse_trunk_json_batch
  parse_trunk_json_batch-ok names max_items max_bytes d rows h =
      elim (Result-cases (open_document c max_bytes d)) [
        | inr (x, e) ↦ absurd (ground (arith, e, h))
        | inl (fs, e) ↦
            let entries = items_of c (member (codes "ramais") fs) in
            elim (Bool-cases (count_items c entries == 0)) [
              | inl none_there ↦ absurd (ground (arith, e, none_there, h))
              | inr some_there ↦ elim (Bool-cases (ltb max_items (count_items c entries))) [
                | inl many ↦ absurd (ground (arith, e, some_there, many, h))
                | inr few ↦
                    let (numbered, count) =
                      parse_entries_lem names 1 entries rows
                        (ground (arith, e, some_there, few, h)) in
                    (
                      ground (arith, count, some_there),
                      ground (arith, count, few),
                      (
                        fs,
                        entries,
                        open_document_lem max_bytes d fs e,
                        items_of_lem (member (codes "ramais") fs) some_there,
                        numbered,
                      ),
                    )
              ]
            ]
      ]
