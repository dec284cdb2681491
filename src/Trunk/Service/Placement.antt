-- ===== src/Trunk/Service/Placement.antt =====
-- Every trunk stands in a PBX and a condominium of its tenant.
use zenith_voip.Prelude.{
  ◌≡◌, refl, true, false, Option, none, some, List, [], ◌∷◌, ◌++◌, ◌⊎◌, All, Text, text_eq,
  text_eq_iff, arith, inl, inr, Bool-cases, Option-cases, is_some,
}
use zenith_voip.Prelude.Result.{ok, Result-cases}
use zenith_voip.Text.Strip.{All-append}
use zenith_voip.Trunk.Db.{
  Trunk, Db, get_pbx, get_condominium, get_trunk, violation, create_trunk, replace_trunk,
  update_trunk, find_identity,
}
use zenith_voip.Trunk.Service.{
  Collaborators, NewTrunk, Changes, given, changed, pbx_in_tenant, condominium_in_scope,
  validate_scope, validate_create_inputs, prepare, trunk_of, create, owned_trunk, changed_trunk,
  check_changes, update,
}
use zenith_voip.Trunk.Service.Upsert.{Row, changes_of_row, new_of_row, upsert_imported}
use zenith_voip.Trunk.Service.Scope.{owned_lem}

-- The trunk stands in a PBX of its tenant and in a condominium of that tenant and PBX.
abbrev pub InScope : Db → Trunk → Type 0
InScope db t =
    (pbx_in_tenant t.tenant_id (get_pbx t.pbx_id db.pbxs) ≡ true)
    × (condominium_in_scope t.tenant_id t.pbx_id (get_condominium t.condominium_id db.condominiums)
        ≡ true)

abbrev pub AllInScope : Db → Type 0
AllInScope db = All (InScope db) db.trunks

validate_scope_lem :
    (db : Db) (tenant pbx condominium : Text)
    → validate_scope db tenant pbx condominium ≡ ok tt
    → (pbx_in_tenant tenant (get_pbx pbx db.pbxs) ≡ true)
      × (condominium_in_scope tenant pbx (get_condominium condominium db.condominiums) ≡ true)
unfolding validate_scope
validate_scope_lem db tenant pbx condominium h =
    elim (Bool-cases (pbx_in_tenant tenant (get_pbx pbx db.pbxs))) [
      | inl p ↦
          elim (Bool-cases
            (condominium_in_scope tenant pbx (get_condominium condominium db.condominiums))) [
              | inl c ↦ (p, c)
              | inr c ↦ absurd (ground arith)
            ]
      | inr p ↦ absurd (ground arith)
    ]

prepare_lem :
    (k : Collaborators) (db : Db) (tenant pbx : Text) (n : NewTrunk) (e : Text)
    → prepare k db tenant pbx n ≡ ok e
    → validate_scope db tenant pbx n.condominium_id ≡ ok tt
unfolding prepare validate_create_inputs
prepare_lem k db tenant pbx n e h =
    elim (Result-cases (validate_scope db tenant pbx n.condominium_id)) [
      | inl (tt, p) ↦ p
      | inr (x, p) ↦ absurd (ground arith)
    ]

create_lem :
    (k : Collaborators) (id tenant pbx : Text) (n : NewTrunk) (db : Db)
    → ((create k id tenant pbx n db).1 ≡ db)
      ⊎ ((e : Text) × (prepare k db tenant pbx n ≡ ok e)
          × ((create k id tenant pbx n db).1
              ≡ record db { trunks = db.trunks ++ (trunk_of id tenant pbx n e ∷ []) }))
unfolding create create_trunk
create_lem k id tenant pbx n db = elim (Result-cases (prepare k db tenant pbx n)) [
  | inl (e, p) ↦ elim (Option-cases (violation db (trunk_of id tenant pbx n e))) [
    | inl v ↦ inr (e, p, ground (arith, p, v))
    | inr (x, v) ↦ inl (ground (arith, p, v))
  ]
  | inr (x, p) ↦ inl (ground (arith, p))
]

create-AllInScope :
    (k : Collaborators) (id tenant pbx : Text) (n : NewTrunk) (db : Db)
    → AllInScope db
    → AllInScope (create k id tenant pbx n db).1
create-AllInScope k id tenant pbx n db h = elim (create_lem k id tenant pbx n db) [
  | inl e ↦ rw e h
  | inr (x, p, e) ↦ rw e (
      All-append (InScope db) db.trunks (trunk_of id tenant pbx n x ∷ []) h
        (validate_scope_lem db tenant pbx n.condominium_id (prepare_lem k db tenant pbx n x p), tt))
]

moves-scope :
    (k : Collaborators) (db : Db) (tenant : Text) (t : Trunk) (c : Changes) (e : Option Text)
    → check_changes k db tenant t c ≡ ok e
    → changed c.condominium_id t.condominium_id ≡ true
    → validate_scope db tenant t.pbx_id (given c.condominium_id t.condominium_id) ≡ ok tt
unfolding check_changes
moves-scope k db tenant t c e h moved =
    elim (Result-cases
      (validate_scope db tenant t.pbx_id (given c.condominium_id t.condominium_id))) [
        | inl (tt, p) ↦ p
        | inr (x, p) ↦ absurd (ground (arith, p, h, moved))
      ]

given_same : (c : Option Text) (old : Text) → changed c old ≡ false → given c old ≡ old
given_same none old h = refl
given_same (some a) old h = ground (arith, text_eq_iff a old)

check_changes_lem :
    (k : Collaborators) (db : Db) (tenant : Text) (t : Trunk) (c : Changes) (e : Option Text)
    → check_changes k db tenant t c ≡ ok e
    → InScope db t
    → t.tenant_id ≡ tenant
    → InScope db (changed_trunk t c e)
check_changes_lem k db tenant t c e h s mine =
    elim (Bool-cases (changed c.condominium_id t.condominium_id)) [
      | inl moved ↦ rw mine (
          validate_scope_lem db tenant t.pbx_id (given c.condominium_id t.condominium_id)
            (moves-scope k db tenant t c e h moved))
      | inr same ↦ rw (given_same c.condominium_id t.condominium_id same) s
    ]

replace-All {κ} :
    (P : Trunk → Type κ) (t : Trunk) (ts : List Trunk) → All P ts → P t → All P (replace_trunk t ts)
unfolding replace_trunk
replace-All P t [] h p = tt
replace-All P t (u ∷ us) h p = elim (Bool-cases (text_eq u.id t.id)) [
  | inl e ↦ rw e (p, h.1)
  | inr e ↦ rw e (h.0, replace-All P t us h.1 p)
]

get-All {κ} :
    (P : Trunk → Type κ) (id : Text) (ts : List Trunk) (t : Trunk)
    → All P ts
    → get_trunk id ts ≡ some t
    → P t
unfolding get_trunk
get-All P id [] t h g = absurd (ground arith)
get-All P id (u ∷ us) t h g = elim (Bool-cases (text_eq u.id id)) [
  | inl e ↦ let same : t ≡ u = ground arith in rw same h.0
  | inr e ↦ get-All P id us t h.1 (ground arith)
]

update_lem :
    (k : Collaborators) (tenant trunk_id : Text) (c : Changes) (db : Db)
    → ((update k tenant trunk_id c db).1 ≡ db)
      ⊎ ((t : Trunk) × (e : Option Text) × (owned_trunk db tenant trunk_id ≡ ok t)
          × (check_changes k db tenant t c ≡ ok e)
          × ((update k tenant trunk_id c db).1
              ≡ record db { trunks = replace_trunk (changed_trunk t c e) db.trunks }))
unfolding update update_trunk
update_lem k tenant trunk_id c db = elim (Result-cases (owned_trunk db tenant trunk_id)) [
  | inr (x, o) ↦ inl (ground (arith, o))
  | inl (t, o) ↦ elim (Result-cases (check_changes k db tenant t c)) [
    | inr (x, p) ↦ inl (ground (arith, o, p))
    | inl (e, p) ↦ elim (Bool-cases (is_some (get_trunk t.id db.trunks))) [
      | inr g ↦ inl (ground (arith, o, p, g))
      | inl g ↦ elim (Option-cases (violation db (changed_trunk t c e))) [
        | inl v ↦ inr (t, e, o, p, ground (arith, o, p, g, v))
        | inr (x, v) ↦ inl (ground (arith, o, p, g, v))
      ]
    ]
  ]
]

update-AllInScope :
    (k : Collaborators) (tenant trunk_id : Text) (c : Changes) (db : Db)
    → AllInScope db
    → AllInScope (update k tenant trunk_id c db).1
update-AllInScope k tenant trunk_id c db h = elim (update_lem k tenant trunk_id c db) [
  | inl e ↦ rw e h
  | inr (t, x, o, p, e) ↦
      let (found, mine) = owned_lem db tenant trunk_id t o in
      let here = get-All (InScope db) trunk_id db.trunks t h found in
      rw e (
        replace-All (InScope db) (changed_trunk t c x) db.trunks h
          (check_changes_lem k db tenant t c x p here mine))
]

upsert_lem :
    (k : Collaborators) (id tenant pbx : Text) (r : Row) (db : Db)
    → ((upsert_imported k id tenant pbx r db).1 ≡ (create k id tenant pbx (new_of_row r) db).1)
      ⊎ ((t : Trunk) × ((upsert_imported k id tenant pbx r db).1
            ≡ (update k tenant t.id (changes_of_row r) db).1))
unfolding upsert_imported
upsert_lem k id tenant pbx r db =
    elim (Option-cases (find_identity r.sip_profile r.auth_username db.trunks)) [
      | inl e ↦ inl (ground (arith, e))
      | inr (t, e) ↦ inr (t, ground (arith, e))
    ]

-- A creation, an update or an import row keeps every trunk in a PBX of its own tenant and in a
-- condominium of that tenant and PBX.
pub service-AllInScope :
    (k : Collaborators) (id tenant pbx trunk_id : Text) (n : NewTrunk) (c : Changes) (r : Row)
    (db : Db)
    → AllInScope db
    → AllInScope (create k id tenant pbx n db).1
      × AllInScope (update k tenant trunk_id c db).1
      × AllInScope (upsert_imported k id tenant pbx r db).1
service-AllInScope k id tenant pbx trunk_id n c r db h = (
  create-AllInScope k id tenant pbx n db h,
  update-AllInScope k tenant trunk_id c db h,
  elim (upsert_lem k id tenant pbx r db) [
    | inl e ↦ rw e (create-AllInScope k id tenant pbx (new_of_row r) db h)
    | inr (t, e) ↦ rw e (update-AllInScope k tenant t.id (changes_of_row r) db h)
  ],
)
