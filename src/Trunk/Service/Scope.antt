-- ===== src/Trunk/Service/Scope.antt =====
-- Tenants are kept apart: what the calls of one tenant cannot change.
use zenith_voip.Prelude.{
  ◌≡◌, ◌≢◌, refl, sym, ◌∙◌, some, List, [], ◌∷◌, ◌++◌, Text, text_eq_iff, arith, inl, inr,
  Option-cases,
}
use zenith_voip.Prelude.Result.{ok, Result-cases}
use zenith_voip.Trunk.Db.{
  Trunk, Db, get_trunk, create_trunk, replace_trunk, update_trunk, find_identity,
}
use zenith_voip.Trunk.Service.{
  Collaborators, NewTrunk, Changes, prepare, trunk_of, create, owned_trunk, changed_trunk,
  check_changes, update,
}
use zenith_voip.Trunk.Service.Upsert.{Row, changes_of_row, new_of_row, upsert_imported}

get-append :
    (id : Text) (t : Trunk) (ts : List Trunk) (u : Trunk)
    → get_trunk id ts ≡ some u
    → get_trunk id (ts ++ (t ∷ [])) ≡ some u
unfolding get_trunk
get-append id t [] u h = absurd (ground arith)
get-append id t (x ∷ ts) u h = ground (arith, get-append id t ts u)

get-replace_ne :
    (id : Text) (t : Trunk) (ts : List Trunk)
    → t.id ≢ id
    → get_trunk id (replace_trunk t ts) ≡ get_trunk id ts
unfolding get_trunk replace_trunk
get-replace_ne id t [] h = refl
get-replace_ne id t (x ∷ ts) h = ground (
  arith,
  get-replace_ne id t ts h,
  text_eq_iff x.id t.id,
  text_eq_iff x.id id,
  text_eq_iff t.id id,
)

pub create-others :
    (k : Collaborators) (id tenant pbx : Text) (n : NewTrunk) (db : Db) (j : Text) (u : Trunk)
    → get_trunk j db.trunks ≡ some u
    → get_trunk j (create k id tenant pbx n db).1.trunks ≡ some u
unfolding create create_trunk
create-others k id tenant pbx n db j u h = elim (Result-cases (prepare k db tenant pbx n)) [
  | inl (e, p) ↦ ground (arith, p, get-append j (trunk_of id tenant pbx n e) db.trunks u h)
  | inr (x, p) ↦ ground (arith, p, h)
]

pub owned_lem :
    (db : Db) (tenant trunk_id : Text) (t : Trunk)
    → owned_trunk db tenant trunk_id ≡ ok t
    → (get_trunk trunk_id db.trunks ≡ some t) × (t.tenant_id ≡ tenant)
unfolding owned_trunk
owned_lem db tenant trunk_id t h = elim (Option-cases (get_trunk trunk_id db.trunks)) [
  | inl e ↦ absurd (ground arith)
  | inr (u, e) ↦ ground (arith, text_eq_iff u.tenant_id tenant)
]

pub get-id : (id : Text) (ts : List Trunk) (t : Trunk) → get_trunk id ts ≡ some t → t.id ≡ id
unfolding get_trunk
get-id id [] t h = absurd (ground arith)
get-id id (x ∷ ts) t h = ground (arith, get-id id ts t, text_eq_iff x.id id)

same_row :
    (db : Db) (tenant i j : Text) (t u : Trunk)
    → get_trunk i db.trunks ≡ some t
    → t.tenant_id ≡ tenant
    → i ≡ j
    → get_trunk j db.trunks ≡ some u
    → u.tenant_id ≡ tenant
same_row db tenant i j t u found mine e h = ground arith

pub update-others :
    (k : Collaborators) (tenant trunk_id : Text) (c : Changes) (db : Db) (j : Text) (u : Trunk)
    → get_trunk j db.trunks ≡ some u
    → u.tenant_id ≢ tenant
    → get_trunk j (update k tenant trunk_id c db).1.trunks ≡ some u
unfolding update update_trunk
update-others k tenant trunk_id c db j u h ne =
    elim (Result-cases (owned_trunk db tenant trunk_id)) [
      | inl (t, o) ↦ elim (Result-cases (check_changes k db tenant t c)) [
        | inl (e, p) ↦
            let (found, mine) = owned_lem db tenant trunk_id t o in
            let tid = get-id trunk_id db.trunks t found in
            let apart : t.id ≢ j =
              λ same. ne (same_row db tenant trunk_id j t u found mine (sym tid ∙ same) h) in
            ground (arith, o, p, h, get-replace_ne j (changed_trunk t c e) db.trunks apart)
        | inr (x, p) ↦ ground (arith, o, p, h)
      ]
      | inr (x, o) ↦ ground (arith, o, h)
    ]

-- An import of a row in the name of one tenant leaves every trunk of another tenant as it was,
-- also when the row has the identity of that trunk.
pub upsert-others :
    (k : Collaborators) (id tenant pbx : Text) (r : Row) (db : Db) (j : Text) (u : Trunk)
    → get_trunk j db.trunks ≡ some u
    → u.tenant_id ≢ tenant
    → get_trunk j (upsert_imported k id tenant pbx r db).1.trunks ≡ some u
unfolding upsert_imported
upsert-others k id tenant pbx r db j u h ne =
    elim (Option-cases (find_identity r.sip_profile r.auth_username db.trunks)) [
      | inl e ↦ ground (arith, e, create-others k id tenant pbx (new_of_row r) db j u h)
      | inr (t, e) ↦ ground (arith, e, update-others k tenant t.id (changes_of_row r) db j u h ne)
    ]
