-- ===== src/Trunk/State/Reconcile/Registered.antt =====
-- After a reconciliation, the registered trunks are those that FreeSWITCH reports.
use zenith_voip.Prelude.{
  ℕ, ◌+◌, ◌≡◌, refl, ◌∙◌, Bool, true, false, ◌||◌, Option, none, some, List, [], ◌∷◌, Text, text_eq,
  text_eq_iff, is_some, arith, Bool-cases, Option-cases, inl, inr,
}
use zenith_voip.Trunk.Db.{registered, unregistered, unknown, Trunk, get_trunk}
use zenith_voip.Trunk.Service.{given}
use zenith_voip.Trunk.State.{
  State, resolve, find_enabled, set_registration_status, mark_registered_unknown, is_registered,
}
use zenith_voip.Trunk.State.Reconcile.{
  Esl, Registration, Tally, set_registered, reconcile_active_calls, reconcile,
}

-- The trunk with the id is stored as registered.
abbrev pub shown : Text → List Trunk → Bool
shown id ts = elim (get_trunk id ts) [ none ↦ false | some t ↦ is_registered t.registration_status ]

abbrev pub names : Text → Option Text → Bool
names id none = false
names id (some x) = text_eq x id

-- Some registration is that of the trunk.
unfoldable pub listed : List Trunk → List Registration → Text → Bool
listed ts [] id = false
listed ts (r ∷ rs) id = names id (resolve ts r.profile r.auth_username) || listed ts rs id

find_enabled-set :
    (now : ℕ) (p u id : Text) (ts : List Trunk)
    → find_enabled p u (set_registration_status now id registered ts) ≡ find_enabled p u ts
unfolding find_enabled set_registration_status
find_enabled-set now p u id [] = refl
find_enabled-set now p u id (t ∷ ts) = ground (arith, find_enabled-set now p u id ts)

find_enabled-mark :
    (p u : Text) (ts : List Trunk)
    → find_enabled p u (mark_registered_unknown ts).0 ≡ find_enabled p u ts
unfolding find_enabled mark_registered_unknown
find_enabled-mark p u [] = refl
find_enabled-mark p u (t ∷ ts) = ground (arith, find_enabled-mark p u ts)

resolve-set :
    (now : ℕ) (p u : Option Text) (id : Text) (ts : List Trunk)
    → resolve (set_registration_status now id registered ts) p u ≡ resolve ts p u
unfolding resolve
resolve-set now p u id ts = ground (arith, find_enabled-set now (given p []) (given u []) id ts)

resolve-mark :
    (p u : Option Text) (ts : List Trunk)
    → resolve (mark_registered_unknown ts).0 p u ≡ resolve ts p u
unfolding resolve
resolve-mark p u ts = ground (arith, find_enabled-mark (given p []) (given u []) ts)

listed-set :
    (now : ℕ) (id : Text) (ts : List Trunk) (rs : List Registration) (j : Text)
    → listed (set_registration_status now id registered ts) rs j ≡ listed ts rs j
unfolding listed
listed-set now id ts [] j = refl
listed-set now id ts (r ∷ rs) j =
    ground (arith, resolve-set now r.profile r.auth_username id ts, listed-set now id ts rs j)

listed-mark :
    (ts : List Trunk) (rs : List Registration) (j : Text)
    → listed (mark_registered_unknown ts).0 rs j ≡ listed ts rs j
unfolding listed
listed-mark ts [] j = refl
listed-mark ts (r ∷ rs) j =
    ground (arith, resolve-mark r.profile r.auth_username ts, listed-mark ts rs j)

is_some-set :
    (now : ℕ) (id j : Text) (ts : List Trunk)
    → is_some (get_trunk j (set_registration_status now id registered ts))
      ≡ is_some (get_trunk j ts)
unfolding get_trunk set_registration_status
is_some-set now id j [] = refl
is_some-set now id j (t ∷ ts) = ground (arith, is_some-set now id j ts)

shown-set :
    (now : ℕ) (id j : Text) (ts : List Trunk)
    → is_some (get_trunk j ts) ≡ true
    → shown j (set_registration_status now id registered ts) ≡ (text_eq id j || shown j ts)
unfolding get_trunk set_registration_status
shown-set now id j [] h = absurd (ground arith)
shown-set now id j (t ∷ ts) h =
    ground (arith, shown-set now id j ts, text_eq_iff t.id j, text_eq_iff t.id id, text_eq_iff id j)

shown-mark : (j : Text) (ts : List Trunk) → shown j (mark_registered_unknown ts).0 ≡ false
unfolding get_trunk mark_registered_unknown
shown-mark j [] = refl
shown-mark j (t ∷ ts) = elim (Bool-cases (text_eq t.id j)) [
  | inl e ↦
      elim t.registration_status
          as (λ s.
            s ≡ t.registration_status → shown j (mark_registered_unknown (t ∷ ts)).0 ≡ false) [
              | unknown ↦ λ s. ground (arith, e, s)
              | registered ↦ λ s. ground (arith, e, s)
              | unregistered ↦ λ s. ground (arith, e, s)
            ]
        refl
  | inr e ↦ ground (arith, e, shown-mark j ts)
]

is_some-mark :
    (j : Text) (ts : List Trunk)
    → is_some (get_trunk j (mark_registered_unknown ts).0) ≡ is_some (get_trunk j ts)
unfolding get_trunk mark_registered_unknown
is_some-mark j [] = refl
is_some-mark j (t ∷ ts) = ground (arith, is_some-mark j ts)

shown-set_registered :
    (now : ℕ) (rs : List Registration) (ts : List Trunk) (n : Tally) (j : Text)
    → is_some (get_trunk j ts) ≡ true
    → shown j (set_registered now rs ts n).0 ≡ (listed ts rs j || shown j ts)
unfolding set_registered listed
shown-set_registered now [] ts n j h = refl
shown-set_registered now (r ∷ rs) ts n j h =
    elim (Option-cases (resolve ts r.profile r.auth_username)) [
      | inl e ↦
          ground (arith, e, shown-set_registered now rs ts (record n { errors = n.errors + 1 }) j h)
      | inr (id, e) ↦
          let set = set_registration_status now id registered ts in
          ground (
            arith,
            e,
            shown-set now id j ts h,
            listed-set now id ts rs j,
            shown-set_registered now rs set (record n { registered_rows = n.registered_rows + 1 }) j
                (is_some-set now id j ts ∙ h),
          )
    ]

-- When FreeSWITCH answers with its registrations, a stored trunk is registered after a
-- reconciliation exactly if one of them resolves to it, whatever its status was before and whether
-- or not the channels are answered; when it does not answer, no stored trunk is registered and the
-- calls stay.
pub reconcile-registered :
    (now : ℕ) (esl : Esl) (st : State) (j : Text)
    → is_some (get_trunk j st.trunks) ≡ true
    → let after = (reconcile now esl st).0 in
      ((rs : List Registration)
        → esl.registrations ≡ some rs
        → shown j after.trunks ≡ listed st.trunks rs j)
      × (esl.registrations ≡ none → (shown j after.trunks ≡ false) × (after.calls ≡ st.calls))
unfolding reconcile reconcile_active_calls
reconcile-registered now esl st j h =
    let marked = mark_registered_unknown st.trunks in
    let n : Tally = record { unknown_rows = marked.1; registered_rows = 0; errors = 0 } in
    let mark = shown-mark j st.trunks in
    (
      λ rs r. ground (
        arith,
        r,
        mark,
        listed-mark st.trunks rs j,
        shown-set_registered now rs marked.0 n j (is_some-mark j st.trunks ∙ h),
      ),
      λ r. ground (arith, r, mark),
    )
