-- ===== src/Prelude/Sorting.antt =====
-- Python's `sorted`, which is stable, by a test that tells what comes strictly before what.
use mathlib.Core.Path.{◌≡◌}
use mathlib.Core.Logic.{inl, inr}
use mathlib.Core.Bool.{Bool, true, false}
use mathlib.Core.List.{List, [], ◌∷◌, Perm}
use mathlib.Core.List.Perm
use zenith_voip.Prelude.Tests.{if◌then◌else◌, Bool-cases}
use zenith_voip.Prelude.Lists.{All}

module _ {A : Type 0} (before : A → A → Bool) where
  unfoldable pub insert_sorted : A → List A → List A
  insert_sorted x [] = x ∷ []
  insert_sorted x (y ∷ ys) =
      let rest = insert_sorted x ys in if before y x then y ∷ rest else x ∷ y ∷ ys

  unfoldable pub sorted : List A → List A
  unfolding insert_sorted
  sorted [] = []
  sorted (x ∷ xs) = insert_sorted x (sorted xs)

  -- Nothing that stands later comes before what stands earlier.
  abbrev pub Ordered : List A → Type 0
  Ordered [] = Unit
  Ordered (x ∷ xs) = All (λ y. before y x ≡ false) xs × Ordered xs

  pub insert_sorted-All {κ} :
      (P : A → Type κ) (x : A) (xs : List A) → P x → All P xs → All P (insert_sorted x xs)
  unfolding insert_sorted
  insert_sorted-All P x [] p ps = (p, tt)
  insert_sorted-All P x (y ∷ ys) p (q, qs) = elim (Bool-cases (before y x)) [
    | inl h ↦ rw (h, insert_sorted) (q, insert_sorted-All P x ys p qs)
    | inr h ↦ rw (h, insert_sorted) (p, (q, qs))
  ]

  pub sorted-All {κ} : (P : A → Type κ) (xs : List A) → All P xs → All P (sorted xs)
  unfolding sorted
  sorted-All P [] ps = tt
  sorted-All P (x ∷ xs) (p, ps) = insert_sorted-All P x (sorted xs) p (sorted-All P xs ps)

  insert_sorted-Perm : (x : A) (xs : List A) → Perm (insert_sorted x xs) (x ∷ xs)
  unfolding insert_sorted
  insert_sorted-Perm x [] = Perm.rfl
  insert_sorted-Perm x (y ∷ ys) = elim (Bool-cases (before y x)) [
    | inl h ↦
        rw (h, insert_sorted)
          (Perm.trans (Perm.cons y (insert_sorted-Perm x ys)) (Perm.swap x y ys))
    | inr h ↦ rw (h, insert_sorted) Perm.rfl
  ]

  pub sorted-Perm : (xs : List A) → Perm (sorted xs) xs
  unfolding sorted
  sorted-Perm [] = Perm.rfl
  sorted-Perm (x ∷ xs) =
      Perm.trans (insert_sorted-Perm x (sorted xs)) (Perm.cons x (sorted-Perm xs))

  module _ (asym : (x y : A) → before x y ≡ true → before y x ≡ false)
      (trans : (x y z : A) → before y x ≡ false → before z y ≡ false → before z x ≡ false) where
    above :
        (x y : A) (ys : List A)
        → before y x ≡ false
        → All (λ z. before z y ≡ false) ys
        → All (λ z. before z x ≡ false) ys
    above x y [] h ps = tt
    above x y (z ∷ ys) h (p, ps) = (trans x y z h p, above x y ys h ps)

    insert_sorted-Ordered : (x : A) (xs : List A) → Ordered xs → Ordered (insert_sorted x xs)
    unfolding insert_sorted
    insert_sorted-Ordered x [] o = (tt, tt)
    insert_sorted-Ordered x (y ∷ ys) (p, o) = elim (Bool-cases (before y x)) [
      | inl h ↦
          rw (h, insert_sorted)
            (
              insert_sorted-All (λ z. before z y ≡ false) x ys (asym y x h) p,
              insert_sorted-Ordered x ys o,
            )
      | inr h ↦ rw (h, insert_sorted) ((h, above x y ys h p), (p, o))
    ]

    pub sorted-Ordered : (xs : List A) → Ordered (sorted xs)
    unfolding sorted
    sorted-Ordered [] = tt
    sorted-Ordered (x ∷ xs) = insert_sorted-Ordered x (sorted xs) (sorted-Ordered xs)
