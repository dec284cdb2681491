-- ===== src/Text/Strip.antt =====
-- `strip` leaves a text alone that has no white space.
use zenith_voip.Prelude.{◌≡◌, refl, false, List, [], ◌∷◌, ◌++◌, All, Text}
use mathlib.Core.List.{reverse, reverse-append, reverse-reverse}
use zenith_voip.Text.{is_space, lstrip, strip}

abbrev pub NoSpace : Text → Type 0
NoSpace = All (λ c. is_space c ≡ false)

lstrip-NoSpace : (s : Text) → NoSpace s → lstrip s ≡ s
unfolding lstrip
lstrip-NoSpace [] h = refl
lstrip-NoSpace (c ∷ s) h = rw h.0

pub All-append {ℓ κ} :
    {A : Type ℓ} (P : A → Type κ) (xs ys : List A) → All P xs → All P ys → All P (xs ++ ys)
All-append P [] ys hx hy = hy
All-append P (x ∷ xs) ys hx hy = (hx.0, All-append P xs ys hx.1 hy)

All-reverse {ℓ κ} : {A : Type ℓ} (P : A → Type κ) (xs : List A) → All P xs → All P (reverse xs)
All-reverse P [] h = h
All-reverse P (x ∷ xs) h =
    rw (reverse-append (x ∷ []) xs)
      (All-append P (reverse xs) (x ∷ []) (All-reverse P xs h.1) (h.0, tt))

pub strip-NoSpace : (s : Text) → NoSpace s → strip s ≡ s
strip-NoSpace s h =
    unfold strip in
    rw (lstrip-NoSpace s h, lstrip-NoSpace (reverse s) (All-reverse _ s h), reverse-reverse s)
