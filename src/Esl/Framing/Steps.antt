-- ===== src/Esl/Framing/Steps.antt =====
-- One round of the loop: it shortens the buffer, and more bytes behind the buffer do not change it.
use zenith_voip.Prelude.{
  ℕ, zero, suc, ◌+◌, ◌≤◌, ◌<◌, ◌≡◌, refl, false, some, [], ◌∷◌, ◌++◌, Text, ltb, ◌==◌, length,
  length-append, take, drop, ap, ◌&&◌, arith, Bool-cases, Option-cases, inl, inr,
}
use zenith_voip.Prelude.Result.{ok, err, Result-cases}
use zenith_voip.Esl.Framing.{newline, find_blank, lines, content_length, Error, take_frame}

find_blank-append :
    (s more h r : Text) → find_blank s ≡ some (h, r) → find_blank (s ++ more) ≡ some (h, r ++ more)
unfolding find_blank
find_blank-append [] more h r e = absurd (ground arith)
find_blank-append (a ∷ []) more h r e = absurd (ground arith)
find_blank-append (a ∷ b ∷ s) more h r e = elim (Bool-cases (a == newline && b == newline)) [
  | inl y ↦ ground (arith, y, e)
  | inr y ↦ elim (Option-cases (find_blank (b ∷ s))) [
    | inl f ↦ absurd (ground (arith, y, f, e))
    | inr ((h', r'), f) ↦ ground (arith, y, f, e, find_blank-append (b ∷ s) more h' r' f)
  ]
]

find_blank-shorter : (s h r : Text) → find_blank s ≡ some (h, r) → length r + 2 ≤ length s
unfolding find_blank
find_blank-shorter [] h r e = absurd (ground arith)
find_blank-shorter (a ∷ []) h r e = absurd (ground arith)
find_blank-shorter (a ∷ b ∷ s) h r e = elim (Bool-cases (a == newline && b == newline)) [
  | inl y ↦ ground (arith, y, e)
  | inr y ↦ elim (Option-cases (find_blank (b ∷ s))) [
    | inl f ↦ absurd (ground (arith, y, f, e))
    | inr ((h', r'), f) ↦ ground (arith, y, f, e, find_blank-shorter (b ∷ s) h' r' f)
  ]
]

take-append : (n : ℕ) (s more : Text) → n ≤ length s → take n (s ++ more) ≡ take n s
take-append zero s more h = refl
take-append (suc n) [] more h = absurd (omega arith)
take-append (suc n) (c ∷ s) more h = ap (λ t. c ∷ t) (take-append n s more (omega arith))

drop-append : (n : ℕ) (s more : Text) → n ≤ length s → drop n (s ++ more) ≡ drop n s ++ more
drop-append zero s more h = refl
drop-append (suc n) [] more h = absurd (omega arith)
drop-append (suc n) (c ∷ s) more h = drop-append n s more (omega arith)

length-drop-le : (n : ℕ) (s : Text) → length (drop n s) ≤ length s
length-drop-le zero s = omega arith
length-drop-le (suc n) [] = omega arith
length-drop-le (suc n) (c ∷ s) = omega (arith, length-drop-le n s)

pub take_frame-shorter : (s b r : Text) → take_frame s ≡ ok (some (b, r)) → length r < length s
unfolding take_frame
take_frame-shorter s b r e = elim (Option-cases (find_blank s)) [
  | inl f ↦ absurd (ground (arith, f, e))
  | inr ((h, t), f) ↦ elim (Result-cases (content_length (lines h))) [
    | inr (x, c) ↦ absurd (ground (arith, f, c, e))
    | inl (n, c) ↦ elim (Bool-cases (ltb (length t) n)) [
      | inl y ↦ absurd (ground (arith, f, c, y, e))
      | inr y ↦ ground (arith, f, c, y, e, find_blank-shorter s h t f, length-drop-le n t)
    ]
  ]
]

pub take_frame-append :
    (s more b r : Text)
    → take_frame s ≡ ok (some (b, r))
    → take_frame (s ++ more) ≡ ok (some (b, r ++ more))
unfolding take_frame
take_frame-append s more b r e = elim (Option-cases (find_blank s)) [
  | inl f ↦ absurd (ground (arith, f, e))
  | inr ((h, t), f) ↦ elim (Result-cases (content_length (lines h))) [
    | inr (x, c) ↦ absurd (ground (arith, f, c, e))
    | inl (n, c) ↦ elim (Bool-cases (ltb (length t) n)) [
      | inl y ↦ absurd (ground (arith, f, c, y, e))
      | inr y ↦
          let more_bytes = length-append t more in
          let enough : ltb (length (t ++ more)) n ≡ false = ground (arith, y, more_bytes) in
          ground (
            arith,
            f,
            c,
            y,
            e,
            enough,
            find_blank-append s more h t f,
            take-append n t more,
            drop-append n t more,
          )
    ]
  ]
]

pub take_frame-fails :
    (s more : Text) (x : Error) → take_frame s ≡ err x → take_frame (s ++ more) ≡ err x
unfolding take_frame
take_frame-fails s more x e = elim (Option-cases (find_blank s)) [
  | inl f ↦ absurd (ground (arith, f, e))
  | inr ((h, t), f) ↦ elim (Result-cases (content_length (lines h))) [
    | inr (y, c) ↦ ground (arith, f, c, e, find_blank-append s more h t f)
    | inl (n, c) ↦ elim (Bool-cases (ltb (length t) n)) [
      | inl y ↦ absurd (ground (arith, f, c, y, e))
      | inr y ↦ absurd (ground (arith, f, c, y, e))
    ]
  ]
]
