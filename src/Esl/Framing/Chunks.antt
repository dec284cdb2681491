-- ===== src/Esl/Framing/Chunks.antt =====
-- The events do not depend on how the connection cuts the stream into chunks.
use zenith_voip.Prelude.{
  ℕ, zero, suc, ◌+◌, ◌<◌, ◌≡◌, sym, ap, ◌∙◌, true, false, none, List, [], ◌∷◌, ◌++◌, Text, length,
  length-append, append-nil, append_assoc, arith, Bool-cases, Option-cases, inl, inr,
}
use zenith_voip.Prelude.Result.{ok, Result-cases}
use zenith_voip.Esl.Framing.{take_frame, before, drain_fuel, drain, read_events}
use zenith_voip.Esl.Framing.Steps.{take_frame-shorter, take_frame-append, take_frame-fails}

-- Enough fuel is as good as any.
pub drain_fuel-enough :
    (n m : ℕ) (s : Text) → length s < n → length s < m → drain_fuel n s ≡ drain_fuel m s
unfolding drain_fuel
drain_fuel-enough zero m s h k = absurd (omega arith)
drain_fuel-enough (suc n) zero s h k = absurd (omega arith)
drain_fuel-enough (suc n) (suc m) s h k = elim (Result-cases (take_frame s)) [
  | inr (x, e) ↦ ground (arith, e)
  | inl (o, e) ↦ elim (Option-cases o) [
    | inl p ↦ ground (arith, e, p)
    | inr ((b, r), p) ↦
        let less = take_frame-shorter s b r (e ∙ ap ok p) in
        let rest = drain_fuel-enough n m r (omega (arith, less)) (omega (arith, less)) in
        ground (arith, e, p, rest)
  ]
]

-- The loop stops with no whole frame in the buffer.
drain_fuel-settled :
    (n : ℕ) (s : Text)
    → length s < n
    → (drain_fuel n s).failed ≡ false
    → take_frame (drain_fuel n s).buffer ≡ ok none
unfolding drain_fuel
drain_fuel-settled zero s h k = absurd (omega arith)
drain_fuel-settled (suc n) s h k = elim (Result-cases (take_frame s)) [
  | inr (x, e) ↦ absurd (ground (arith, e, k))
  | inl (o, e) ↦ elim (Option-cases o) [
    | inl p ↦ ground (arith, e, p)
    | inr ((b, r), p) ↦
        let less = take_frame-shorter s b r (e ∙ ap ok p) in
        ground (arith, e, p, k, drain_fuel-settled n r (omega (arith, less)))
  ]
]

settled_case : (m : ℕ) (s : Text) → length s < m → drain_fuel m s ≡ before [] (drain s)
unfolding drain
settled_case m s h = drain_fuel-enough m (suc (length s)) s h (omega arith)

-- More bytes behind a buffer: the same bodies first, and then those of what was left with the bytes.
drain_fuel-append :
    (n m : ℕ) (s more : Text)
    → length s < n
    → length s + length more < m
    → ((drain_fuel n s).failed ≡ true
        → ((drain_fuel m (s ++ more)).bodies ≡ (drain_fuel n s).bodies)
          × ((drain_fuel m (s ++ more)).failed ≡ true))
      × ((drain_fuel n s).failed ≡ false
          → drain_fuel m (s ++ more)
            ≡ before (drain_fuel n s).bodies (drain ((drain_fuel n s).buffer ++ more)))
unfolding drain_fuel
drain_fuel-append zero m s more h k = absurd (omega arith)
drain_fuel-append (suc n) zero s more h k = absurd (omega arith)
drain_fuel-append (suc n) (suc m) s more h k = elim (Result-cases (take_frame s)) [
  | inr (x, e) ↦
      let fails = take_frame-fails s more x e in
      (
        λ f. (ground (arith, e, fails), ground (arith, e, fails)),
        λ f. absurd (ground (arith, e, f)),
      )
  | inl (o, e) ↦ elim (Option-cases o) [
    | inl p ↦
        let bytes = length-append s more in
        let stop : drain_fuel (suc n) s ≡ record { bodies = []; buffer = s; failed = false } =
          ground (arith, e, p) in
        let whole = settled_case (suc m) (s ++ more) (omega (arith, bytes)) in
        (
          λ f. absurd (ground (arith, e, p, f)),
          λ f. whole ∙ sym (ap (λ x. before x.bodies (drain (x.buffer ++ more))) stop),
        )
    | inr ((b, r), p) ↦
        let whole = e ∙ ap ok p in
        let less = take_frame-shorter s b r whole in
        let longer = take_frame-append s more b r whole in
        let (bad, good) =
          drain_fuel-append n m r more (omega (arith, less)) (omega (arith, less)) in
        (
          λ f. (ground (arith, whole, longer, f, bad), ground (arith, whole, longer, f, bad)),
          λ f. ground (arith, whole, longer, f, good),
        )
  ]
]

stops :
    (n : ℕ) (s : Text)
    → take_frame s ≡ ok none
    → drain_fuel (suc n) s ≡ record { bodies = []; buffer = s; failed = false }
unfolding drain_fuel
stops n s h = ground (arith, h)

-- The chunks in one.
unfoldable pub joined : List Text → Text
joined [] = []
joined (c ∷ cs) = c ++ joined cs

pub read_events-drain :
    (buffer : Text) (chunks : List Text)
    → take_frame buffer ≡ ok none
    → let a = read_events buffer chunks in
      let b = drain (buffer ++ joined chunks) in
      (a.bodies ≡ b.bodies) × (a.failed ≡ b.failed) × (a.failed ≡ false → a.buffer ≡ b.buffer)
unfolding read_events joined drain
read_events-drain buffer [] settled =
    let one : drain_fuel (suc (length buffer)) buffer
        ≡ record { bodies = []; buffer = buffer; failed = false } =
      stops (length buffer) buffer settled in
    let all : drain (buffer ++ []) ≡ record { bodies = []; buffer = buffer; failed = false } =
      ap drain (append-nil buffer) ∙ one in
    (sym (ap (λ x. x.bodies) all), sym (ap (λ x. x.failed) all), λ h. sym (ap (λ x. x.buffer) all))
read_events-drain buffer (c ∷ cs) settled =
    let now = buffer ++ c in
    let n = suc (length now) in
    let whole = append_assoc buffer c (joined cs) in
    let bytes = length-append now (joined cs) in
    let (bad, good) =
      drain_fuel-append n (suc (length (now ++ joined cs))) now (joined cs) (omega arith)
        (omega (arith, bytes)) in
    elim (Bool-cases (drain_fuel n now).failed) [
      | inl f ↦
          let (same, failed) = bad f in
          (
            ground (arith, f, same, whole),
            ground (arith, f, failed, whole),
            λ h. absurd (ground (arith, f, h)),
          )
      | inr f ↦
          let (bodies, fails, rest) =
            read_events-drain (drain_fuel n now).buffer cs
              (drain_fuel-settled n now (omega arith) f) in
          (
            ground (arith, f, good f, bodies, whole),
            ground (arith, f, good f, fails, whole),
            λ h. ground (arith, f, good f, rest, whole, h),
          )
    ]
