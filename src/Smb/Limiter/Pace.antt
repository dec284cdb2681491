-- ===== src/Smb/Limiter/Pace.antt =====
-- What a transfer leaves on the share, and how fast it was.
use zenith_voip.Prelude.{
  ℕ, zero, suc, ◌+◌, ◌≤◌, ◌<◌, ◌≡◌, refl, sym, ap, ◌∙◌, ◌⊎◌, inl, inr, false, [], ◌∷◌, ◌++◌, Text,
  length, take, drop, ◌==◌, arith, Bool-cases, append-nil, append_assoc, length-append,
}
use zenith_voip.Prelude.Result.{Result, ok, err}
use zenith_voip.Smb.Limiter.{Link, Transfer, keep_pace, store_rest, store}

take-length : (xs ys : Text) → take (length xs) (xs ++ ys) ≡ xs
take-length [] ys = refl
take-length (x ∷ xs) ys = ap (λ zs. x ∷ zs) (take-length xs ys)

drop-length : (xs ys : Text) → drop (length xs) (xs ++ ys) ≡ ys
drop-length [] ys = refl
drop-length (x ∷ xs) ys = drop-length xs ys

take-drop : (n : ℕ) (xs : Text) → take n xs ++ drop n xs ≡ xs
take-drop zero xs = refl
take-drop (suc n) [] = refl
take-drop (suc n) (x ∷ xs) = ap (λ zs. x ∷ zs) (take-drop n xs)

length-drop-le : (n : ℕ) (xs : Text) → length (drop n xs) ≤ length xs
length-drop-le zero xs = omega arith
length-drop-le (suc n) [] = omega arith
length-drop-le (suc n) (x ∷ xs) = omega (arith, length-drop-le n xs)

-- What is on the share when the first bytes are sent.
abbrev pub sent_of : Text → Text → Text
sent_of old [] = old
sent_of old (x ∷ xs) = x ∷ xs

write-sent :
    (link : Link) (old done : Text) (x : ℕ) (chunk : Text)
    → link.write (length done == 0) (length done) (x ∷ chunk) (sent_of old done)
      ≡ done ++ (x ∷ chunk)
write-sent link old [] x chunk = link.write-truncated (x ∷ chunk) old
write-sent link old (d ∷ done) x chunk =
    let later : (length (d ∷ done) == 0) ≡ false = ground arith in
    rw later (link.write-appended (d ∷ done) (x ∷ chunk))

sent_of-some :
    (old done : Text) (x : ℕ) (xs : Text) → sent_of old (done ++ (x ∷ xs)) ≡ done ++ (x ∷ xs)
sent_of-some old [] x xs = refl
sent_of-some old (d ∷ done) x xs = refl

module _ (link : Link) (chunk_size : ℕ) (started : ℕ) where
  -- A transfer is over, with all of the source on the share at no more than the limit, or a call
  -- raised, which found on the share what was sent before, or the old content if nothing was.
  abbrev pub IsSent : Text → Text → Result (Unit {0}) ℕ → Transfer → Type 0
  IsSent source old r t =
      ((r ≡ ok (length source)) × (t.remote ≡ source) × (started + length source ≤ t.now))
      ⊎ ((offset : ℕ) × (r ≡ err tt)
          × (link.writes offset ≡ false)
          × (offset < length source)
          × (t.remote
              ≡ link.torn (offset == 0) offset (take chunk_size (drop offset source))
                  (sent_of old (take offset source)))
          × (started + offset ≤ t.now))

  keep_pace-le :
      (offset now : ℕ)
      → started ≤ now
      → started + offset ≤ keep_pace link chunk_size started offset now
  unfolding keep_pace
  keep_pace-le offset now h = ground (arith, h)

module _ (link : Link) (c : ℕ) (started : ℕ) where
  all-IsSent :
      (done old : Text) (t : Transfer)
      → 0 < length done + 0
      → t.remote ≡ sent_of old done
      → started + length done ≤ t.now
      → IsSent link (suc c) started (done ++ []) old (ok (length done)) t
  all-IsSent [] old t n r p = absurd (ground (arith, n))
  all-IsSent (d ∷ done) old t n r p =
      let same = append-nil (d ∷ done) in
      inl (
        ap (λ s. ok (length s)) (sym same),
        r ∙ sym same,
        omega (arith, p, length-append (d ∷ done) []),
      )

  store_rest_lem :
      (fuel : ℕ) (rest done old : Text) (t : Transfer)
      → length rest ≤ fuel
      → 0 < length done + length rest
      → t.remote ≡ sent_of old done
      → started + length done ≤ t.now
      → let s = store_rest link (suc c) started fuel rest (length done) t in
        IsSent link (suc c) started (done ++ rest) old s.0 s.1
  unfolding store_rest
  store_rest_lem zero [] done old t f n r p = all-IsSent done old t n r p
  store_rest_lem zero (x ∷ xs) done old t f n r p = absurd (ground (arith, f))
  store_rest_lem (suc fuel) [] done old t f n r p = all-IsSent done old t n r p
  store_rest_lem (suc fuel) (x ∷ xs) done old t f n r p =
      let at = length done in
      let chunk : Text = x ∷ take c xs in
      let now = t.now + link.cost at in
      let here = store_rest link (suc c) started (suc fuel) (x ∷ xs) at t in
      elim (Bool-cases (link.writes at)) [
        | inr w ↦
            let stopped : Transfer = record {
              now = now;
              remote = link.torn (at == 0) at chunk t.remote;
            } in
            let ahead : drop at (done ++ (x ∷ xs)) ≡ x ∷ xs = drop-length done (x ∷ xs) in
            let failed : here ≡ (err tt, stopped) = ground (arith, w) in
            let left : take at (done ++ (x ∷ xs)) ≡ done = take-length done (x ∷ xs) in
            let within : at < length (done ++ (x ∷ xs)) =
              omega (arith, length-append done (x ∷ xs)) in
            rw failed (inr (at, refl, w, within, rw (left, ahead, r) refl, omega (arith, p)))
        | inl w ↦
            let sent = at + length chunk in
            let t' : Transfer = record {
              now = keep_pace link (suc c) started sent now;
              remote = link.write (at == 0) at chunk t.remote;
            } in
            let total = length-append done chunk in
            let next : here
                ≡ store_rest link (suc c) started fuel (drop c xs) (length (done ++ chunk)) t' =
              rw total (ground (arith, w)) in
            let whole : (done ++ chunk) ++ drop c xs ≡ done ++ (x ∷ xs) =
              append_assoc done chunk (drop c xs) ∙ ap (λ zs. done ++ (x ∷ zs)) (take-drop c xs) in
            let remote : t'.remote ≡ sent_of old (done ++ chunk) = rw r (
              write-sent link old done x (take c xs) ∙ sym (sent_of-some old done x (take c xs))) in
            let pace = keep_pace-le link (suc c) started sent now (omega (arith, p)) in
            let ih =
              store_rest_lem fuel (drop c xs) (done ++ chunk) old t'
                (omega (arith, f, length-drop-le c xs)) (omega (arith, total)) remote
                (rw total pace) in
            rw (next, ← whole) ih
      ]

-- A transfer of a file that is not empty, in chunks of at least one byte, either ends with exactly the
-- file on the share, and has taken at least the time of its bytes at the limit, or ends with the
-- exception of a call: what was sent before was sent no faster, and stood on the share, or the old
-- content if it was the first call, when that call was made for the chunk that follows. Nothing is said
-- of what a call leaves that raises.
pub store-IsSent :
    (link : Link) (c : ℕ) (source : Text) (t : Transfer)
    → 0 < length source
    → let s = store link (suc c) source t in IsSent link (suc c) t.now source t.remote s.0 s.1
unfolding store
store-IsSent link c source t n =
    store_rest_lem link c t.now (length source) source [] t.remote t (omega arith)
      (omega (arith, n)) refl (omega arith)
