-- ===== src/Smb/Limiter/Tests.antt =====
-- A transfer of three bytes in chunks of two, over a share whose second call may fail.
use zenith_voip.Prelude.{
  if◌then◌else◌, ℕ, zero, suc, ◌+◌, ◌≤◌, ◌≡◌, refl, ap, Bool, true, false, [], ◌∷◌, ◌++◌, Text,
  codes, length, take, drop, append-nil, ltb, arith,
}
use zenith_voip.Prelude.Result.{ok, err}
use zenith_voip.Smb.Limiter.{Link, Transfer, keep_pace, store_rest, store}
use zenith_voip.Smb.Limiter.Pace.{IsSent, store-IsSent}

-- The bytes from the offset on are those of the chunk.
write_at : Bool → ℕ → Text → Text → Text
write_at true offset chunk old = chunk
write_at false offset chunk old = take offset old ++ chunk ++ drop (offset + length chunk) old

take-all : (xs : Text) → take (length xs) xs ≡ xs
take-all [] = refl
take-all (x ∷ xs) = ap (λ zs. x ∷ zs) (take-all xs)

drop-all : (n : ℕ) (xs : Text) → length xs ≤ n → drop n xs ≡ []
drop-all zero [] h = refl
drop-all zero (x ∷ xs) h = absurd (ground (arith, h))
drop-all (suc n) [] h = refl
drop-all (suc n) (x ∷ xs) h = drop-all n xs (ground (arith, h))

write_at-appended : (done chunk : Text) → write_at false (length done) chunk done ≡ done ++ chunk
unfolding write_at
write_at-appended done chunk =
    rw
      (
        take-all done,
        drop-all (length done + length chunk) done (omega arith),
        append-nil (done ++ chunk),
      )
      refl

write_at-truncated : (chunk old : Text) → write_at true 0 chunk old ≡ chunk
unfolding write_at
write_at-truncated chunk old = refl

abbrev link_of : (ℕ → Bool) → (ℕ → ℕ) → (ℕ → ℕ) → Link
link_of writes cost late = record {
  writes = writes;
  cost = cost;
  late = late;
  write = write_at;
  torn = λ truncate offset chunk old. if truncate then [] else old ++ codes "!";
  write-truncated = write_at-truncated;
  write-appended = write_at-appended;
}

abbrev fast : Link
fast = link_of (λ offset. true) (λ offset. 0) (λ offset. 1)

abbrev failing : Link
failing = link_of (λ offset. ltb offset 2) (λ offset. 5) (λ offset. 0)

abbrev before : Transfer
before = record { now = 10; remote = codes "old" }

store_runs : store fast 2 (codes "abc") before ≡ (ok 3, record { now = 13; remote = codes "abc" })
unfolding store store_rest write_at keep_pace
store_runs = refl

store_stops :
    store failing 2 (codes "abc") before ≡ (err tt, record { now = 20; remote = codes "ab!" })
unfolding store store_rest write_at keep_pace
store_stops = refl

store-IsSent_example :
    let s = store failing 2 (codes "abc") before in
    IsSent failing 2 10 (codes "abc") (codes "old") s.0 s.1
store-IsSent_example = store-IsSent failing 1 (codes "abc") before (omega arith)
