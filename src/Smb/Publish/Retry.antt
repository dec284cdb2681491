-- ===== src/Smb/Publish/Retry.antt =====
-- `_publish_with_retry` (src/workers/smb_sync.py).
use zenith_voip.Prelude.{ℕ, zero, suc, ◌≤◌, ◌≡◌, ◌≢◌, refl, List, [], ◌∷◌, length, take, arith}
use zenith_voip.Prelude.Result.{Result, ok, err}
use zenith_voip.Smb.Share.{Failure, os_error, remote_collision, other_failure}

abbrev pub retry_delays_seconds : List ℕ
retry_delays_seconds = 1 ∷ 2 ∷ 4 ∷ []

-- The result, the state, and the seconds that each pause took. A collision and a failure that is no
-- `OSError` go on at once; an `OSError` goes on when no delay is left.
module _ {S A : Type 0} (attempt : S → Result Failure A × S) where
  unfoldable pub retry : List ℕ → S → Result Failure A × S × List ℕ
  retry [] s = ((attempt s).0, (attempt s).1, [])
  retry (d ∷ ds) s =
      let again = retry ds (attempt s).1 in
      elim (attempt s).0 [
        | ok a ↦ (ok a, (attempt s).1, [])
        | err os_error ↦ (again.0, again.1, d ∷ again.2)
        | err remote_collision ↦ (err remote_collision, (attempt s).1, [])
        | err other_failure ↦ (err other_failure, (attempt s).1, [])
      ]

  unfoldable pub publish_with_retry : S → Result Failure A × S × List ℕ
  publish_with_retry s = retry retry_delays_seconds s

  -- The state after `n` attempts.
  unfoldable pub after : ℕ → S → S
  after zero s = s
  after (suc n) s = after n (attempt s).1

  -- The first `n` attempts all end in an `OSError`.
  abbrev pub AllFail : ℕ → S → Type 0
  AllFail zero s = Unit
  AllFail (suc n) s = ((attempt s).0 ≡ err os_error) × AllFail n (attempt s).1

  retry_settles :
      (ds : List ℕ) (n : ℕ) (s : S)
      → n ≤ length ds
      → AllFail n s
      → (attempt (after n s)).0 ≢ err os_error
      → retry ds s ≡ ((attempt (after n s)).0, (attempt (after n s)).1, take n ds)
  unfolding retry after
  retry_settles [] zero s h f k = refl
  retry_settles [] (suc n) s h f k = absurd (omega arith)
  retry_settles (d ∷ ds) zero s h f k = ground arith
  retry_settles (d ∷ ds) (suc n) s h f k =
      ground (arith, retry_settles ds n (attempt s).1 (omega arith) f.1 k)

  retry_exhausted :
      (ds : List ℕ) (s : S)
      → AllFail (suc (length ds)) s
      → retry ds s ≡ (err os_error, after (suc (length ds)) s, ds)
  unfolding retry after
  retry_exhausted [] s f = ground arith
  retry_exhausted (d ∷ ds) s f = ground (arith, retry_exhausted ds (attempt s).1 f.1)

  -- Up to three attempts may end in an `OSError`: the first attempt that does not is the answer, after
  -- the pauses of 1, 2 and 4 seconds that go with the attempts before it.
  pub retry_answers :
      (n : ℕ) (s : S)
      → n ≤ 3
      → AllFail n s
      → (attempt (after n s)).0 ≢ err os_error
      → publish_with_retry s
        ≡ ((attempt (after n s)).0, (attempt (after n s)).1, take n retry_delays_seconds)
  unfolding publish_with_retry
  retry_answers n s h f k = retry_settles retry_delays_seconds n s h f k

  -- When four attempts have ended in an `OSError` it goes on, with no fifth attempt.
  pub retry_gives_up :
      (s : S) → AllFail 4 s → publish_with_retry s ≡ (err os_error, after 4 s, retry_delays_seconds)
  unfolding publish_with_retry
  retry_gives_up s f = retry_exhausted retry_delays_seconds s f
