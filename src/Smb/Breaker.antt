-- ===== src/Smb/Breaker.antt =====
-- `CircuitBreaker` of src/workers/smb_sync.py. Times are readings of one monotonic clock.
mod Tests
use zenith_voip.Prelude.{
  ℕ, suc, zero, ◌+◌, ◌≤◌, ◌<◌, ◌≡◌, ◌↔◌, refl, Bool, true, false, Option, none, some, List, [], ◌∷◌,
  ltb, leb, is_some, length, arith, if◌then◌else◌,
}

pub record CircuitBreaker : Type 0 where
  pub failure_threshold : ℕ
  pub reset_seconds : ℕ
  pub failures : ℕ
  pub opened_at : Option ℕ

unfoldable pub reset : CircuitBreaker → CircuitBreaker
reset b = record b { failures = 0; opened_at = none }

-- `current - opened_at < reset_seconds` is `current < opened_at + reset_seconds`.
unfoldable pub allows_request : ℕ → CircuitBreaker → Bool × CircuitBreaker
unfolding reset
allows_request now b = elim b.opened_at [
  | none ↦ (true, b)
  | some t ↦ if ltb now (t + b.reset_seconds) then (false, b) else (true, reset b)
]

unfoldable pub record_success : CircuitBreaker → CircuitBreaker
unfolding reset
record_success b = reset b

unfoldable pub record_failure : ℕ → CircuitBreaker → CircuitBreaker
record_failure now b =
    let n = b.failures + 1 in
    record b {
      failures = n;
      opened_at = if leb b.failure_threshold n then some now else b.opened_at;
    }

-- Calls on the breaker, each with the time at which it is made.
pub data Call : Type 0 where
  asks fails : ℕ → Call
  succeeds : Call

pub step : CircuitBreaker → Call → CircuitBreaker
step b (asks now) = (allows_request now b).1
step b (fails now) = record_failure now b
step b succeeds = record_success b

pub run : CircuitBreaker → List Call → CircuitBreaker
run b [] = b
run b (c ∷ cs) = run (step b c) cs

-- It is open exactly when the failures have reached the threshold.
abbrev pub IsConsistent : CircuitBreaker → Type 0
IsConsistent b = is_some b.opened_at ≡ leb b.failure_threshold b.failures

step-IsConsistent :
    (b : CircuitBreaker) (c : Call)
    → 0 < b.failure_threshold
    → IsConsistent b
    → IsConsistent (step b c) × ((step b c).failure_threshold ≡ b.failure_threshold)
unfolding step allows_request record_failure record_success
step-IsConsistent b (asks now) pos h = ground arith
step-IsConsistent b (fails now) pos h = ground arith
step-IsConsistent b succeeds pos h = ground arith

-- After any calls, a breaker with a positive threshold is open exactly when its count of failures has
-- reached the threshold.
pub run-IsConsistent :
    (b : CircuitBreaker) (cs : List Call)
    → 0 < b.failure_threshold
    → IsConsistent b
    → IsConsistent (run b cs)
unfolding run
run-IsConsistent b [] pos h = h
run-IsConsistent b (c ∷ cs) pos h =
    let (k, e) = step-IsConsistent b c pos h in run-IsConsistent (step b c) cs (rw e pos) k

pub fail_all : CircuitBreaker → List ℕ → CircuitBreaker
fail_all b [] = b
fail_all b (t ∷ ts) = fail_all (record_failure t b) ts

fail_all-failures :
    (b : CircuitBreaker) (ts : List ℕ)
    → ((fail_all b ts).failures ≡ b.failures + length ts)
      × ((fail_all b ts).failure_threshold ≡ b.failure_threshold)
      × ((fail_all b ts).reset_seconds ≡ b.reset_seconds)
unfolding fail_all record_failure
fail_all-failures b [] = (omega arith, refl, refl)
fail_all-failures b (t ∷ ts) = ground (arith, fail_all-failures (record_failure t b) ts)

-- From a reset breaker, any run of failures at the times `ts` and then at `last` that reaches the
-- threshold refuses every request before `last + reset_seconds`, and admits the first one from then
-- on, which resets the count.
pub trips :
    (b : CircuitBreaker) (ts : List ℕ) (last now : ℕ)
    → b.failures ≡ 0
    → b.failure_threshold ≤ length ts + 1
    → let b' = record_failure last (fail_all b ts) in
      allows_request now b'
      ≡ (if ltb now (last + b.reset_seconds) then (false, b') else (true, reset b'))
unfolding record_failure allows_request
trips b ts last now z h = ground (arith, fail_all-failures b ts)

fail_all_closed :
    (b : CircuitBreaker) (ts : List ℕ)
    → b.opened_at ≡ none
    → b.failures + length ts < b.failure_threshold
    → (fail_all b ts).opened_at ≡ none
unfolding fail_all record_failure
fail_all_closed b [] o h = o
fail_all_closed b (t ∷ ts) o h =
    fail_all_closed (record_failure t b) ts (ground arith) (ground arith)

-- From a reset breaker, fewer failures than the threshold never refuse a request.
pub stays_closed :
    (b : CircuitBreaker) (ts : List ℕ) (now : ℕ)
    → b.failures ≡ 0
    → b.opened_at ≡ none
    → length ts < b.failure_threshold
    → (allows_request now (fail_all b ts)).0 ≡ true
unfolding allows_request
stays_closed b ts now z o h = ground (arith, fail_all_closed b ts o)
