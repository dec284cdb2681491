-- ===== src/Smb/Breaker/Tests.antt =====
-- Runs of the circuit breaker.
use zenith_voip.Prelude.{◌≡◌, refl, true, false, none, [], ◌∷◌, ltb, arith, if◌then◌else◌, ◌+◌}
use zenith_voip.Smb.Breaker.{
  CircuitBreaker, reset, allows_request, record_failure, asks, fails, succeeds, run, IsConsistent,
  run-IsConsistent, fail_all, trips, stays_closed,
}

abbrev breaker : CircuitBreaker
breaker = record { failure_threshold = 3; reset_seconds = 300; failures = 0; opened_at = none }

run-IsConsistent_test :
    IsConsistent (run breaker (fails 1 ∷ fails 2 ∷ succeeds ∷ fails 3 ∷ asks 4 ∷ []))
run-IsConsistent_test =
    run-IsConsistent breaker (fails 1 ∷ fails 2 ∷ succeeds ∷ fails 3 ∷ asks 4 ∷ []) (omega arith)
      refl

trips_test :
    let b' = record_failure 30 (fail_all breaker (10 ∷ 20 ∷ [])) in
    allows_request 100 b' ≡ (if ltb 100 (30 + 300) then (false, b') else (true, reset b'))
trips_test = trips breaker (10 ∷ 20 ∷ []) 30 100 refl (omega arith)

stays_closed_test : (allows_request 100 (fail_all breaker (10 ∷ 20 ∷ []))).0 ≡ true
stays_closed_test = stays_closed breaker (10 ∷ 20 ∷ []) 100 refl refl (omega arith)

refuses_then_admits :
    ((allows_request 329 (fail_all breaker (10 ∷ 20 ∷ 30 ∷ []))).0 ≡ false)
    × ((allows_request 330 (fail_all breaker (10 ∷ 20 ∷ 30 ∷ []))).0 ≡ true)
unfolding allows_request fail_all record_failure
refuses_then_admits = (refl, refl)
