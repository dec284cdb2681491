-- ===== src/Smb/Cycle/Tests.antt =====
-- A cycle over three directories.
use zenith_voip.Prelude.{
  ℕ, ◌+◌, ◌≤◌, ◌≡◌, refl, true, false, ◌||◌, none, some, List, [], ◌∷◌, Text, codes, text_eq,
}
use zenith_voip.Prelude.Dict.{lookup, insert}
use zenith_voip.Prelude.Result.{Result, ok, err}
use zenith_voip.Smb.Breaker.{allows_request, record_success, record_failure}
use zenith_voip.Smb.Cycle.{
  Entry, done, Visit, Cycle, Outcome, published, Raised, unavailable, already_done, settle,
  run_cycle, visit_all, prune_transfer_log,
}
use zenith_voip.Smb.Cycle.Log.{publishes, was_done, run_cycle-done}

abbrev old_entry : Entry
old_entry = record {
  status = done;
  attempts = some 1;
  updated_at = some 4;
  sha256 = some (codes "s");
  remote_name = some (codes "n.wav");
  last_error = none;
}

abbrev start : Cycle
start = record {
  log = (codes "A/c1", old_entry) ∷ [];
  breaker = record { failure_threshold = 5; reset_seconds = 300; failures = 0; opened_at = none };
  completed = 0;
  failures = 0;
}

abbrev visit : Text → Result Raised Outcome → Visit
visit key outcome = record {
  key = key;
  leased = false;
  stable = true;
  outcome = outcome;
  now = 1;
  wall = 9;
}

abbrev visits : List Visit
visits =
    visit (codes "A/c1") (err (unavailable (codes "OSError")))
    ∷ visit (codes "A/c2") (err (unavailable (codes "OSError")))
    ∷ visit (codes "A/c3") (ok (published (codes "t") (codes "m.wav")))
    ∷ []

-- The first is done already and is not visited again.
cycle_counts : ((visit_all visits start).completed ≡ 1) × ((visit_all visits start).failures ≡ 1)
unfolding visit_all settle allows_request record_success record_failure lookup insert text_eq
cycle_counts = (refl, refl)

pruned : prune_transfer_log 5 start.log ≡ []
unfolding prune_transfer_log
pruned = refl

run_cycle-done_example :
    let after = (run_cycle true 1 9 visits start.log start.breaker).log in
    ((e : Entry)
      → lookup (codes "A/c1") start.log ≡ some e
      → e.status ≡ done
      → ((t : ℕ) → e.updated_at ≡ some t → 9 ≤ t + 604_800_000_000)
      → lookup (codes "A/c1") after ≡ some e)
    × (already_done (codes "A/c1") after ≡ true
        → (was_done (codes "A/c1") start.log || publishes (codes "A/c1") visits) ≡ true)
run_cycle-done_example = run_cycle-done true 1 9 visits start.log start.breaker (codes "A/c1")
