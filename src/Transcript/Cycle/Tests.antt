-- ===== src/Transcript/Cycle/Tests.antt =====
-- A cycle over three directories.
use zenith_voip.Prelude.{
  Text, ◌≡◌, ◌⊎◌, refl, Bool, true, false, some, List, [], ◌∷◌, codes, text_eq, length,
}
use zenith_voip.Prelude.Result.{Result, ok, err}
use zenith_voip.Workers.{Failure, caught}
use zenith_voip.Transcript.Reference.{Reference}
use zenith_voip.Transcript.Owned.{Reply, pending, done, timeout}
use zenith_voip.Transcript.Cycle.{
  Visit, processed, decide, visit_call, completed_cycle, run_transcript_cycle,
}
use zenith_voip.Transcript.Cycle.Totals.{
  publishes, fails, count_visits, run_transcript_cycle-counts, visit_call-processed,
}

abbrev reference : Reference
reference = record {
  remote_dir = codes "d";
  remote_wav_name = codes "a.wav";
  remote_md_name = codes "a.md";
}

abbrev reply : Reply
reply = done 3 (record { sha256 = codes "0"; remote_name = codes "a.md"; idempotent = false })

abbrev only_wav : Text → Bool
only_wav n = text_eq n (codes "a.wav")

abbrev visit : Result Failure Reply → Visit
visit o = record {
  ready = true;
  reference = some reference;
  known = ok true;
  remote_names = ok only_wav;
  consumed = false;
  has_rows = ok false;
  outcome = o;
  still_ready = true;
}

-- The first call fails, the second is published, the third runs out of time.
abbrev visits : List Visit
visits =
    visit (err (caught (codes "OSError"))) ∷ visit (ok reply) ∷ visit (ok (pending timeout)) ∷ []

run_transcript_cycle-counts_example :
    run_transcript_cycle false true visits
    ≡ ok (
        completed_cycle (record {
          calls_seen = length visits;
          completed = count_visits publishes visits;
          failures = count_visits fails visits;
        }))
unfolding visit_call decide text_eq
run_transcript_cycle-counts_example = run_transcript_cycle-counts visits (refl, (refl, (refl, tt)))

one_completed : count_visits publishes visits ≡ 1
unfolding count_visits text_eq
one_completed = refl

processed_run : visit_call (visit (ok reply)) ≡ ok (processed reply)
unfolding visit_call decide text_eq
processed_run = refl

visit_call-processed_test :
    (true ≡ true)
    × ((visit (ok reply)).known ≡ ok true)
    × ((ref : Reference) × ((visit (ok reply)).reference ≡ some ref)
        × ((names : Text → Bool) × ((visit (ok reply)).remote_names ≡ ok names)
            × (names ref.remote_wav_name ≡ true)
            × ((names ref.remote_md_name ≡ false)
                ⊎ (((visit (ok reply)).has_rows ≡ ok false) × (false ≡ false)))))
    × ((visit (ok reply)).outcome ≡ ok reply)
visit_call-processed_test = visit_call-processed (visit (ok reply)) reply processed_run
