-- ===== src/Cleanup/Tests.antt =====
-- Runs of the cleanup on concrete directories.
use zenith_voip.Prelude.{
  ℕ, ◌+◌, ◌*◌, ◌≡◌, refl, ap, true, false, none, some, [], ◌∷◌, codes, text_eq, one_of, length,
  arith,
}
use zenith_voip.Prelude.Dict.{lookup}
use zenith_voip.Prelude.Result.{ok}
use zenith_voip.Lease.{CallDir, capture, has_valid_lease, any_valid, read_lease}
use zenith_voip.Lease.Examples.{py, captured, captured_lease, read_captured, captured-AllReadable}
use zenith_voip.Capacity.{percent_scale}
use zenith_voip.Consumers.{
  marker, all_consumer_chars, all_marked, is_fully_consumed, is_fully_consumed-one,
}
use zenith_voip.Cleanup.{
  Fingerprint, Directory, Settings, Usage, Counts, no_counts, view, temporary_action, other_action,
  action, is_over, sweep, cleanup_call_directory, print_of, same_fingerprint,
}
use zenith_voip.Cleanup.Sweep.{distinct, total_size, cleanup-totals}
use zenith_voip.Cleanup.Backlog.{cleanup-backlog}
use zenith_voip.Cleanup.Temporaries.{
  OverSince, first_look, cleanup-leased, cleanup-temporary_old, cleanup-temporary_rounds,
}

abbrev settings : Settings
settings = record {
  required_consumers = codes "smb" ∷ codes "transcription" ∷ [];
  resume_free_percent = 30 * percent_scale;
  round_seconds = 1;
}

abbrev roomy : Usage
roomy = record { total = 100; free = 40 }

abbrev full_disk : Usage
full_disk = record { total = 100; free = 10 }

abbrev print : ℕ → Fingerprint
print n = record { inode = n; size = 10; mtime_ns = 5 }

abbrev no_leases : CallDir
no_leases = λ s. none

abbrev directory : Directory
directory = record {
  leases = no_leases;
  consumed = codes "smb" ∷ [];
  candidates = [];
  files =
      (codes "tx.wav", print 1) ∷ (codes "rx.tmp.wav", print 2) ∷ (codes "old.txt", print 3) ∷ [];
}

abbrev watching : Directory
watching = record directory { candidates = (codes "rx.tmp.wav", first_look py 0 (print 2)) ∷ [] }

is_fully_consumed-one_test : one_of (codes "smb") (codes "smb" ∷ codes "x" ∷ []) ≡ true
unfolding is_fully_consumed all_marked marker all_consumer_chars one_of text_eq
is_fully_consumed-one_test =
    is_fully_consumed-one (codes "smb" ∷ []) (codes "smb" ∷ codes "x" ∷ []) (codes "smb") refl refl

abbrev counts : ℕ → ℕ → Counts
counts n temporaries = record {
  deleted = n;
  bytes_freed = n * 10;
  temporary_candidates = 1;
  temporary_deleted = temporaries;
}

first_pass : (cleanup_call_directory py settings roomy 100 7 directory).0 ≡ ok (counts 1 0)
unfolding cleanup_call_directory has_valid_lease any_valid read_lease view is_fully_consumed
    all_marked marker all_consumer_chars one_of text_eq sweep action temporary_action other_action
    is_over lookup
first_pass = refl

cleanup-totals_test :
    let after = (cleanup_call_directory py settings roomy 100 7 directory).1 in
    (length directory.files ≡ length after.files + (counts 1 0).deleted)
    × (total_size directory.files ≡ total_size after.files + (counts 1 0).bytes_freed)
cleanup-totals_test = cleanup-totals py settings roomy 100 7 directory (counts 1 0) first_pass

-- On a full disk the recording goes as well.
full_pass : (cleanup_call_directory py settings full_disk 100 7 directory).0 ≡ ok (counts 2 0)
unfolding cleanup_call_directory has_valid_lease any_valid read_lease view is_fully_consumed
    all_marked marker all_consumer_chars one_of text_eq sweep action temporary_action other_action
    is_over lookup
full_pass = refl

cleanup-backlog_example :
    lookup (codes "tx.wav") (cleanup_call_directory py settings roomy 100 7 directory).1.files
    ≡ some (print 1)
unfolding one_of text_eq distinct lookup
cleanup-backlog_example =
    cleanup-backlog py settings roomy 100 7 directory (codes "tx.wav") (print 1) refl refl refl refl
      refl refl

second_pass : cleanup_call_directory py settings roomy 0 1_000_007 watching ≡ (
  ok (counts 1 1),
  record watching {
    candidates = [];
    files = (codes "tx.wav", print 1) ∷ (codes "old.txt", print 3) ∷ [];
  },
)
unfolding cleanup_call_directory has_valid_lease any_valid read_lease view is_fully_consumed
    all_marked marker all_consumer_chars one_of text_eq sweep action temporary_action other_action
    is_over lookup
second_pass = refl

cleanup-temporary_old_test :
    (same_fingerprint (print_of (lookup (codes "rx.tmp.wav") watching.candidates)) (print 2) ≡ true)
    × OverSince py 1_000_007 settings.round_seconds
        (lookup (codes "rx.tmp.wav") watching.candidates)
unfolding one_of text_eq distinct lookup
cleanup-temporary_old_test =
    cleanup-temporary_old py settings roomy 0 1_000_007 watching (codes "rx.tmp.wav") (print 2) refl
      refl refl refl (ap (λ r. lookup (codes "rx.tmp.wav") r.1.files) second_pass)

free_of_leases : (now : ℕ) → has_valid_lease py now no_leases ≡ ok false
unfolding has_valid_lease any_valid read_lease
free_of_leases now = refl

abbrev next : Directory
next = record directory {
  candidates = (cleanup_call_directory py settings roomy 100 7 directory).1.candidates;
}

next_pass : (cleanup_call_directory py settings roomy 100 1_000_007 next).0 ≡ ok (counts 2 1)
unfolding cleanup_call_directory has_valid_lease any_valid read_lease view is_fully_consumed
    all_marked marker all_consumer_chars one_of text_eq sweep action temporary_action other_action
    is_over lookup
next_pass = refl

cleanup-temporary_rounds_example :
    (lookup (codes "rx.tmp.wav") (cleanup_call_directory py settings roomy 100 7 directory).1.files
      ≡ some (print 2))
    × (lookup
          (codes "rx.tmp.wav")
          (cleanup_call_directory py settings roomy 100 1_000_007 next).1.files
        ≡ none)
unfolding one_of text_eq distinct lookup
cleanup-temporary_rounds_example =
    cleanup-temporary_rounds py settings roomy roomy 100 100 7 1_000_007 directory next
      (codes "rx.tmp.wav") (print 2) (counts 1 0) (counts 2 1) refl refl refl refl
      (free_of_leases 7) first_pass refl refl (free_of_leases 1_000_007) next_pass (ground arith)

abbrev busy : Directory
busy = record directory { leases = captured }

cleanup-leased_test :
    cleanup_call_directory py settings roomy 100 7 busy
    ≡ (ok no_counts, record busy { candidates = [] })
cleanup-leased_test =
    cleanup-leased py settings roomy 100 7 busy captured-AllReadable
      (capture, captured_lease, read_captured, ground arith)
