-- ===== src/Capacity/Tests.antt =====
-- Runs of the capacity guard on concrete disks.
use zenith_voip.Prelude.{
  ℕ, ◌+◌, ◌-◌, ◌*◌, ◌≤◌, ◌≡◌, refl, true, false, List, [], ◌∷◌, Text, codes, text_eq, none, length,
  if◌then◌else◌,
}
use zenith_voip.Prelude.Dict.{lookup, contains}
use zenith_voip.Prelude.Result.{ok}
use zenith_voip.Capacity.Disk.{DiskState, remaining_of, pending_processing_bytes}
use zenith_voip.Capacity.Reservations.{reserve_leaves_room, reserve_twice}
use zenith_voip.Capacity.Hysteresis.{
  Call, reserves, releases, run, resume_after_refusal, release_once, reserved_bytes-run,
}
use zenith_voip.Capacity.{
  Guard, bytes_per_call, reserved_bytes, remaining_reserved_bytes, projected, percent_scale,
  reserve, release,
}

abbrev guard : Guard
guard = record {
  max_call_seconds = 300;
  min_free_percent = 20 * percent_scale;
  resume_free_percent = 30 * percent_scale;
  headroom_bytes = 1_000;
  reservations = [];
  degraded = false;
}

abbrev roomy : DiskState
roomy = record {
  total = 1_000_000_000;
  used = 100_000_000;
  calls =
      record { call_id = codes "a"; sizes = (codes "tx.raw", 500) ∷ [] }
      ∷ record {
        call_id = codes "b";
        sizes = (codes "rx.raw", 900) ∷ (codes "rx.tmp.wav", 400) ∷ [];
      }
      ∷ [];
}

abbrev tight : DiskState
tight = record { total = 1_000_000_000; used = 790_000_000; calls = [] }

pending_roomy : pending_processing_bytes roomy ≡ 1_000
unfolding pending_processing_bytes lookup text_eq
pending_roomy = refl

reserve-roomy : (reserve roomy (codes "c") guard).0 ≡ ok true
unfolding reserve lookup remaining_of pending_processing_bytes text_eq
reserve-roomy = refl

refuse_tight : (reserve tight (codes "c") guard).0 ≡ ok false
unfolding reserve lookup remaining_of pending_processing_bytes
refuse_tight = refl

reserve_leaves_room_example :
    let g' = (reserve roomy (codes "c") guard).1 in
    20 * percent_scale * 1_000_000_000
    ≤ 100
      * (1_000_000_000
          - (100_000_000
              + remaining_reserved_bytes roomy g'
              + pending_processing_bytes roomy
              + g'.headroom_bytes))
      * percent_scale
unfolding lookup
reserve_leaves_room_example = reserve_leaves_room roomy (codes "c") guard refl reserve-roomy

reserve_twice_test :
    reserve tight (codes "c") (reserve roomy (codes "c") guard).1
    ≡ (ok true, (reserve roomy (codes "c") guard).1)
reserve_twice_test = reserve_twice roomy tight (codes "c") guard reserve-roomy

resume_after_refusal_test :
    let g' = (reserve tight (codes "c") guard).1 in
    (g'.reservations ≡ [])
    × (contains {V = ℕ} (codes "d") [] ≡ false
        → (reserve roomy (codes "d") g').0 ≡ ok true
        → 30 * percent_scale * 1_000_000_000
          ≤ 100 * (1_000_000_000 - projected roomy g') * percent_scale)
resume_after_refusal_test =
    resume_after_refusal tight roomy (codes "c") (codes "d") guard refuse_tight

release_once_test :
    let (had, g') = release (codes "c") guard in
    (had ≡ contains {V = ℕ} (codes "c") [])
    × ((j : Text)
        → lookup j g'.reservations ≡ (if text_eq (codes "c") j then none else lookup j []))
    × ((release (codes "c") g').0 ≡ false)
release_once_test = release_once (codes "c") guard

abbrev history : List Call
history = reserves roomy (codes "c") ∷ reserves roomy (codes "d") ∷ releases (codes "c") ∷ []

reserved_bytes-run_test :
    reserved_bytes (run guard history)
    ≡ length (run guard history).reservations * bytes_per_call guard
reserved_bytes-run_test = reserved_bytes-run guard history refl
