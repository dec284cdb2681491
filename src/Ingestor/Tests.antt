-- ===== src/Ingestor/Tests.antt =====
-- A recording from its registration to its end, and one that is refused.
use zenith_voip.Prelude.{
  ◌*◌, ◌≡◌, refl, true, false, none, some, List, [], ◌∷◌, ◌++◌, if◌then◌else◌, codes, text_eq,
  one_of,
}
use zenith_voip.Prelude.Dict.{lookup, insert, erase}
use zenith_voip.Prelude.Json.{member, is_one}
use zenith_voip.Prelude.Result.{ok, err}
use zenith_voip.Capacity.{Guard, percent_scale, reserve}
use zenith_voip.Capacity.Disk.{DiskState, remaining_of, pending_processing_bytes, pending_calls}
use zenith_voip.Lease.{
  acquire_lease, release_lease, inspect, check_stages, take_stage, write_lease, read_lease,
  find_stage, lease_path, find_owned, payload,
}
use zenith_voip.Lease.Examples.{py}
use zenith_voip.Esl.Handlers.{Metadata}
use zenith_voip.Ingestor.{
  Ingestor, Moment, take_capture, start_recording, write_channel, publish_channels, finalize_stream,
  register_stream_metadata, split_stereo_frame, write_frame,
}
use zenith_voip.Ingestor.Balance.{
  Balanced, Event, registers, starts, writes, happens, history, history-Balanced,
}
use zenith_voip.Ingestor.Frames.{Stereo, frame, tx_bytes, rx_bytes, write_frames, tx_all, rx_all}
use zenith_voip.Ingestor.Recorded.{finalize-recorded}

abbrev guard : Guard
guard = record {
  max_call_seconds = 1;
  min_free_percent = 20 * percent_scale;
  resume_free_percent = 30 * percent_scale;
  headroom_bytes = 0;
  reservations = [];
  degraded = false;
}

abbrev disk : DiskState
disk = record { total = 1_000_000; used = 0; calls = [] }

abbrev full_disk : DiskState
full_disk = record { total = 1_000_000; used = 1_000_000; calls = [] }

abbrev idle : Ingestor
idle = record {
  stream_metadata = [];
  recordings = [];
  guard = guard;
  leases = λ p. λ s. none;
  files = λ p. [];
  uploads = [];
}

abbrev moment : Moment
moment = record { now = 5; fresh = codes "u1"; default_ttl = 120 }

abbrev metadata : Metadata
metadata = record { tenant_id = codes "A"; pbx_id = []; agent_extension = [] }

-- The second call finds the disk full.
abbrev events : List Event
events =
    registers (codes "c1") metadata
    ∷ registers (codes "c2") metadata
    ∷ starts disk moment (codes "c1")
    ∷ starts full_disk moment (codes "c2")
    ∷ writes true (codes "c1") (codes "tx") (codes "ab")
    ∷ []

abbrev running : Ingestor
running = record idle {
  stream_metadata = (codes "c1", metadata) ∷ (codes "c2", metadata) ∷ [];
  recordings =
      (
        codes "c1",
        record {
          directory = codes "A/c1";
          lease_owner = codes "u1";
          handles = [];
          failed_channels = [];
        },
      )
      ∷ [];
}

history-Balanced_example : Balanced (elim (history py events idle) [ ok w ↦ w | err x ↦ idle ])
unfolding history happens register_stream_metadata start_recording take_capture write_channel
    reserve remaining_of pending_processing_bytes pending_calls acquire_lease inspect check_stages
    read_lease lease_path find_stage text_eq take_stage write_lease lookup insert one_of
history-Balanced_example = history-Balanced py events idle _ (λ c. refl) refl

-- Two samples, a frame without one, and one more sample; something is left from an earlier stream.
abbrev two : List Stereo
two =
    record { tx_low = 1; tx_high = 2; rx_low = 3; rx_high = 4 }
    ∷ record { tx_low = 5; tx_high = 6; rx_low = 7; rx_high = 8 }
    ∷ []

abbrev later : List (List Stereo)
later = [] ∷ (record { tx_low = 9; tx_high = 10; rx_low = 11; rx_high = 12 } ∷ []) ∷ []

abbrev ready : Ingestor
ready = record idle {
  stream_metadata = (codes "c1", metadata) ∷ [];
  files = λ p. if text_eq p (codes "A/c1") then (codes "tx.tmp.raw", codes "ab") ∷ [] else [];
}

finalize-recorded_example :
    let begun = (start_recording py disk moment (codes "c1") ready).1 in
    let written = write_frames (codes "c1") (two ∷ later) begun in
    let after = (finalize_stream py (codes "c1") written).1 in
    (lookup (codes "tx.raw") (after.files (codes "A/c1"))
      ≡ some (codes "ab" ++ (1 ∷ 2 ∷ 5 ∷ 6 ∷ 9 ∷ 10 ∷ [])))
    × (lookup (codes "rx.raw") (after.files (codes "A/c1")) ≡ some (3 ∷ 4 ∷ 7 ∷ 8 ∷ 11 ∷ 12 ∷ []))
    × (lookup (codes "tx.tmp.raw") (after.files (codes "A/c1")) ≡ none)
    × (lookup (codes "rx.tmp.raw") (after.files (codes "A/c1")) ≡ none)
    × (after.uploads ≡ codes "c1" ∷ [])
unfolding write_frames write_frame frame split_stereo_frame tx_bytes rx_bytes tx_all rx_all
    start_recording take_capture write_channel finalize_stream publish_channels release_lease
    reserve remaining_of pending_processing_bytes pending_calls acquire_lease inspect check_stages
    take_stage write_lease find_owned lease_path find_stage read_lease text_eq lookup insert erase
    one_of payload member is_one
finalize-recorded_example =
    finalize-recorded py disk moment (codes "c1") two later ready metadata true refl refl refl refl
