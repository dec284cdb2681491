-- ===== src/Smb/Call/Tests.antt =====
-- A backup of one call on a share in memory.
use zenith_voip.Prelude.{◌≡◌, refl, true, false, none, some, [], codes, text_eq, Text, is_empty}
use zenith_voip.Prelude.Result.{ok}
use zenith_voip.Lease.Examples.{py, asks, empty_dir}
use zenith_voip.Lease.{
  smb, RecordingLease, find_owned, acquire_lease, new_lease, inspect, check_stages, read_lease,
  lease_path, find_stage, take_stage, write_lease,
}
use zenith_voip.Smb.Names.{NameParts}
use zenith_voip.Smb.Publish.Examples.{in_memory}
use zenith_voip.Transcript.Publisher.{Publisher}
use zenith_voip.Workers.{runs, times_out}
use zenith_voip.Smb.Call.Strategy.{backup_publisher}
use zenith_voip.Smb.Call.Quiet.{Keeps}
use zenith_voip.Smb.Call.Backup.{After, process_call_unbounded-After}
use zenith_voip.Smb.Call.Leased.{back_up_call-Keeps, back_up_call-released}
use zenith_voip.Lease.Protocol.{AllReadable}
use zenith_voip.Workers.{Run}
use zenith_voip.Smb.Call.{
  conversion, ensure_mono_pair, World, Job, process_call_unbounded, back_up_call,
}

abbrev call : NameParts
call = record {
  started_at = record { year = 2026; month = 8; day = 21; hour = 9; minute = 5; second = 7 };
  call_id = codes "abcdef0123";
  caller_number = some (codes "11");
  callee_number = none;
}

abbrev share : Publisher
share = backup_publisher in_memory (λ t. t) []

abbrev job : Job share
job = record {
  tenant_id = codes "t";
  parts = call;
  conversion_request = asks (codes "conversion") none 6;
  tx_error = none;
  rx_error = none;
  stereo_error = none;
  content = codes "stereo";
  cleanup = λ s. (ok tt, s);
  cut_cleanup = λ s. s;
  cut_publish = λ s. s;
}

-- One channel is still raw.
abbrev world : World share
world = record {
  tx = record { wav = true; raw = false };
  rx = record { wav = false; raw = true };
  stereo = false;
  share = λ p. none;
  marked = [];
}

process_call_unbounded-After_example : After share job world (
    process_call_unbounded share py
      (codes "u1")
      job
      (record { left = none; dir = empty_dir; world = world }))
process_call_unbounded-After_example =
    process_call_unbounded-After share job py (codes "u1")
      (record { left = none; dir = empty_dir; world = world })

-- The call runs out of time at its third await.
back_up_call-Keeps_example :
    Keeps share job world
      (back_up_call share py
        (asks (codes "smb") none 5)
        (λ e. e)
        (times_out 2)
        job
        empty_dir
        world).2
back_up_call-Keeps_example =
    back_up_call-Keeps share job py (asks (codes "smb") none 5) (λ e. e) (times_out 2) empty_dir
      world

abbrev backing_up : RecordingLease
backing_up = new_lease smb (asks (codes "smb") none 5)

acquire_run : (acquire_lease py (asks (codes "smb") none 5) empty_dir).0 ≡ ok backing_up
unfolding acquire_lease inspect check_stages read_lease lease_path find_stage text_eq take_stage
    write_lease
acquire_run = refl

back_up_call-released_example :
    (find_owned py
        (back_up_call share py (asks (codes "smb") none 5) (λ e. e) runs job empty_dir world).1
        (codes "smb")
        (codes "u1")
      ≡ ok none)
    × ((owner : Text) (r : Run (World share))
        → is_empty owner ≡ false
        → AllReadable r.dir
        → find_owned py r.dir conversion owner ≡ ok none
        → find_owned py (ensure_mono_pair share py owner job r).1.dir conversion owner ≡ ok none)
back_up_call-released_example =
    back_up_call-released share job py (asks (codes "smb") none 5) (λ e. e) runs empty_dir world
      backing_up acquire_run (λ s. tt) (λ e h. h)
