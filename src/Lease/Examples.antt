-- ===== src/Lease/Examples.antt =====
-- A concrete Python for runs of the lease code.
use zenith_voip.Prelude.{
  ℕ, ◌≡◌, refl, Option, none, some, [], ◌∷◌, not, Text, codes, text_eq, is_empty,
}
use zenith_voip.Prelude.Result.{ok}
use zenith_voip.Prelude.Json.{Json, str, member, is_one}
use zenith_voip.Lease.Python.{Runtime, Stamp, aware}
use zenith_voip.Lease.Protocol.{AllReadable}
use zenith_voip.Lease.{
  capture, conversion, smb, transcription, CallDir, RecordingLease, Request, find_stage, lease_path,
  payload, expected, expiry, read_fields, read_lease, check_stages, write_lease, take_stage,
  inspect, acquire_lease, new_lease,
}

abbrev pub text_of : Json → Text
text_of (str t) = t
text_of _ = []

abbrev pub parse : Text → Option Stamp
parse [] = none
parse (n ∷ []) = some (aware n)
parse (n ∷ m ∷ t) = none

-- UUIDs are the texts that are not empty, and a date is written as one character.
abbrev pub py : Runtime
py = record {
  is_uuid = λ t. not (is_empty t);
  str_of = text_of;
  isoformat = λ n. n ∷ [];
  fromisoformat = parse;
  empty_is_no_uuid = refl;
  str_of_str = λ t. refl;
  read_back = λ t. refl;
  isoformat_nonempty = λ t. refl;
}

abbrev pub asks : Text → Option Text → ℕ → Request
asks stage owner now = record {
  stage = stage;
  call_id = codes "call";
  owner = owner;
  now = now;
  ttl_seconds = none;
  fresh = codes "u1";
  default_ttl = 120;
}

abbrev pub empty_dir : CallDir
empty_dir = λ s. none

abbrev pub captured : CallDir
captured = (acquire_lease py (asks (codes "capture") none 5) empty_dir).1

abbrev pub captured_lease : RecordingLease
captured_lease = new_lease capture (asks (codes "capture") none 5)

pub read_captured : read_lease py (captured capture) capture ≡ ok (some captured_lease)
unfolding acquire_lease inspect check_stages read_lease lease_path find_stage text_eq take_stage
    write_lease payload member is_one read_fields expected expiry
read_captured = refl

pub captured-AllReadable : AllReadable captured
unfolding acquire_lease inspect check_stages read_lease lease_path find_stage text_eq take_stage
    write_lease
captured-AllReadable capture = (payload py captured_lease, refl)
captured-AllReadable conversion = tt
captured-AllReadable smb = tt
captured-AllReadable transcription = tt
