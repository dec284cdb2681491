-- ===== src/Lease/Files.antt =====
-- What a written lease file reads back as, and when a read raises.
use zenith_voip.Prelude.{
  ℕ, ◌≡◌, refl, true, false, Option, none, some, arith, is_empty, text_eq, if◌then◌else◌,
}
use zenith_voip.Prelude.Result.{ok}
use zenith_voip.Prelude.Json.{Fields, null, bool, num, other_num, str, arr, obj, member, is_one}
use zenith_voip.Lease.Python.{Runtime}
use zenith_voip.Lease.{
  Stage, stage_name, capture, conversion, smb, transcription, find_stage, File, json, garbled,
  RecordingLease, expected, expiry, read_fields, payload, read_lease,
}

pub find_stage-stage_name : (s : Stage) → find_stage (stage_name s) ≡ some s
unfolding find_stage text_eq
find_stage-stage_name capture = refl
find_stage-stage_name conversion = refl
find_stage-stage_name smb = refl
find_stage-stage_name transcription = refl

expected_str : (s : Stage) → expected (some (str (stage_name s))) s ≡ some s
unfolding expected find_stage text_eq
expected_str capture = refl
expected_str conversion = refl
expected_str smb = refl
expected_str transcription = refl

expiry_isoformat : (rt : Runtime) (t : ℕ) → expiry rt (some (str (rt.isoformat t))) ≡ some t
unfolding expiry
expiry_isoformat rt t = rw (rt.read_back t, expiry)

-- What is read back from a written file: the lease, unless its owner is no UUID or its call empty.
pub read_payload :
    (rt : Runtime) (l : RecordingLease)
    → read_lease rt (some (json (obj (payload rt l)))) l.stage
      ≡ ok (if rt.is_uuid l.owner then (if is_empty l.call_id then none else some l) else none)
unfolding read_lease read_fields payload member is_one text_eq
read_payload rt l =
    rw
      (
        rt.str_of_str l.owner,
        rt.str_of_str l.call_id,
        expected_str l.stage,
        expiry_isoformat rt l.expires_at,
      )
      (ground (arith, rt.str_of_str l.owner, rt.str_of_str l.call_id))

-- A read raises exactly at a file that holds a JSON value other than an object.
abbrev pub IsReadable : Option File → Type 0
IsReadable none = Unit
IsReadable (some garbled) = Unit
IsReadable (some (json v)) = (fs : Fields) × (v ≡ obj fs)

pub read_lease_total :
    (rt : Runtime) (f : Option File) (s : Stage)
    → IsReadable f
    → (r : Option RecordingLease) × (read_lease rt f s ≡ ok r)
unfolding read_lease
read_lease_total rt none s h = (none, refl)
read_lease_total rt (some garbled) s h = (none, refl)
read_lease_total rt (some (json (obj fs))) s h = (_, refl)
read_lease_total rt (some (json null)) s h = cc h.1
read_lease_total rt (some (json (bool _))) s h = cc h.1
read_lease_total rt (some (json (num _))) s h = cc h.1
read_lease_total rt (some (json (other_num _))) s h = cc h.1
read_lease_total rt (some (json (str _))) s h = cc h.1
read_lease_total rt (some (json (arr _))) s h = cc h.1

-- A lease that a read returns has the stage of its file.
pub stage-read_lease :
    (rt : Runtime) (f : Option File) (s : Stage) (l : RecordingLease)
    → read_lease rt f s ≡ ok (some l)
    → (l.stage ≡ s) × (rt.is_uuid l.owner ≡ true) × (is_empty l.call_id ≡ false)
unfolding read_lease read_fields expected
stage-read_lease rt none s l h = ground arith
stage-read_lease rt (some garbled) s l h = ground arith
stage-read_lease rt (some (json (obj fs))) s l h = ground arith
stage-read_lease rt (some (json _)) s l h = ground arith
