-- ===== src/Lease/Slots.antt =====
-- The contract of a call directory (src/audio/recording_lifecycle.py): four slots, each free or
-- with a lease, and no files.
pub mod Refines
mod Tests
use zenith_voip.Prelude.{
  ℕ, Bool, true, false, ◌||◌, Option, none, some, List, [], ◌∷◌, Text, if◌then◌else◌,
}
use zenith_voip.Prelude.Result.{Result, ok, err, ◌>>=◌}
use zenith_voip.Lease.Python.{Runtime}
use zenith_voip.Lease.{
  Stage, capture, conversion, smb, transcription, CallDir, RecordingLease, Error, lease_busy,
  Request, lease_path, same_stage, new_lease, blocks, is_active, owned_by, acquire_lease,
  renew_lease, release_lease, has_valid_lease,
}

abbrev pub Slots : Type 0
Slots = Stage → Option RecordingLease

abbrev pub set : Stage → Option RecordingLease → Slots → Slots
set s l m t = if same_stage s t then l else m t

abbrev pub any_slot : (Option RecordingLease → Bool) → Slots → Bool
any_slot test m = test (m capture) || test (m conversion) || test (m smb) || test (m transcription)

abbrev pub live : ℕ → Option RecordingLease → Bool
live now none = false
live now (some l) = is_active now l

-- Another owner's live lease closes the directory to the request; otherwise its slot is its own.
unfoldable pub acquire : Request → Slots → Result Error RecordingLease × Slots
acquire q m =
    if any_slot (blocks q.owner q.now) m then (err lease_busy, m) else elim (lease_path q.stage) [
      | err e ↦ (err e, m)
      | ok s ↦ (ok (new_lease s q), set s (some (new_lease s q)) m)
    ]

-- The slot's lease when it is the owner's, live or not.
unfoldable pub owned : Text → Text → Slots → Result Error (Option RecordingLease)
owned stage owner m = lease_path stage >>= λ s. ok (if owned_by owner (m s) then m s else none)

unfoldable pub renew : Request → Text → Slots → Result Error Bool × Slots
renew q owner m = elim (owned q.stage owner m) [
  | err e ↦ (err e, m)
  | ok none ↦ (ok false, m)
  | ok (some l) ↦
      let (r, m') = acquire (record q { call_id = l.call_id; owner = some owner }) m in
      ((r >>= λ _. ok true), m')
]

unfoldable pub release : Text → Text → Slots → Result Error Bool × Slots
release stage owner m = elim (owned stage owner m) [
  | err e ↦ (err e, m)
  | ok none ↦ (ok false, m)
  | ok (some l) ↦ (ok true, set l.stage none m)
]

-- What a worker checks of a call directory, and what it is answered.
pub data Call : Type 0 where
  acquires : Request → Call
  renews : Request → Text → Call
  releases : Text → Text → Call
  checks : ℕ → Call

pub data Reply : Type 0 where
  leased : Result Error RecordingLease → Reply
  answered : Result Error Bool → Reply

unfoldable pub step : Call → Slots → Reply × Slots
step (acquires q) m = let (r, m') = acquire q m in (leased r, m')
step (renews q owner) m = let (r, m') = renew q owner m in (answered r, m')
step (releases stage owner) m = let (r, m') = release stage owner m in (answered r, m')
step (checks now) m = (answered (ok (any_slot (live now) m)), m)

unfoldable pub run : List Call → Slots → List Reply
run [] m = []
run (c ∷ cs) m = let (r, m') = step c m in r ∷ run cs m'

-- The same calls on the lease files.
unfoldable pub step_files : Runtime → Call → CallDir → Reply × CallDir
step_files rt (acquires q) d = let (r, d') = acquire_lease rt q d in (leased r, d')
step_files rt (renews q owner) d = let (r, d') = renew_lease rt q owner d in (answered r, d')
step_files rt (releases stage owner) d =
    let (r, d') = release_lease rt stage owner d in (answered r, d')
step_files rt (checks now) d = (answered (has_valid_lease rt now d), d)

unfoldable pub run_files : Runtime → List Call → CallDir → List Reply
run_files rt [] d = []
run_files rt (c ∷ cs) d = let (r, d') = step_files rt c d in r ∷ run_files rt cs d'
