-- ===== src/Smb/Call.antt =====
-- The backup of one call (`ensure_mono_pair`, `_process_call_unbounded` and `process_call` of
-- src/workers/smb_sync.py). What ffmpeg answers for a file is an argument.
pub mod Strategy
pub mod Quiet
pub mod Backup
pub mod Leased
mod Tests
use zenith_voip.Prelude.{
  text_eq, Bool, true, false, not, ◌&&◌, ◌||◌, Option, none, some, List, Text, codes, if◌then◌else◌,
}
use zenith_voip.Prelude.Result.{Result, ok, err}
use zenith_voip.Consumers.{mark_consumed}
use zenith_voip.Lease.Python.{Runtime}
use zenith_voip.Lease.{
  CallDir, RecordingLease, Request, lease_busy, invalid_stage, attribute_error, acquire_lease,
  release_lease,
}
use zenith_voip.Lease as Lease
use zenith_voip.Smb.Cycle.{
  Reason, already_processing, mono_pair_incomplete, timeout, Outcome, published, waits, Raised,
  collision, other, unavailable,
}
use zenith_voip.Smb.Names.{NameParts, build_remote_directory, build_remote_name}
use zenith_voip.Smb.Publish.{Published}
use zenith_voip.Transcript.Publisher.{Publisher}
use zenith_voip.Workers.{
  Failure, cancelled, caught, uncaught, failure_of, Ending, Run, M, pure, ◌>>=◌, ◌>>◌, perform,
  wait_for, raced, under_lease,
}

-- The files of a channel: `<channel>.wav` and `<channel>.raw`.
pub record Source : Type 0 where
  pub wav : Bool
  pub raw : Bool

abbrev pub converted : Source → Source
converted s = record s { wav = true }

abbrev pub needs_wav : Source → Bool
needs_wav s = not s.wav && s.raw

abbrev pub conversion : Text
conversion = codes "conversion"

abbrev pub smb_stage : Text
smb_stage = codes "smb"

-- `acquire_lease(directory, "smb", call_id)`
abbrev pub smb_request : Request → Request
smb_request q = record q { stage = smb_stage; owner = none }

module _ (P : Publisher) where
  open P use {State}

  -- What the operation changes: the audio of the call, the share and the markers.
  pub record World : Type 0 where
    pub tx : Source
    pub rx : Source
    pub stereo : Bool
    pub share : State
    pub marked : List Text

  -- What it meets; `content` is what the stereo file holds, `cleanup` is the strategy's
  -- `cleanup_remote_temporaries`, and the last two are what a cancelled one leaves on the share.
  pub record Job : Type 0 where
    pub tenant_id : Text
    pub parts : NameParts
    pub conversion_request : Request
    pub tx_error : Option Failure
    pub rx_error : Option Failure
    pub stereo_error : Option Failure
    pub content : Text
    pub cleanup : State → Result Failure (Unit {0}) × State
    pub cut_cleanup : State → State
    pub cut_publish : State → State

  -- `_convert_to_wav` of a channel that has only the raw file
  abbrev pub convert_tx : Job → World → Result Failure (Unit {0}) × World
  convert_tx j w =
      if needs_wav w.tx
      then elim j.tx_error [
        | some e ↦ (err e, w)
        | none ↦ (ok tt, record w { tx = converted w.tx })
      ]
      else (ok tt, w)

  abbrev pub convert_rx : Job → World → Result Failure (Unit {0}) × World
  convert_rx j w =
      if needs_wav w.rx
      then elim j.rx_error [
        | some e ↦ (err e, w)
        | none ↦ (ok tt, record w { rx = converted w.rx })
      ]
      else (ok tt, w)

  -- The loop over the channels; a cancelled ffmpeg leaves no file.
  unfoldable pub convert_channels : Job → M World (Unit {0})
  convert_channels j = wait_for (convert_tx j) (λ w. w) >> wait_for (convert_rx j) (λ w. w)

  -- `try: … finally: release_lease(directory, "conversion", owner)`
  unfoldable pub then_release : {A : Type 0} → Runtime → Text → M World A → M World A
  then_release rt owner m r =
      let (a, r') = m r in
      let (released, d) = release_lease rt conversion owner r'.dir in
      (elim released [ err e ↦ err (failure_of e) | ok _ ↦ a ], record r' { dir = d })

  abbrev pub has_pair : M World Bool
  has_pair r = (ok (r.world.tx.wav && r.world.rx.wav), r)

  -- What follows the acquire of the conversion; a busy lease gives no pair.
  unfoldable pub once_leased : Runtime → Job → Result Lease.Error RecordingLease → M World Bool
  once_leased rt j (ok lease) = then_release rt lease.owner (convert_channels j) >> has_pair
  once_leased rt j (err lease_busy) = pure false
  once_leased rt j (err e) = λ r. (err (failure_of e), r)

  unfoldable pub convert_leased : Runtime → Text → Job → M World Bool
  convert_leased rt owner j r =
      let q = record j.conversion_request { stage = conversion; owner = some owner } in
      let (leased, d) = acquire_lease rt q r.dir in once_leased rt j leased (record r { dir = d })

  -- `ensure_mono_pair`: whether there is a pair
  unfoldable pub ensure_mono_pair : Runtime → Text → Job → M World Bool
  ensure_mono_pair rt owner j r =
      (if needs_wav r.world.tx || needs_wav r.world.rx then convert_leased rt owner j else has_pair)
        r

  abbrev pub render_stereo : Job → World → Result Failure (Unit {0}) × World
  render_stereo j w = elim j.stereo_error [
    | some e ↦ (err e, w)
    | none ↦ (ok tt, record w { stereo = true })
  ]

  unfoldable pub generate_stereo : Job → M World (Unit {0})
  generate_stereo j = wait_for (render_stereo j) (λ w. w)

  abbrev pub cleaned : Job → World → Result Failure (Unit {0}) × World
  cleaned j w = let (r, s) = j.cleanup w.share in (r, record w { share = s })

  unfoldable pub clean_temporaries : Job → M World (Unit {0})
  clean_temporaries j = wait_for (cleaned j) (λ w. record w { share = j.cut_cleanup w.share })

  -- The two names; a name that cannot be built raises a ValueError.
  unfoldable pub remote_name : Job → Bool → M World Text
  remote_name j suffix r = elim (build_remote_name j.parts (codes "wav") suffix) [
    | ok name ↦ (ok name, r)
    | err e ↦ (err (uncaught (codes "ValueError")), r)
  ]

  abbrev pub remote_dir : Job → Text
  remote_dir j = build_remote_directory j.tenant_id j.parts.started_at

  abbrev pub publication : Job → Text → Text → World → Result Failure Published × World
  publication j base other_name w =
      let (r, s) = P.publish_text j.content (remote_dir j) base other_name w.share in
      (r, record w { share = s })

  -- `_publish_with_retry`
  unfoldable pub publish_stereo : Job → Text → Text → M World Published
  publish_stereo j base other_name =
      wait_for (publication j base other_name) (λ w. record w { share = j.cut_publish w.share })

  -- `mark_consumed(call_dir, "smb")`
  unfoldable pub mark_backed_up : M World (Unit {0})
  mark_backed_up = perform λ w.
      let (r, m) = mark_consumed smb_stage w.marked in
      (
        elim r [ ok _ ↦ ok tt | err _ ↦ err (uncaught (codes "ValueError")) ],
        record w { marked = m },
      )

  abbrev pub unlink_stereo : M World (Unit {0})
  unlink_stereo = perform λ w. (ok tt, record w { stereo = false })

  -- The part of `_process_call_unbounded` where there is a pair.
  unfoldable pub back_up : Job → M World Outcome
  back_up j = do
    generate_stereo j
    base ← remote_name j false
    other_name ← remote_name j true
    clean_temporaries j
    result ← publish_stereo j base other_name
    mark_backed_up
    unlink_stereo
    pure (published result.sha256 result.remote_name)

  unfoldable pub process_call_unbounded : Runtime → Text → Job → M World Outcome
  process_call_unbounded rt owner j = ensure_mono_pair rt owner j >>= λ pair.
      if not pair then pure (waits mono_pair_incomplete) else back_up j

  -- `process_call`: where the renewal ends first, the call of a name that the module does not have
  -- raises a NameError. A lease that is taken without an owner has the fresh one.
  unfoldable pub back_up_call :
      Runtime
      → Request
      → (CallDir → CallDir)
      → Ending
      → Job
      → CallDir
      → World
      → Result Failure Outcome × CallDir × World
  back_up_call rt q meanwhile ending j =
      under_lease rt (smb_request q) (waits already_processing) meanwhile (
        raced (waits timeout) (λ f. err (uncaught (codes "NameError"))) ending
          (process_call_unbounded rt q.fresh j))

-- How the cycle of the backup sees the exception of a call.
abbrev pub raised_of : Failure → Raised
raised_of cancelled = other
raised_of (caught name) =
    if text_eq name (codes "RemoteCollisionError") then collision else unavailable name
raised_of (uncaught name) = other
