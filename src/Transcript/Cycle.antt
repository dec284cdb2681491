-- ===== src/Transcript/Cycle.antt =====
-- The cycle of the transcript worker (`_run_cycle` and `run_transcript_cycle` of
-- src/workers/transcript_batch.py). What it meets at a directory is an argument: the audio, the
-- reference from the transfer log, the answers of the database and the share, and how `process_call`
-- ends.
pub mod Totals
mod Tests
use zenith_voip.Prelude.{
  ℕ, ◌+◌, Bool, true, false, not, ◌&&◌, Option, none, some, List, [], ◌∷◌, Text, length,
  if◌then◌else◌,
}
use zenith_voip.Prelude.Result.{Result, ok, err, ◌>>=◌}
use zenith_voip.Workers.{Failure, cancelled, caught, uncaught}
use zenith_voip.Transcript.Reference.{Reference}
use zenith_voip.Transcript.Owned.{
  Reason, already_processing, audio_incomplete, audio_remote_missing, timeout, Reply, pending, done,
}

pub record Visit : Type 0 where
  -- `is_ready_call`
  pub ready : Bool
  pub reference : Option Reference
  -- whether `resolve_call_metadata` finds the call
  pub known : Result Failure Bool
  pub remote_names : Result Failure (Text → Bool)
  -- the marker `.consumed-transcription`
  pub consumed : Bool
  -- `transcripts_exist`
  pub has_rows : Result Failure Bool
  -- how `process_call` ends
  pub outcome : Result Failure Reply
  -- `is_ready_call` again, once the directory is locked
  pub still_ready : Bool

-- What the body of the loop does with a directory.
pub data Verdict : Type 0 where
  passes : Verdict
  marks : Verdict
  processed : Reply → Verdict

-- The part behind the two listings, where the recording is on the share.
unfoldable pub decide : Visit → Bool → Result Failure Verdict
decide v has_transcript =
    if v.consumed && has_transcript
    then ok passes
    else v.has_rows >>= λ rows. elim rows [
      | false ↦ v.outcome >>= λ r. ok (processed r)
      | true ↦ elim has_transcript [
        | false ↦ v.outcome >>= λ r. ok (processed r)
        | true ↦ ok (if not v.consumed && v.still_ready then marks else passes)
      ]
    ]

unfoldable pub visit_call : Visit → Result Failure Verdict
visit_call v = if not v.ready then ok passes else elim v.reference [
  | none ↦ ok passes
  | some r ↦ v.known >>= λ known. elim known [
    | false ↦ ok passes
    | true ↦ v.remote_names >>= λ names.
        if not (names r.remote_wav_name) then ok passes else decide v (names r.remote_md_name)
  ]
]

pub record Summary : Type 0 where
  pub calls_seen : ℕ
  pub completed : ℕ
  pub failures : ℕ

-- `reason not in {"already_processing", "audio_incomplete"}`
abbrev pub is_failure : Reason → Bool
is_failure already_processing = false
is_failure audio_incomplete = false
is_failure audio_remote_missing = true
is_failure timeout = true

abbrev pub complete : Summary → Summary
complete s = record s { completed = s.completed + 1 }

abbrev pub fail : Summary → Summary
fail s = record s { failures = s.failures + 1 }

-- The loop; an exception that the `except` clause does not name ends it.
unfoldable pub visit_calls : List Visit → Summary → Result Failure Summary
visit_calls [] s = ok s
visit_calls (v ∷ vs) s = elim (visit_call v) [
  | ok passes ↦ visit_calls vs s
  | ok marks ↦ visit_calls vs s
  | ok (processed (done n p)) ↦ visit_calls vs (complete s)
  | ok (processed (pending r)) ↦ visit_calls vs (if is_failure r then fail s else s)
  | err (caught name) ↦ visit_calls vs (fail s)
  | err (uncaught name) ↦ err (uncaught name)
  | err cancelled ↦ err cancelled
]

pub data CycleReply : Type 0 where
  disabled already_running : CycleReply
  completed_cycle : Summary → CycleReply

-- `_run_cycle`
unfoldable pub run_cycle : Bool → List Visit → Result Failure CycleReply
run_cycle enabled vs =
    if not enabled
    then ok disabled
    else visit_calls vs (record { calls_seen = length vs; completed = 0; failures = 0 }) >>= λ s.
        ok (completed_cycle s)

-- `run_transcript_cycle`, where the lock is taken or free
unfoldable pub run_transcript_cycle : Bool → Bool → List Visit → Result Failure CycleReply
run_transcript_cycle locked enabled vs = if locked then ok already_running else run_cycle enabled vs
