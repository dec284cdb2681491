-- ===== src/Transcript/Owned.antt =====
-- The transcription of one call (`_process_owned_call`, `persist_segments` and `process_call` of
-- src/workers/transcript_batch.py).
pub mod Rows
pub mod Steps
pub mod Publication
pub mod Leased
use zenith_voip.Prelude.{
  ℕ, Bool, true, false, not, Option, none, some, List, [], ◌∷◌, ◌++◌, Text, codes, text_eq, length,
  if◌then◌else◌,
}
use zenith_voip.Prelude.Result.{Result, ok, err}
use zenith_voip.Consumers.{mark_consumed}
use zenith_voip.Lease.Python.{Runtime}
use zenith_voip.Lease.{CallDir, Request}
use zenith_voip.Smb.Publish.{Published}
use zenith_voip.Workers.{
  Failure, caught, Ending, Run, M, pure, ◌>>=◌, ◌>>◌, perform, wait_for, raced, under_lease,
}
use zenith_voip.Transcript.Floats.{Floats}
use zenith_voip.Transcript.Segments.{Segment, Chunk, transcribe_pair}
use zenith_voip.Transcript.Markdown.{CallMetadata, render_markdown}
use zenith_voip.Transcript.Publisher.{Publisher}

pub data Reason : Type 0 where
  already_processing audio_incomplete audio_remote_missing timeout : Reason

-- What `process_call` returns.
pub data Reply : Type 0 where
  pending : Reason → Reply
  done : ℕ → Published → Reply

-- A row of the table of transcripts: the id of its call, and the segment.
abbrev pub Row : Type 0 → Type 0
Row S = Text × S

-- `DELETE … WHERE call_id = …`
unfoldable pub delete_rows : {S : Type 0} → Text → List (Row S) → List (Row S)
delete_rows id [] = []
delete_rows id ((k, s) ∷ rows) =
    let rest = delete_rows id rows in if text_eq k id then rest else (k, s) ∷ rest

unfoldable pub rows_of : {S : Type 0} → Text → List S → List (Row S)
rows_of id [] = []
rows_of id (s ∷ ss) = (id, s) ∷ rows_of id ss

unfoldable pub replace_rows : {S : Type 0} → Text → List S → List (Row S) → List (Row S)
unfolding delete_rows rows_of
replace_rows id ss rows = delete_rows id rows ++ rows_of id ss

abbrev pub transcription : Text
transcription = codes "transcription"

-- `acquire_lease(directory, "transcription", …)`, without an owner
abbrev pub lease_request : Request → Request
lease_request q = record q { stage = transcription; owner = none }

module _ (F : Floats) (P : Publisher) where
  open P use {State}

  -- What the operation changes: the transcripts of the tenant, the share, and the markers of the
  -- call's consumers.
  pub record World : Type 0 where
    pub rows : List (Row (Segment F))
    pub share : State
    pub marked : List Text

  -- What it meets: the metadata with the reference, the audio, and how the database answers; and what
  -- a cancelled write leaves behind.
  pub record Job : Type 0 where
    pub metadata : CallMetadata
    pub database_id : Text
    pub remote_dir : Text
    pub remote_wav_name : Text
    pub remote_md_name : Text
    pub ready : Bool
    pub tx_chunks : List (Chunk F)
    pub rx_chunks : List (Chunk F)
    pub database_error : Option Failure
    pub commits_late : Bool
    pub cut_publish : State → State

  -- The RuntimeError of a chunk that whisper could not read.
  abbrev pub transcribed : Job → Result Failure (List (Segment F))
  transcribed j = elim (transcribe_pair F j.tx_chunks j.rx_chunks) [
    | ok ss ↦ ok ss
    | err e ↦ err (caught (codes "RuntimeError"))
  ]

  abbrev pub with_rows : Job → List (Segment F) → World → World
  with_rows j ss w = record w { rows = replace_rows j.database_id ss w.rows }

  unfoldable pub commit : Job → List (Segment F) → World → Result Failure (Unit {0}) × World
  commit j ss w = elim j.database_error [ some e ↦ (err e, w) | none ↦ (ok tt, with_rows j ss w) ]

  abbrev pub cut_commit : Job → List (Segment F) → World → World
  cut_commit j ss w = if j.commits_late then with_rows j ss w else w

  -- `persist_segments`: one transaction
  unfoldable pub persist_segments : Job → List (Segment F) → M World (Unit {0})
  persist_segments j ss = wait_for (commit j ss) (cut_commit j ss)

  abbrev pub cut_publication : Job → World → World
  cut_publication j w = record w { share = j.cut_publish w.share }

  -- `mark_consumed(call_dir, "transcription")`
  unfoldable pub mark_transcribed : M World (Unit {0})
  mark_transcribed = perform λ w.
      let (r, m) = mark_consumed transcription w.marked in
      (elim r [ ok _ ↦ ok tt | err _ ↦ err (caught (codes "ValueError")) ], record w { marked = m })

  abbrev pub listing : Job → World → Result Failure (Text → Bool) × World
  listing j w = let (r, s) = P.list_names j.remote_dir w.share in (r, record w { share = s })

  unfoldable pub remote_names : Job → M World (Text → Bool)
  remote_names j = wait_for (listing j) (λ w. w)

  unfoldable pub transcribe : Job → M World (List (Segment F))
  transcribe j = wait_for (λ w. (transcribed j, w)) (λ w. w)

  module _ (milliseconds : F.Float → ℕ) (two_decimals : F.Float → Text) where
    abbrev pub content : Job → List (Segment F) → Text
    content j ss = render_markdown F milliseconds two_decimals j.metadata ss

    abbrev pub publication : Job → List (Segment F) → World → Result Failure Published × World
    publication j ss w =
        let (r, s) =
          P.publish_text (content j ss) j.remote_dir j.remote_md_name j.remote_md_name w.share in
        (r, record w { share = s })

    unfoldable pub publish_content : Job → List (Segment F) → M World Published
    publish_content j ss = wait_for (publication j ss) (cut_publication j)

    -- The part of `_process_owned_call` below the two tests.
    unfoldable pub write_transcript : Job → M World Reply
    write_transcript j = do
      ss ← transcribe j
      persist_segments j ss
      published ← publish_content j ss
      mark_transcribed
      pure (done (length ss) published)

    unfoldable pub process_owned_call : Job → M World Reply
    process_owned_call j = if not j.ready then pure (pending audio_incomplete) else do
      names ← remote_names j
      if not (names j.remote_wav_name)
          then pure (pending audio_remote_missing)
          else write_transcript j

    -- `process_call`; the exception of a lost lease is that of the renewal.
    unfoldable pub process_call :
        Runtime
        → Request
        → (CallDir → CallDir)
        → Ending
        → Job
        → CallDir
        → World
        → Result Failure Reply × CallDir × World
    process_call rt q meanwhile ending j =
        under_lease rt (lease_request q) (pending already_processing) meanwhile
          (raced (pending timeout) (λ f. err f) ending (process_owned_call j))
