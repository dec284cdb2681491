-- ===== src/Transcript/Segments.antt =====
-- From the chunks of the two channels to the transcript (`normalize_segments` and `transcribe_pair`
-- of src/workers/transcript_batch.py). The chunks of a channel, what whisper answers for each and
-- their durations are arguments.
pub mod Laws
use zenith_voip.Prelude.{
  ℕ, ◌+◌, Bool, true, false, not, ◌&&◌, ◌||◌, Option, none, some, List, [], ◌∷◌, ◌++◌, Text, codes,
  is_empty, if◌then◌else◌,
}
use zenith_voip.Prelude.Result.{Result, ok, err, ◌>>=◌}
use zenith_voip.Prelude.Sorting.{sorted}
use zenith_voip.Text.{strip}
use zenith_voip.Transcript.Floats.{Floats, max_of, min_of}

pub data Channel : Type 0 where
  tx rx : Channel

abbrev pub channel_name : Channel → Text
channel_name tx = codes "tx"
channel_name rx = codes "rx"

abbrev pub speaker_of : Channel → Text
speaker_of tx = codes "atendente"
speaker_of rx = codes "cliente"

-- `a["channel"] < b["channel"]`
abbrev pub channel_before : Channel → Channel → Bool
channel_before rx tx = true
channel_before _ _ = false

-- `d.get(k, default)`
abbrev pub get_or : {A : Type 0} → Option A → A → A
get_or none d = d
get_or (some a) d = a

module _ (F : Floats) where
  open F use {Float, zero, one, less, add, sub}

  -- A segment of whisper's answer; each key may be missing.
  pub record RawSegment : Type 0 where
    pub text : Option Text
    pub start : Option Float
    pub finish : Option Float
    pub confidence : Option Float

  pub record Segment : Type 0 where
    pub channel : Channel
    pub speaker : Text
    pub text : Text
    pub confidence : Float
    pub start_time : Float
    pub end_time : Float
    pub is_final : Bool
    pub chunk_index : ℕ

  -- One round of the loop, for a segment with this text.
  unfoldable pub normal : Channel → Float → ℕ → RawSegment → Text → Segment
  normal c offset index raw content =
      let start = add (max_of F zero (get_or raw.start zero)) offset in
      let from = sub start offset in
      record {
        channel = c;
        speaker = speaker_of c;
        text = content;
        confidence = min_of F one (max_of F zero (get_or raw.confidence zero));
        start_time = start;
        end_time = add (max_of F (get_or raw.finish from) from) offset;
        is_final = true;
        chunk_index = index;
      }

  unfoldable pub normalize_segments : Channel → Float → ℕ → List RawSegment → List Segment
  normalize_segments c offset index [] = []
  normalize_segments c offset index (raw ∷ raws) =
      let rest = normalize_segments c offset index raws in
      let content = strip (get_or raw.text []) in
      if is_empty content then rest else normal c offset index raw content ∷ rest

  -- A chunk of a channel: what `stt.transcribe` returns for it, and its duration.
  pub record Chunk : Type 0 where
    pub error : Option Text
    pub segments : List RawSegment
    pub duration : Float

  -- `result.get("error")` counts when it is not empty.
  abbrev pub has_error : Chunk → Bool
  has_error k = not (is_empty (get_or k.error []))

  -- The loop over the chunks of one channel; the error is the text of the RuntimeError.
  unfoldable pub transcribe_channel : Channel → ℕ → Float → List Chunk → Result Text (List Segment)
  transcribe_channel c index offset [] = ok []
  transcribe_channel c index offset (k ∷ ks) = elim (has_error k) [
    | true ↦ err (get_or k.error [])
    | false ↦ transcribe_channel c (index + 1) (add offset k.duration) ks >>= λ rest.
        ok (normalize_segments c offset index k.segments ++ rest)
  ]

  -- the order of `key=lambda item: (item["start_time"], item["channel"])`
  abbrev pub starts_before : Segment → Segment → Bool
  starts_before a b =
      less a.start_time b.start_time
      || (not (less b.start_time a.start_time) && channel_before a.channel b.channel)

  unfoldable pub transcribe_pair : List Chunk → List Chunk → Result Text (List Segment)
  transcribe_pair tx_chunks rx_chunks = transcribe_channel tx 0 zero tx_chunks >>= λ a.
      transcribe_channel rx 0 zero rx_chunks >>= λ b. ok (sorted starts_before (a ++ b))
