-- ===== src/Transcript/Segments/Laws.antt =====
-- What every segment of a transcript satisfies, and the order of the whole.
use zenith_voip.Prelude.{
  ℕ, ◌⊎◌, ◌+◌, ◌≡◌, refl, true, false, List, [], ◌∷◌, ◌++◌, Text, is_empty, All, arith, Bool-cases,
  inl, inr,
}
use mathlib.Core.List.{Perm}
use zenith_voip.Prelude.Result.{ok, Result-cases}
use zenith_voip.Prelude.Sorting.{sorted, Ordered, sorted-Perm, sorted-Ordered}
use zenith_voip.Text.{strip}
use zenith_voip.Transcript.Floats.{
  Floats, Le, max_of, max_of-left, max_of-right, min_of-left, min_of-glb,
}
use zenith_voip.Transcript.Segments.{
  Channel, tx, rx, speaker_of, get_or, RawSegment, Segment, normal, normalize_segments, Chunk,
  has_error, transcribe_channel, starts_before, transcribe_pair,
}

module _ (F : Floats) where
  open F use {
    Float, zero, one, less, add, sub, add_mono, zero_le_one, trans, less_asym, less_irrefl,
  }

  -- A segment of a chunk that begins at `offset`.
  pub record IsNormal (c : Channel) (offset : Float) (index : ℕ) (s : Segment F) : Type 0 where
    pub of_channel : s.channel ≡ c
    pub by_speaker : s.speaker ≡ speaker_of c
    pub of_chunk : s.chunk_index ≡ index
    pub has_text : is_empty s.text ≡ false
    pub above_zero : Le F zero s.confidence
    pub below_one : Le F s.confidence one
    pub in_chunk : Le F (add zero offset) s.start_time
    pub forward : Le F (add (sub s.start_time offset) offset) s.end_time

  normal-IsNormal :
      (c : Channel) (offset : Float) (index : ℕ) (raw : RawSegment F) (content : Text)
      → is_empty content ≡ false
      → IsNormal c offset index (normal F c offset index raw content)
  unfolding normal
  normal-IsNormal c offset index raw content h = record {
    of_channel = refl;
    by_speaker = refl;
    of_chunk = refl;
    has_text = h;
    above_zero =
        min_of-glb F one (max_of F zero (get_or raw.confidence zero)) zero zero_le_one
          (max_of-left F zero (get_or raw.confidence zero));
    below_one = min_of-left F one (max_of F zero (get_or raw.confidence zero));
    in_chunk =
        add_mono zero (max_of F zero (get_or raw.start zero)) offset
          (max_of-left F zero (get_or raw.start zero));
    forward =
        let start = add (max_of F zero (get_or raw.start zero)) offset in
        let from = sub start offset in
        add_mono from (max_of F (get_or raw.finish from) from) offset
          (max_of-right F (get_or raw.finish from) from);
  }

  -- Every segment that comes out of a chunk names the channel, its speaker and the chunk, has text,
  -- a confidence between 0.0 and 1.0, starts no earlier than the chunk's offset and ends no earlier
  -- than its start, the start being taken relative to the chunk and moved back.
  pub normalize_segments-IsNormal :
      (c : Channel) (offset : Float) (index : ℕ) (raws : List (RawSegment F))
      → All (IsNormal c offset index) (normalize_segments F c offset index raws)
  unfolding normalize_segments
  normalize_segments-IsNormal c offset index [] = tt
  normalize_segments-IsNormal c offset index (raw ∷ raws) =
      let content = strip (get_or raw.text []) in
      let rest = normalize_segments-IsNormal c offset index raws in
      elim (Bool-cases (is_empty content)) [
        | inl h ↦ rw (h, normalize_segments) rest
        | inr h ↦ rw (h, normalize_segments) (normal-IsNormal c offset index raw content h, rest)
      ]

  -- The segment that a raw one becomes, in the chunk that begins at `offset`.
  pub record IsFrom (c : Channel) (offset : Float) (index : ℕ) (raw : RawSegment F) (s : Segment F)
      : Type 0 where
    pub normal_segment : IsNormal c offset index s
    pub words : s.text ≡ strip (get_or raw.text [])
    pub moved : s.start_time ≡ add (max_of F zero (get_or raw.start zero)) offset

  normal-IsFrom :
      (c : Channel) (offset : Float) (index : ℕ) (raw : RawSegment F)
      → is_empty (strip (get_or raw.text [])) ≡ false
      → IsFrom c offset index raw (normal F c offset index raw (strip (get_or raw.text [])))
  unfolding normal
  normal-IsFrom c offset index raw h = record {
    normal_segment = normal-IsNormal c offset index raw (strip (get_or raw.text [])) h;
    words = refl;
    moved = refl;
  }

  -- One segment for each raw one that has text, in their order.
  abbrev pub AreFrom : Channel → Float → ℕ → List (RawSegment F) → List (Segment F) → Type 0
  AreFrom c offset index [] ss = ss ≡ []
  AreFrom c offset index (raw ∷ raws) ss =
      ((is_empty (strip (get_or raw.text [])) ≡ true) × AreFrom c offset index raws ss)
      ⊎ ((s : Segment F) × (rest : List (Segment F)) × (ss ≡ s ∷ rest)
          × IsFrom c offset index raw s
          × AreFrom c offset index raws rest)

  -- The segments of the chunks of a channel, which follow each other: each chunk has the next index,
  -- and begins where the one before it ends.
  abbrev pub AreOfChannel : Channel → ℕ → Float → List (Chunk F) → List (Segment F) → Type 0
  AreOfChannel c index offset [] ss = ss ≡ []
  AreOfChannel c index offset (k ∷ ks) ss =
      (here : List (Segment F)) × (rest : List (Segment F)) × (here ++ rest ≡ ss)
      × AreFrom c offset index k.segments here
      × AreOfChannel c (index + 1) (add offset k.duration) ks rest

  normalize_segments-AreFrom :
      (c : Channel) (offset : Float) (index : ℕ) (raws : List (RawSegment F))
      → AreFrom c offset index raws (normalize_segments F c offset index raws)
  normalize_segments-AreFrom c offset index [] = unfold normalize_segments in refl
  normalize_segments-AreFrom c offset index (raw ∷ raws) =
      let content = strip (get_or raw.text []) in
      let first = normal F c offset index raw content in
      let others = normalize_segments F c offset index raws in
      let rest = normalize_segments-AreFrom c offset index raws in
      elim (Bool-cases (is_empty content)) [
        | inl h ↦
            let skipped : normalize_segments F c offset index (raw ∷ raws) ≡ others =
              unfold normalize_segments in ground (arith, h) in
            rw skipped (inl (h, rest))
        | inr h ↦
            let kept : normalize_segments F c offset index (raw ∷ raws) ≡ first ∷ others =
              unfold normalize_segments in ground (arith, h) in
            rw kept (inr (first, others, refl, normal-IsFrom c offset index raw h, rest))
      ]

  transcribe_channel_lem :
      (c : Channel) (index : ℕ) (offset : Float) (ks : List (Chunk F)) (ss : List (Segment F))
      → transcribe_channel F c index offset ks ≡ ok ss
      → AreOfChannel c index offset ks ss × All (λ k. has_error F k ≡ false) ks
  unfolding transcribe_channel
  transcribe_channel_lem c index offset [] ss h = (ground (arith, h), tt)
  transcribe_channel_lem c index offset (k ∷ ks) ss h = elim (Bool-cases (has_error F k)) [
    | inl e ↦ absurd (ground (arith, e, h))
    | inr e ↦ elim (Result-cases (transcribe_channel F c (index + 1) (add offset k.duration) ks)) [
      | inr (x, f) ↦ absurd (ground (arith, e, f, h))
      | inl (rest, f) ↦
          let (ps, qs) = transcribe_channel_lem c (index + 1) (add offset k.duration) ks rest f in
          let here = normalize_segments F c offset index k.segments in
          let whole : here ++ rest ≡ ss = ground (arith, e, f, h) in
          ((here, rest, whole, normalize_segments-AreFrom c offset index k.segments, ps), (e, qs))
    ]
  ]

  starts_before_asym : (a b : Segment F) → starts_before F a b ≡ true → starts_before F b a ≡ false
  starts_before_asym a b h =
      ground (arith, h, less_asym a.start_time b.start_time, less_asym b.start_time a.start_time)

  starts_before_trans :
      (a b c : Segment F)
      → starts_before F b a ≡ false
      → starts_before F c b ≡ false
      → starts_before F c a ≡ false
  starts_before_trans a b c h k = ground (
    arith,
    h,
    k,
    trans a.start_time b.start_time c.start_time,
    trans b.start_time c.start_time a.start_time,
    trans c.start_time a.start_time b.start_time,
  )

  -- When the transcription of a pair returns, no chunk had an error, and the segments are those of the
  -- two channels, in the order of their starts and, on a tie, by channel. In a channel there is one for
  -- each raw segment with text, with that text stripped; it names the channel, its speaker and the
  -- position of its chunk, starts where the raw one does, from zero at the earliest, moved by the
  -- durations of the chunks before, ends no earlier, the end being taken in the chunk, and has a
  -- confidence between 0.0 and 1.0.
  pub transcribe_pair-ok :
      (tx_chunks rx_chunks : List (Chunk F)) (ss : List (Segment F))
      → transcribe_pair F tx_chunks rx_chunks ≡ ok ss
      → ((a : List (Segment F)) × (b : List (Segment F)) × AreOfChannel tx 0 zero tx_chunks a
          × AreOfChannel rx 0 zero rx_chunks b
          × Perm ss (a ++ b))
        × Ordered (starts_before F) ss
        × All (λ k. has_error F k ≡ false) tx_chunks
        × All (λ k. has_error F k ≡ false) rx_chunks
  unfolding transcribe_pair
  transcribe_pair-ok tx_chunks rx_chunks ss h =
      elim (Result-cases (transcribe_channel F tx 0 zero tx_chunks)) [
        | inr (x, e) ↦ absurd (ground (arith, e, h))
        | inl (a, e) ↦ elim (Result-cases (transcribe_channel F rx 0 zero rx_chunks)) [
          | inr (x, f) ↦ absurd (ground (arith, e, f, h))
          | inl (b, f) ↦
              let (as', quiet) = transcribe_channel_lem tx 0 zero tx_chunks a e in
              let (bs, silent) = transcribe_channel_lem rx 0 zero rx_chunks b f in
              let whole : sorted (starts_before F) (a ++ b) ≡ ss = ground (arith, e, f, h) in
              (
                (a, b, as', bs, rw (← whole) (sorted-Perm (starts_before F) (a ++ b))),
                rw (← whole) (
                    sorted-Ordered (starts_before F) starts_before_asym starts_before_trans
                      (a ++ b)),
                quiet,
                silent,
              )
        ]
      ]
