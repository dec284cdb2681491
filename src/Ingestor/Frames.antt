-- ===== src/Ingestor/Frames.antt =====
-- The frames of a stream, and what their writes leave in the temporary files of the two channels.
use zenith_voip.Prelude.{
  ℕ, ◌≡◌, refl, sym, ap, ◌∙◌, true, Option, some, List, [], ◌∷◌, ◌++◌, Text, codes, text_eq,
  text_eq_refl, one_of, append_assoc, append-nil, arith, Option-cases, inl, inr,
}
use zenith_voip.Prelude.Dict.{lookup, lookup-insert}
use zenith_voip.Ingestor.{
  Recording, Ingestor, content, temporary_name, with_name, write_channel, split_stereo_frame,
  write_frame,
}

-- A sample of each channel, in the two bytes it has in a frame.
pub record Stereo : Type 0 where
  pub tx_low : ℕ
  pub tx_high : ℕ
  pub rx_low : ℕ
  pub rx_high : ℕ

-- How the samples stand in a frame.
unfoldable pub frame : List Stereo → Text
frame [] = []
frame (s ∷ ss) = s.tx_low ∷ s.tx_high ∷ s.rx_low ∷ s.rx_high ∷ frame ss

unfoldable pub tx_bytes : List Stereo → Text
tx_bytes [] = []
tx_bytes (s ∷ ss) = s.tx_low ∷ s.tx_high ∷ tx_bytes ss

unfoldable pub rx_bytes : List Stereo → Text
rx_bytes [] = []
rx_bytes (s ∷ ss) = s.rx_low ∷ s.rx_high ∷ rx_bytes ss

split-frame : (ss : List Stereo) → split_stereo_frame (frame ss) ≡ (tx_bytes ss, rx_bytes ss)
unfolding split_stereo_frame frame tx_bytes rx_bytes
split-frame [] = refl
split-frame (s ∷ ss) = rw (split-frame ss) refl

-- The frames of the stream, whose writes all succeed.
unfoldable pub write_frames : Text → List (List Stereo) → Ingestor → Ingestor
write_frames id [] w = w
write_frames id (f ∷ fs) w = write_frames id fs (write_frame (true, true) id (frame f) w)

unfoldable pub tx_all : List (List Stereo) → Text
tx_all [] = []
tx_all (f ∷ fs) = tx_bytes f ++ tx_all fs

unfoldable pub rx_all : List (List Stereo) → Text
rx_all [] = []
rx_all (f ∷ fs) = rx_bytes f ++ rx_all fs

abbrev pub tx : Text
tx = codes "tx"

abbrev pub rx : Text
rx = codes "rx"

-- The recording is in this directory, no channel failed, and this is in the temporary files.
pub record Holds (id dir : Text) (handles : List Text) (on_tx on_rx : Option Text) (w : Ingestor)
    : Type 0 where
  pub recording : Recording
  pub found : lookup id w.recordings ≡ some recording
  pub here : recording.directory ≡ dir
  pub opened : recording.handles ≡ handles
  pub sound : recording.failed_channels ≡ []
  pub tx_file : lookup (temporary_name tx) (w.files dir) ≡ on_tx
  pub rx_file : lookup (temporary_name rx) (w.files dir) ≡ on_rx

write_tx-Holds :
    (id dir more : Text) (hs : List Text) (a b : Option Text) (w : Ingestor)
    → Holds id dir hs a b w
    → Holds id dir
        (with_name tx hs)
        (some (content a ++ more))
        b
        (write_channel true id tx more w).1
unfolding write_channel one_of text_eq
write_tx-Holds id dir more hs a b w h =
    let r = h.recording in
    let n = temporary_name tx in
    let set = lookup-insert n n (content a ++ more) (w.files dir) in
    let other = lookup-insert n (temporary_name rx) (content a ++ more) (w.files dir) in
    let r' = record r { handles = with_name tx r.handles } in
    record {
      recording = r';
      found = ground (arith, h.found, lookup-insert id id r' w.recordings, text_eq_refl id);
      here = h.here;
      opened = ap (with_name tx) h.opened;
      sound = h.sound;
      tx_file = ground (arith, h.found, h.here, h.tx_file, text_eq_refl dir, set);
      rx_file = ground (arith, h.found, h.here, h.tx_file, h.rx_file, text_eq_refl dir, other);
    }

write_rx-Holds :
    (id dir more : Text) (hs : List Text) (a b : Option Text) (w : Ingestor)
    → Holds id dir hs a b w
    → Holds id dir
        (with_name rx hs)
        a
        (some (content b ++ more))
        (write_channel true id rx more w).1
unfolding write_channel one_of text_eq
write_rx-Holds id dir more hs a b w h =
    let r = h.recording in
    let n = temporary_name rx in
    let set = lookup-insert n n (content b ++ more) (w.files dir) in
    let other = lookup-insert n (temporary_name tx) (content b ++ more) (w.files dir) in
    let r' = record r { handles = with_name rx r.handles } in
    record {
      recording = r';
      found = ground (arith, h.found, lookup-insert id id r' w.recordings, text_eq_refl id);
      here = h.here;
      opened = ap (with_name rx) h.opened;
      sound = h.sound;
      tx_file = ground (arith, h.found, h.here, h.tx_file, h.rx_file, text_eq_refl dir, other);
      rx_file = ground (arith, h.found, h.here, h.rx_file, text_eq_refl dir, set);
    }

write_frame-halves :
    (id : Text) (f : List Stereo) (w : Ingestor)
    → write_frame (true, true) id (frame f) w
      ≡ (write_channel true id rx (rx_bytes f) (write_channel true id tx (tx_bytes f) w).1).1
unfolding write_frame
write_frame-halves id f w =
    ap (λ h. (write_channel true id rx h.1 (write_channel true id tx h.0 w).1).1) (split-frame f)

pub write_frame-Holds :
    (id dir : Text) (f : List Stereo) (hs : List Text) (a b : Option Text) (w : Ingestor)
    → Holds id dir hs a b w
    → Holds id dir
        (with_name rx (with_name tx hs))
        (some (content a ++ tx_bytes f))
        (some (content b ++ rx_bytes f))
        (write_frame (true, true) id (frame f) w)
write_frame-Holds id dir f hs a b w h = rw (write_frame-halves id f w) (
    write_rx-Holds id dir (rx_bytes f) (with_name tx hs) (some (content a ++ tx_bytes f)) b
      (write_channel true id tx (tx_bytes f) w).1 (write_tx-Holds id dir (tx_bytes f) hs a b w h))

pub write_frames-Holds :
    (id dir a b : Text) (fs : List (List Stereo)) (w : Ingestor)
    → Holds id dir (tx ∷ rx ∷ []) (some a) (some b) w
    → Holds id dir
        (tx ∷ rx ∷ [])
        (some (a ++ tx_all fs))
        (some (b ++ rx_all fs))
        (write_frames id fs w)
unfolding write_frames tx_all rx_all one_of text_eq
write_frames-Holds id dir a b [] w h = rw (append-nil a, append-nil b) h
write_frames-Holds id dir a b (f ∷ fs) w h =
    rw
      (sym (append_assoc a (tx_bytes f) (tx_all fs)), sym (append_assoc b (rx_bytes f) (rx_all fs)))
      (write_frames-Holds id dir (a ++ tx_bytes f) (b ++ rx_bytes f) fs
        (write_frame (true, true) id (frame f) w)
        (write_frame-Holds id dir f (tx ∷ rx ∷ []) (some a) (some b) w h))

write_channel-uploads :
    (id channel more : Text) (w : Ingestor)
    → (write_channel true id channel more w).1.uploads ≡ w.uploads
unfolding write_channel
write_channel-uploads id channel more w = elim (Option-cases (lookup id w.recordings)) [
  | inl n ↦ ground (arith, n)
  | inr (r, n) ↦ ground (arith, n)
]

pub write_frames-uploads :
    (id : Text) (fs : List (List Stereo)) (w : Ingestor)
    → (write_frames id fs w).uploads ≡ w.uploads
unfolding write_frames write_frame
write_frames-uploads id [] w = refl
write_frames-uploads id (f ∷ fs) w =
    let halves = split_stereo_frame (frame f) in
    let once = (write_channel true id tx halves.0 w).1 in
    write_frames-uploads id fs (write_frame (true, true) id (frame f) w)
    ∙ write_channel-uploads id rx halves.1 once
    ∙ write_channel-uploads id tx halves.0 w
