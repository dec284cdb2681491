-- ===== src/Transcript/Tests.antt =====
-- Runs of the transcript worker's parts.
use zenith_voip.Prelude.{
  ℕ, ◌+◌, ◌*◌, ◌-◌, ◌≡◌, refl, true, false, none, some, List, [], ◌∷◌, ◌++◌, Text, codes, ltb, All,
  arith, text_eq, one_of,
}
use mathlib.Core.List.{Perm}
use zenith_voip.Prelude.Result.{ok}
use zenith_voip.Prelude.Sorting.{Ordered, sorted, insert_sorted}
use zenith_voip.Text.{strip, lstrip, is_space, four_digits, two_digits}
use zenith_voip.Text.Decimal.{decimal, digits, pad_two, pad_three}
use zenith_voip.Consumers.{all_consumer_chars, mark_consumed, marker}
use zenith_voip.Smb.Publish.{
  publish, resolve_remote_name, remote_sha, or_clean_up, transfer,
  verify_remote_temporary_and_rename,
}
use zenith_voip.Lease.Examples.{
  py, asks, empty_dir, captured, captured-AllReadable, captured_lease, read_captured,
}
use zenith_voip.Lease.{
  capture, RecordingLease, find_owned, acquire_lease, new_lease, inspect, check_stages, read_lease,
  lease_path, find_stage, take_stage, write_lease,
}
use zenith_voip.Lease.{transcription as transcription_stage}
use zenith_voip.Smb.Publish.Examples.{in_memory, update}
use zenith_voip.Smb.Share.{path, join_path, join_nonempty, strip_all, strip_slashes}
use zenith_voip.Smb.Names.{format_day}
use zenith_voip.Transcript.Floats.{Floats}
use zenith_voip.Transcript.Segments.{
  tx, rx, RawSegment, Segment, normal, normalize_segments, Chunk, has_error, transcribe_channel,
  starts_before, transcribe_pair,
}
use zenith_voip.Transcript.Segments.Laws.{
  IsNormal, AreOfChannel, normalize_segments-IsNormal, transcribe_pair-ok,
}
use zenith_voip.Transcript.Markdown.{
  format_timestamp, CallMetadata, caption, join_lines, render_markdown, rstrip, segment_lines,
}
use zenith_voip.Transcript.Markdown.Timestamp.{read_timestamp, read_timestamp-format_timestamp}
use zenith_voip.Workers.{runs, times_out}
use zenith_voip.Transcript.Owned.{
  pending, already_processing, World, Job, remote_names, write_transcript, transcribe, commit,
  persist_segments, publish_content, delete_rows, mark_transcribed, replace_rows, rows_of,
  process_owned_call, process_call,
}
use zenith_voip.Transcript.Owned.Steps.{Keeps}
use zenith_voip.Transcript.Owned.Publication.{After, process_owned_call-After}
use zenith_voip.Transcript.Owned.Leased.{
  process_call-Keeps, process_call-released, process_call-busy,
}
use zenith_voip.Transcript.Publisher.{Publisher, smb_publisher, list_names}

natural_less_irrefl : (a : ℕ) → ltb a a ≡ false
natural_less_irrefl a = ground arith

natural_less_asym : (a b : ℕ) → ltb a b ≡ true → ltb b a ≡ false
natural_less_asym a b h = ground arith

natural_trans : (a b c : ℕ) → ltb b a ≡ false → ltb c b ≡ false → ltb c a ≡ false
natural_trans a b c h k = ground arith

natural_add_mono : (a b c : ℕ) → ltb b a ≡ false → ltb (b + c) (a + c) ≡ false
natural_add_mono a b c h = ground arith

abbrev natural : Floats
natural = record {
  Float = ℕ;
  zero = 0;
  one = 1;
  less = ltb;
  add = ◌+◌;
  sub = ◌-◌;
  less_irrefl = natural_less_irrefl;
  less_asym = natural_less_asym;
  trans = natural_trans;
  add_mono = natural_add_mono;
  zero_le_one = refl;
}

abbrev said : ℕ → Text → RawSegment natural
said n t = record { text = some t; start = some n; finish = some (n + 2); confidence = some 3 }

abbrev chunk : ℕ → Text → Chunk natural
chunk n t = record { error = none; segments = said n t ∷ said n (codes " ") ∷ []; duration = 10 }

normalize_segments-IsNormal_test :
    All
      (IsNormal natural tx 10 1)
      (normalize_segments natural tx 10 1 (said 4 (codes "oi") ∷ said 5 (codes " ") ∷ []))
normalize_segments-IsNormal_test = normalize_segments-IsNormal natural tx 10 1 _

abbrev heard : List (Segment natural)
heard =
    normal natural rx 0 0 (said 1 (codes "sim")) (codes "sim")
    ∷ normal natural tx 0 0 (said 4 (codes "oi")) (codes "oi")
    ∷ []

transcribe_pair_run :
    transcribe_pair natural (chunk 4 (codes "oi") ∷ []) (chunk 1 (codes "sim") ∷ []) ≡ ok heard
unfolding transcribe_pair transcribe_channel normalize_segments strip lstrip is_space sorted
    insert_sorted normal
transcribe_pair_run = refl

transcribe_pair-ok_example :
    ((a : List (Segment natural)) × (b : List (Segment natural)) × AreOfChannel natural tx 0 0
        (chunk 4 (codes "oi") ∷ [])
        a
      × AreOfChannel natural rx 0 0 (chunk 1 (codes "sim") ∷ []) b
      × Perm heard (a ++ b))
    × Ordered (starts_before natural) heard
    × All (λ k. has_error natural k ≡ false) (chunk 4 (codes "oi") ∷ [])
    × All (λ k. has_error natural k ≡ false) (chunk 1 (codes "sim") ∷ [])
transcribe_pair-ok_example =
    transcribe_pair-ok natural (chunk 4 (codes "oi") ∷ []) (chunk 1 (codes "sim") ∷ []) heard
      transcribe_pair_run

read_timestamp-format_timestamp_example : read_timestamp (format_timestamp 3_723_004) ≡ 3_723_004
read_timestamp-format_timestamp_example = read_timestamp-format_timestamp 3_723_004

abbrev call_metadata : CallMetadata
call_metadata = record {
  tenant_id = codes "t";
  call_id = codes "call";
  started_at = record { year = 2026; month = 1; day = 2; hour = 3; minute = 4; second = 5 };
  caller_number = codes "1";
  callee_number = codes "2";
}

abbrev share : Publisher
share = smb_publisher in_memory (λ t. t) []

abbrev seconds : ℕ → ℕ
seconds n = n * 1000

abbrev plain : ℕ → Text
plain n = (b'0' + n) ∷ []

abbrev job : Job natural share
job = record {
  metadata = call_metadata;
  database_id = codes "7";
  remote_dir = codes "t";
  remote_wav_name = codes "a.wav";
  remote_md_name = codes "a.md";
  ready = true;
  tx_chunks = chunk 4 (codes "oi") ∷ [];
  rx_chunks = chunk 1 (codes "sim") ∷ [];
  database_error = none;
  commits_late = false;
  cut_publish = λ s. s;
}

-- The recording is on the share, and another call has a transcript.
abbrev world : World natural share
world = record {
  rows = (codes "6", normal natural rx 0 0 (said 1 (codes "sim")) (codes "sim")) ∷ [];
  share = update (path (codes "t") (codes "a.wav")) (some (codes "x")) (λ p. none);
  marked = [];
}

process_owned_call-After_example : After natural share seconds plain job world (
    process_owned_call natural share seconds plain job
      (record { left = none; dir = empty_dir; world = world }))
process_owned_call-After_example =
    process_owned_call-After natural share seconds plain job
      (record { left = none; dir = empty_dir; world = world })

-- The call is cut while its transcript is being published.
process_call-Keeps_example :
    Keeps natural share seconds plain job world
      (process_call natural share seconds plain py
        (asks (codes "transcription") none 5)
        (λ e. e)
        (times_out 3)
        job
        empty_dir
        world).2
process_call-Keeps_example =
    process_call-Keeps natural share seconds plain job py (asks (codes "transcription") none 5)
      (λ e. e) (times_out 3) empty_dir world

abbrev transcribing : RecordingLease
transcribing = new_lease transcription_stage (asks (codes "transcription") none 5)

acquire_run : (acquire_lease py (asks (codes "transcription") none 5) empty_dir).0 ≡ ok transcribing
unfolding acquire_lease inspect check_stages read_lease lease_path find_stage text_eq take_stage
    write_lease
acquire_run = refl

process_call-released_test :
    find_owned py
      (process_call natural share seconds plain py
        (asks (codes "transcription") none 5)
        (λ e. captured)
        runs
        job
        empty_dir
        world).1
      (codes "transcription")
      (codes "u1")
    ≡ ok none
process_call-released_test =
    process_call-released natural share seconds plain job py (asks (codes "transcription") none 5)
      (λ e. captured) runs empty_dir world transcribing acquire_run captured-AllReadable

process_call-busy_test :
    process_call natural share seconds plain py
      (asks (codes "transcription") none 6)
      (λ e. e)
      runs
      job
      captured
      world
    ≡ (ok (pending already_processing), captured, world)
process_call-busy_test =
    process_call-busy natural share seconds plain job py (asks (codes "transcription") none 6)
      (λ e. e) runs captured world capture captured_lease captured-AllReadable read_captured
      (omega arith)

-- The whole operation marks the recording.
published_marks :
    (process_owned_call natural share seconds plain job
      (record { left = none; dir = empty_dir; world = world })).1.world.marked
    ≡ codes "transcription" ∷ []
unfolding process_owned_call remote_names list_names text_eq join_path join_nonempty strip_all
    strip_slashes write_transcript transcribe transcribe_pair transcribe_channel persist_segments
    commit publish_content publish resolve_remote_name remote_sha all_consumer_chars mark_consumed
    marker insert_sorted sorted one_of format_day or_clean_up transfer
    verify_remote_temporary_and_rename decimal digits pad_three pad_two four_digits is_space lstrip
    strip two_digits caption format_timestamp join_lines render_markdown rstrip segment_lines
    delete_rows mark_transcribed replace_rows rows_of normal normalize_segments
published_marks = refl
