-- ===== src/Transcript/Owned/Publication.antt =====
-- A recording is marked as transcribed only when its transcript is in the database and on the share.
use zenith_voip.Prelude.{
  ℕ, ◌≡◌, Bool, true, false, List, Text, arith, inl, inr, Bool-cases, ◌∙◌, if◌then◌else◌, one_of,
  length, not,
}
use zenith_voip.Prelude.Result.{Result, ok, err}
use zenith_voip.Workers.{Failure, Run, M, pure, ◌>>=◌, ◌>>◌}
use zenith_voip.Workers.Leased.{bind_ind}
use zenith_voip.Smb.Publish.{Published}
use zenith_voip.Transcript.Floats.{Floats}
use zenith_voip.Transcript.Segments.{Segment}
use zenith_voip.Transcript.Publisher.{Publisher}
use zenith_voip.Transcript.Owned.{
  Reason, audio_incomplete, audio_remote_missing, Reply, pending, done, transcription, World, Job,
  transcribed, persist_segments, content, publish_content, mark_transcribed, remote_names,
  transcribe, write_transcript, process_owned_call,
}
use zenith_voip.Transcript.Owned.Rows.{select_rows}
use zenith_voip.Transcript.Owned.Steps.{
  IsQuiet, Keeps, IsTranscribed, IsQuiet-trans, IsQuiet-Keeps, unchanged, transcribe_lem,
  remote_names_lem, persist_segments_lem, publish_content_lem, mark_transcribed_lem,
}

module _ (F : Floats) (P : Publisher) (milliseconds : F.Float → ℕ) (two_decimals : F.Float → Text)
    (j : Job F P) where
  open P use {Holds}

  abbrev pub Quiet : World F P → World F P → Type 0
  Quiet = IsQuiet F P milliseconds two_decimals j

  abbrev pub Kept : World F P → World F P → Type 0
  Kept = Keeps F P milliseconds two_decimals j

  abbrev pub Transcribed : World F P → Type 0
  Transcribed = IsTranscribed F P milliseconds two_decimals j

  -- An answer of the operation that is not a reason to wait comes with a transcript and a marker.
  abbrev pub Answers : Reply → World F P → Type 0
  Answers (pending why) w = Unit
  Answers (done n published) w = Transcribed w × (one_of transcription w.marked ≡ true)

  abbrev pub After : World F P → Result Failure Reply × Run (World F P) → Type 0
  After v o = Kept v o.1.world × ((a : Reply) → o.0 ≡ ok a → Answers a o.1.world)

  answered :
      (w : World F P) (n : ℕ) (p : Published)
      → Answers (done n p) w
      → (a : Reply) → ◌≡◌ {A = Result Failure Reply} (ok (done n p)) (ok a)
      → Answers a w
  answered w n p h (pending why) e = tt
  answered w n p h (done m q) e = h

  waits :
      {v : World F P} (why : Reason) (r : Run (World F P))
      → Quiet v r.world
      → After v (ok (pending why), r)
  waits why r q = (IsQuiet-Keeps F P milliseconds two_decimals j q, λ a h. waited r.world why a h)
    where
      waited :
          (w : World F P) (why : Reason) (a : Reply)
          → ◌≡◌ {A = Result Failure Reply} (ok (pending why)) (ok a)
          → Answers a w
      waited w why (pending x) e = tt
      waited w why (done n p) e = absurd (ground (arith, e))

  fails-After :
      {v : World F P} (x : Failure) (r : Run (World F P)) → Quiet v r.world → After v (err x, r)
  fails-After x r q =
      (IsQuiet-Keeps F P milliseconds two_decimals j q, λ a h. absurd (ground (arith, h)))

  abbrev pub marks_done : List (Segment F) → Published → M (World F P) Reply
  marks_done ss published = mark_transcribed F P >> pure (done (length ss) published)

  abbrev pub publishes : List (Segment F) → M (World F P) Reply
  publishes ss = publish_content F P milliseconds two_decimals j ss >>= marks_done ss

  abbrev pub persists : List (Segment F) → M (World F P) Reply
  persists ss = persist_segments F P j ss >> publishes ss

  marks_done_lem :
      (v : World F P) (ss : List (Segment F)) (published : Published) (r : Run (World F P))
      → Quiet v r.world
      → transcribed F P j ≡ ok ss
      → select_rows j.database_id r.world.rows ≡ ss
      → Holds r.world.share j.remote_dir j.remote_md_name
          (content F P milliseconds two_decimals j ss)
      → After v (marks_done ss published r)
  marks_done_lem v ss published r q heard_ss stored_ss held =
      let w = (mark_transcribed F P r).1.world in
      let marked = mark_transcribed_lem F P milliseconds two_decimals j r in
      let good : Transcribed w = record {
        segments = ss;
        from_audio = heard_ss;
        in_rows = rw marked.0 stored_ss;
        on_share = rw marked.1 held;
      } in
      let kept : Kept v w = record { others = rw marked.0 q.others; marks = inr good } in
      bind_ind (After v) (mark_transcribed F P) (λ _. pure (done (length ss) published)) r
        (λ x e. (kept, λ a h. absurd (ground (arith, h))))
        λ u e. (kept, answered w (length ss) published (good, marked.2))

  publishes_lem :
      (v : World F P) (ss : List (Segment F)) (r : Run (World F P))
      → Quiet v r.world
      → transcribed F P j ≡ ok ss
      → select_rows j.database_id r.world.rows ≡ ss
      → After v (publishes ss r)
  publishes_lem v ss r q heard_ss stored_ss =
      let p = publish_content_lem F P milliseconds two_decimals j ss r in
      bind_ind (After v) (publish_content F P milliseconds two_decimals j ss) (marks_done ss) r
        (λ x e.
          fails-After x (publish_content F P milliseconds two_decimals j ss r).1
            (IsQuiet-trans F P milliseconds two_decimals j q p.0))
        λ published e.
          let (same, held) = p.1 published e in
          marks_done_lem v ss published (publish_content F P milliseconds two_decimals j ss r).1
            (IsQuiet-trans F P milliseconds two_decimals j q p.0) heard_ss (rw same stored_ss) held

  write_transcript_lem :
      (r : Run (World F P)) → After r.world (write_transcript F P milliseconds two_decimals j r)
  unfolding write_transcript
  write_transcript_lem r =
      let (q, heard_as) = transcribe_lem F P milliseconds two_decimals j r in
      bind_ind (After r.world) (transcribe F P j) persists r
        (λ x e. fails-After x (transcribe F P j r).1 q)
        λ ss e.
          let r1 = (transcribe F P j r).1 in
          let (q1, stored_as) = persist_segments_lem F P milliseconds two_decimals j ss r1 in
          bind_ind (After r.world) (persist_segments F P j ss) (λ _. publishes ss) r1
            (λ x f.
              fails-After x (persist_segments F P j ss r1).1
                (IsQuiet-trans F P milliseconds two_decimals j q q1))
            λ u f.
              publishes_lem r.world ss (persist_segments F P j ss r1).1
                (IsQuiet-trans F P milliseconds two_decimals j q q1) (heard_as ss e) (stored_as u f)

  abbrev pub looks : (Text → Bool) → M (World F P) Reply
  looks names =
      if not (names j.remote_wav_name)
      then pure (pending audio_remote_missing)
      else write_transcript F P milliseconds two_decimals j

  module _ (r : Run (World F P)) where
    pub not_ready :
        j.ready ≡ false
        → process_owned_call F P milliseconds two_decimals j r ≡ (ok (pending audio_incomplete), r)
    unfolding process_owned_call
    not_ready h = ground (arith, h)

    pub when_ready :
        j.ready ≡ true
        → process_owned_call F P milliseconds two_decimals j r ≡ (remote_names F P j >>= looks) r
    unfolding process_owned_call
    when_ready h = ground (arith, h)

  After-Quiet :
      {u v : World F P} (o : Result Failure Reply × Run (World F P))
      → Quiet u v
      → After v o
      → After u o
  After-Quiet o q (k, answers) = (
    record {
      others = k.others ∙ q.others;
      marks = elim k.marks [ inl e ↦ inl (e ∙ q.marks) | inr t ↦ inr t ];
    },
    answers,
  )

  looks_lem :
      (v : World F P) (names : Text → Bool) (r : Run (World F P))
      → Quiet v r.world
      → After v (looks names r)
  looks_lem v names r q =
      elim (names j.remote_wav_name)
        as (λ b. After v (
          (if not b
              then pure (pending audio_remote_missing)
              else write_transcript F P milliseconds two_decimals j)
            r)) [
              | false ↦ waits audio_remote_missing r q
              | true ↦
                  After-Quiet (write_transcript F P milliseconds two_decimals j r) q
                    (write_transcript_lem r)
            ]

  -- Wherever the operation fails or is cancelled, it leaves the rows of other calls alone, and it
  -- changes the markers only in a state that holds the transcript; an answer `done` comes with the
  -- transcript and the marker.
  pub process_owned_call-After :
      (r : Run (World F P)) → After r.world (process_owned_call F P milliseconds two_decimals j r)
  process_owned_call-After r = elim (Bool-cases j.ready) [
    | inr h ↦
        rw (not_ready r h)
          (waits audio_incomplete r (unchanged F P milliseconds two_decimals j r.world))
    | inl h ↦ rw (when_ready r h) (
        bind_ind (After r.world) (remote_names F P j) looks r
          (λ x e.
            fails-After x (remote_names F P j r).1
              (remote_names_lem F P milliseconds two_decimals j r).0)
          λ names e.
            looks_lem r.world names (remote_names F P j r).1
              (remote_names_lem F P milliseconds two_decimals j r).0)
  ]
