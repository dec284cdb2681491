-- ===== src/Transcript/Owned/Leased.antt =====
-- `process_call` of the transcript worker as a whole: its lease, and what it may leave behind.
use zenith_voip.Prelude.{
  ℕ, ◌<◌, ◌≡◌, refl, none, some, Text, inl, inr, arith, false, true, not, Bool-cases, if◌then◌else◌,
  Bool, length,
}
use zenith_voip.Prelude.Result.{Result, ok, err}
use zenith_voip.Lease.Python.{Runtime}
use zenith_voip.Lease.Protocol.{AllReadable}
use zenith_voip.Lease.{
  Stage, CallDir, RecordingLease, Request, read_lease, acquire_lease, find_owned,
}
use zenith_voip.Workers.{Failure, Ending, Run, pure, raced}
use zenith_voip.Workers.Leased.{
  under_lease-released, under_lease-busy, under_lease-keeps, raced-keeps, raced-dir, IsStill,
  wait_for-IsStill, bind-IsStill,
}
use zenith_voip.Transcript.Floats.{Floats}
use zenith_voip.Transcript.Publisher.{Publisher}
use zenith_voip.Transcript.Owned.{
  Reply, pending, timeout, already_processing, World, Job, done, audio_remote_missing,
  lease_request, transcription, transcribed, transcribe, commit, cut_commit, persist_segments,
  publication, cut_publication, publish_content, mark_transcribed, listing, remote_names,
  write_transcript, process_owned_call, process_call,
}
use zenith_voip.Transcript.Owned.Steps.{Keeps}
use zenith_voip.Transcript.Owned.Publication.{
  marks_done, publishes, persists, looks, not_ready, when_ready, process_owned_call-After,
}

module _ (F : Floats) (P : Publisher) (milliseconds : F.Float → ℕ) (two_decimals : F.Float → Text)
    (j : Job F P) where
  -- The operation does not touch the lease files.
  write_transcript-IsStill : IsStill (write_transcript F P milliseconds two_decimals j)
  unfolding write_transcript transcribe persist_segments publish_content mark_transcribed
  write_transcript-IsStill =
      bind-IsStill (transcribe F P j) (persists F P milliseconds two_decimals j)
        (wait_for-IsStill (λ w. (transcribed F P j, w)) (λ w. w))
        λ ss.
          bind-IsStill (persist_segments F P j ss)
            (λ _. publishes F P milliseconds two_decimals j ss)
            (wait_for-IsStill (commit F P j ss) (cut_commit F P j ss))
            λ u.
              bind-IsStill (publish_content F P milliseconds two_decimals j ss)
                (marks_done F P milliseconds two_decimals j ss)
                (wait_for-IsStill (publication F P milliseconds two_decimals j ss)
                  (cut_publication F P j))
                λ published.
                  bind-IsStill (mark_transcribed F P) (λ _. pure (done (length ss) published))
                    (λ r. refl) (λ v r. refl)

  looks-IsStill : (names : Text → Bool) → IsStill (looks F P milliseconds two_decimals j names)
  looks-IsStill names r =
      elim (names j.remote_wav_name)
        as (λ b.
          ((if not b
              then pure (pending audio_remote_missing)
              else write_transcript F P milliseconds two_decimals j)
            r).1.dir
          ≡ r.dir) [ false ↦ refl | true ↦ write_transcript-IsStill r ]

  process_owned_call-IsStill : IsStill (process_owned_call F P milliseconds two_decimals j)
  unfolding remote_names
  process_owned_call-IsStill r = elim (Bool-cases j.ready) [
    | inr h ↦ rw (not_ready F P milliseconds two_decimals j r h) refl
    | inl h ↦ rw (when_ready F P milliseconds two_decimals j r h) (
        bind-IsStill (remote_names F P j) (looks F P milliseconds two_decimals j)
          (wait_for-IsStill (listing F P j) (λ w. w)) looks-IsStill r)
  ]

module _ (F : Floats) (P : Publisher) (milliseconds : F.Float → ℕ) (two_decimals : F.Float → Text)
    (j : Job F P) (rt : Runtime) (q : Request) (meanwhile : CallDir → CallDir) (ending : Ending)
    (d : CallDir) (w : World F P) where
  abbrev pub after : Result Failure Reply × CallDir × World F P
  after = process_call F P milliseconds two_decimals rt q meanwhile ending j d w

  abbrev race : CallDir → World F P → Result Failure Reply × Run (World F P)
  race =
      raced (pending timeout) (λ f. err f) ending
        (process_owned_call F P milliseconds two_decimals j)

  -- Whatever the call meets, and wherever the end of its time, a lost lease or a failure stops it: it
  -- leaves the rows of other calls alone, and it changes the markers only in a state where the rows
  -- of the call are the segments of its audio and their rendering is on the share.
  pub process_call-Keeps : Keeps F P milliseconds two_decimals j w after.2
  unfolding process_call
  process_call-Keeps =
      under_lease-keeps rt (lease_request q) (pending already_processing) meanwhile race d w
        (Keeps F P milliseconds two_decimals j w) (record { others = refl; marks = inl refl })
        λ e.
          raced-keeps (Keeps F P milliseconds two_decimals j w) (pending timeout) (λ f. err f)
            ending (process_owned_call F P milliseconds two_decimals j) e w
            λ left.
              (process_owned_call-After F P milliseconds two_decimals j
                (record { left = left; dir = e; world = w })).0

  -- However the call ends, the owner that had got the lease of the stage has none at the end, if the
  -- lease files can then be read.
  pub process_call-released :
      (l : RecordingLease)
      → (acquire_lease rt (lease_request q) d).0 ≡ ok l
      → AllReadable (meanwhile (acquire_lease rt (lease_request q) d).1)
      → find_owned rt after.1 transcription l.owner ≡ ok none
  unfolding process_call
  process_call-released l h readable =
      under_lease-released rt (lease_request q) (pending already_processing) meanwhile race d w l h
        (rw
          (raced-dir (pending timeout) (λ f. err f) ending
            (process_owned_call F P milliseconds two_decimals j)
            (acquire_lease rt (lease_request q) d).1 w
            (process_owned_call-IsStill F P milliseconds two_decimals j))
          readable)

  -- While another worker has an active lease on the recording, at whatever stage, the call answers
  -- `already_processing` and leaves everything as it was.
  pub process_call-busy :
      (t : Stage) (a : RecordingLease)
      → AllReadable d
      → read_lease rt (d t) t ≡ ok (some a)
      → q.now < a.expires_at
      → after ≡ (ok (pending already_processing), d, w)
  unfolding process_call
  process_call-busy t a readable e active =
      under_lease-busy rt (lease_request q) (pending already_processing) meanwhile race d w t a
        readable e active (ground arith)
