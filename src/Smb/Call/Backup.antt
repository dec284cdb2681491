-- ===== src/Smb/Call/Backup.antt =====
-- A recording is marked as backed up only when it is on the share, and no audio goes away.
use zenith_voip.Prelude.{
  ◌≡◌, refl, Bool, true, false, not, Text, codes, text_eq, one_of, arith, ◌⊎◌, inl, inr,
  if◌then◌else◌,
}
use zenith_voip.Prelude.Result.{Result, ok, err, Result-cases}
use zenith_voip.Consumers.{mark_consumed, marker, all_consumer_chars}
use zenith_voip.Lease.Python.{Runtime}
use zenith_voip.Smb.Cycle.{Reason, Outcome, published, waits, mono_pair_incomplete}
use zenith_voip.Smb.Names.{build_remote_name}
use zenith_voip.Smb.Publish.{Published}
use zenith_voip.Transcript.Publisher.{Publisher}
use zenith_voip.Workers.{Failure, Run, M, pure, ◌>>=◌, ◌>>◌}
use zenith_voip.Workers.Leased.{wait_for_ind, bind_ind}
use zenith_voip.Smb.Call.{
  smb_stage, World, Job, ensure_mono_pair, render_stereo, generate_stereo, cleaned,
  clean_temporaries, remote_name, remote_dir, publication, publish_stereo, mark_backed_up,
  unlink_stereo, back_up, process_call_unbounded,
}
use zenith_voip.Smb.Call.Quiet.{
  IsBackedUp, Keeps, IsQuiet, unchanged, quiet_trans, QuietCode, wait_quiet, ensure_mono_pair_quiet,
}

module _ (P : Publisher) (j : Job P) where
  open P use {Holds}

  abbrev pub Answers : Outcome → World P → Type 0
  Answers (waits why) w = Unit
  Answers (published sha name) w = IsBackedUp P j w × (one_of smb_stage w.marked ≡ true)

  abbrev pub After : World P → Result Failure Outcome × Run (World P) → Type 0
  After v o = Keeps P j v o.1.world × ((a : Outcome) → o.0 ≡ ok a → Answers a o.1.world)

  quiet_Keeps : {v w : World P} → IsQuiet P j v w → Keeps P j v w
  quiet_Keeps q = record { audio = q.audio; marks = inl q.marks }

  fails :
      {v : World P} (x : Failure) (r : Run (World P)) → IsQuiet P j v r.world → After v (err x, r)
  fails x r q = (quiet_Keeps q, λ a h. absurd (ground (arith, h)))

  -- A quiet step that may fail, and what follows it.
  quiet_then :
      {A : Type 0} (v : World P) (m : M (World P) A) (f : A → M (World P) Outcome)
      (r : Run (World P))
      → IsQuiet P j v r.world
      → QuietCode P j m
      → ((a : A) → (m r).0 ≡ ok a → IsQuiet P j v (m r).1.world → After v (f a (m r).1))
      → After v ((m >>= f) r)
  quiet_then v m f r q quiet next =
      let q' = quiet_trans P j q (quiet r) in
      bind_ind (After v) m f r (λ x e. fails x (m r).1 q') (λ a e. next a e q')

  generate_stereo_quiet : QuietCode P j (generate_stereo P j)
  unfolding generate_stereo
  generate_stereo_quiet =
      wait_quiet P j (render_stereo P j) (λ w. w)
        (λ w. record {
          audio = record { tx = λ h. ground (arith, h); rx = λ h. ground (arith, h) };
          marks = ground arith;
        })
        (unchanged P j)

  shared : (w : World P) (s : P.State) → IsQuiet P j w (record w { share = s })
  shared w s = record { audio = record { tx = λ h. h; rx = λ h. h }; marks = refl }

  clean_temporaries_quiet : QuietCode P j (clean_temporaries P j)
  unfolding clean_temporaries
  clean_temporaries_quiet =
      wait_quiet P j (cleaned P j) (λ w. record w { share = j.cut_cleanup w.share })
        (λ w. shared w (j.cleanup w.share).1) (λ w. shared w (j.cut_cleanup w.share))

  remote_name_lem :
      (suffix : Bool) (r : Run (World P))
      → IsQuiet P j r.world (remote_name P j suffix r).1.world
        × ((name : Text)
            → (remote_name P j suffix r).0 ≡ ok name
            → build_remote_name j.parts (codes "wav") suffix ≡ ok name)
  unfolding remote_name
  remote_name_lem suffix r = elim (Result-cases (build_remote_name j.parts (codes "wav") suffix)) [
    | inl (n, e) ↦ rw (e, remote_name) (unchanged P j r.world, λ name h. ground (arith, h))
    | inr (x, e) ↦ rw (e, remote_name) (unchanged P j r.world, λ name h. absurd (ground (arith, h)))
  ]

  publish_stereo_lem :
      (base other_name : Text) (r : Run (World P))
      → IsQuiet P j r.world (publish_stereo P j base other_name r).1.world
        × ((a : Published)
            → (publish_stereo P j base other_name r).0 ≡ ok a
            → Holds
                (publish_stereo P j base other_name r).1.world.share
                (remote_dir P j)
                a.remote_name
                j.content
              × ((a.remote_name ≡ base) ⊎ (a.remote_name ≡ other_name)))
  unfolding publish_stereo
  publish_stereo_lem base other_name r =
      wait_for_ind
        (λ x w.
          IsQuiet P j r.world w
          × ((a : Published)
              → x ≡ ok a
              → Holds w.share (remote_dir P j) a.remote_name j.content
                × ((a.remote_name ≡ base) ⊎ (a.remote_name ≡ other_name))))
        (publication P j base other_name) (λ w. record w { share = j.cut_publish w.share }) r
        (
          shared r.world _,
          P.publish_text-ok j.content (remote_dir P j) base other_name r.world.share,
        )
        (shared r.world _, λ a h. absurd (ground (arith, h)))

  answered :
      (w : World P) (sha name : Text)
      → Answers (published sha name) w
      → (a : Outcome) → ◌≡◌ {A = Result Failure Outcome} (ok (published sha name)) (ok a)
      → Answers a w
  answered w sha name h (waits why) e = tt
  answered w sha name h (published s n) e = h

  waiting :
      (w : World P) (why : Reason) (a : Outcome)
      → ◌≡◌ {A = Result Failure Outcome} (ok (waits why)) (ok a)
      → Answers a w
  waiting w why (waits x) e = tt
  waiting w why (published s n) e = absurd (ground (arith, e))

  marked_lem :
      (v : World P) (r : Run (World P)) (sha name : Text)
      → IsQuiet P j v r.world
      → IsBackedUp P j r.world
      → After v ((mark_backed_up P >> (unlink_stereo P >> pure (published sha name))) r)
  unfolding mark_backed_up mark_consumed marker all_consumer_chars one_of text_eq
  marked_lem v r sha name q b =
      let w = ((mark_backed_up P >> (unlink_stereo P >> pure (published sha name))) r).1.world in
      let good : IsBackedUp P j w = record {
        base = b.base;
        other_name = b.other_name;
        base_built = b.base_built;
        other_built = b.other_built;
        name = b.name;
        is_name = b.is_name;
        on_share = b.on_share;
      } in
      (
        record { audio = record { tx = q.audio.tx; rx = q.audio.rx }; marks = inr good },
        answered w sha name (good, ground arith),
      )

  abbrev pub marks : Published → M (World P) Outcome
  marks result =
      mark_backed_up P >> (unlink_stereo P >> pure (published result.sha256 result.remote_name))

  abbrev pub publishes : Text → Text → M (World P) Outcome
  publishes base other_name = publish_stereo P j base other_name >>= marks

  publishes_lem :
      (v : World P) (base other_name : Text) (r : Run (World P))
      → build_remote_name j.parts (codes "wav") false ≡ ok base
      → build_remote_name j.parts (codes "wav") true ≡ ok other_name
      → IsQuiet P j v r.world
      → After v (publishes base other_name r)
  publishes_lem v base other_name r b o q =
      let (quiet, held) = publish_stereo_lem base other_name r in
      let r' = (publish_stereo P j base other_name r).1 in
      bind_ind (After v) (publish_stereo P j base other_name) marks r
        (λ x e. fails x r' (quiet_trans P j q quiet))
        λ result e.
          marked_lem v r' result.sha256 result.remote_name (quiet_trans P j q quiet) (record {
            base = base;
            other_name = other_name;
            base_built = b;
            other_built = o;
            name = result.remote_name;
            is_name = (held result e).1;
            on_share = (held result e).0;
          })

  back_up_lem : (v : World P) (r : Run (World P)) → IsQuiet P j v r.world → After v (back_up P j r)
  unfolding back_up
  back_up_lem v r q =
      let r1 = (generate_stereo P j r).1 in
      let r2 = (remote_name P j false r1).1 in
      let r3 = (remote_name P j true r2).1 in
      quiet_then v (generate_stereo P j)
        (λ _. remote_name P j false >>= λ base.
          remote_name P j true >>= λ other_name. clean_temporaries P j >> publishes base other_name)
        r q generate_stereo_quiet
        λ _ _ q1.
          quiet_then v (remote_name P j false)
            (λ base. remote_name P j true >>= λ other_name.
              clean_temporaries P j >> publishes base other_name)
            r1 q1 (λ s. (remote_name_lem false s).0)
            λ base b q2.
              quiet_then v (remote_name P j true)
                (λ other_name. clean_temporaries P j >> publishes base other_name) r2 q2
                (λ s. (remote_name_lem true s).0)
                λ other_name o q3.
                  quiet_then v (clean_temporaries P j) (λ _. publishes base other_name) r3 q3
                    clean_temporaries_quiet
                    λ _ _ q4.
                      publishes_lem v base other_name (clean_temporaries P j r3).1
                        ((remote_name_lem false r1).1 base b)
                        ((remote_name_lem true r2).1 other_name o) q4

  abbrev pub looks : Bool → M (World P) Outcome
  looks pair = if not pair then pure (waits mono_pair_incomplete) else back_up P j

  looks_lem :
      (v : World P) (pair : Bool) (r : Run (World P))
      → IsQuiet P j v r.world
      → After v (looks pair r)
  looks_lem v false r q = (quiet_Keeps q, waiting r.world mono_pair_incomplete)
  looks_lem v true r q = back_up_lem v r q

  -- Wherever the backup of a call fails or is cancelled, no WAV file is lost, and the markers change
  -- only when the share holds the stereo file under one of the names of the call; an answer that it
  -- is published comes with the file on the share and the marker.
  pub process_call_unbounded-After :
      (rt : Runtime) (owner : Text) (r : Run (World P))
      → After r.world (process_call_unbounded P rt owner j r)
  unfolding process_call_unbounded
  process_call_unbounded-After rt owner r =
      quiet_then r.world (ensure_mono_pair P rt owner j) looks r (unchanged P j r.world)
        (ensure_mono_pair_quiet P j rt owner)
        λ pair _ q. looks_lem r.world pair (ensure_mono_pair P rt owner j r).1 q
