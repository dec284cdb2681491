-- ===== src/Transcript/Owned/Steps.antt =====
-- What each step of a transcription changes, whether it answers, fails or is cancelled.
use zenith_voip.Prelude.{
  ℕ, ◌≡◌, refl, Bool, true, List, Text, text_eq, arith, ◌⊎◌, inl, inr, Bool-cases, Option-cases,
  ◌∙◌, one_of,
}
use zenith_voip.Prelude.Result.{Result, ok, err}
use zenith_voip.Consumers.{mark_consumed, marker, all_consumer_chars}
use zenith_voip.Workers.{Failure, Run, M, wait_for}
use zenith_voip.Workers.Leased.{wait_for_ind}
use zenith_voip.Smb.Publish.{Published}
use zenith_voip.Transcript.Floats.{Floats}
use zenith_voip.Transcript.Segments.{Segment}
use zenith_voip.Transcript.Publisher.{Publisher}
use zenith_voip.Transcript.Owned.{
  transcription, delete_rows, World, Job, transcribed, with_rows, persist_segments, content,
  publish_content, mark_transcribed, remote_names, transcribe, commit, cut_commit, publication,
  cut_publication, listing,
}
use zenith_voip.Transcript.Owned.Rows.{
  select_rows, select_rows-replace_rows, delete_rows-replace_rows,
}

module _ (F : Floats) (P : Publisher) (milliseconds : F.Float → ℕ) (two_decimals : F.Float → Text)
    (j : Job F P) where
  open P use {Holds}

  abbrev pub rendered : List (Segment F) → Text
  rendered ss = content F P milliseconds two_decimals j ss

  -- The state holds the transcript of the call: its rows are the segments of the audio, and on the
  -- share there is a file with the hash of their rendering under the transcript's name.
  pub record IsTranscribed (w : World F P) : Type 0 where
    pub segments : List (Segment F)
    pub from_audio : transcribed F P j ≡ ok segments
    pub in_rows : select_rows j.database_id w.rows ≡ segments
    pub on_share : Holds w.share j.remote_dir j.remote_md_name (rendered segments)

  -- From `v` to `w` the other calls' rows are the same, and the markers too, unless `w` holds the
  -- transcript.
  pub record Keeps (v w : World F P) : Type 0 where
    pub others : delete_rows j.database_id w.rows ≡ delete_rows j.database_id v.rows
    pub marks : (w.marked ≡ v.marked) ⊎ IsTranscribed w

  -- Neither the markers nor the rows of other calls have changed.
  pub record IsQuiet (v w : World F P) : Type 0 where
    pub others : delete_rows j.database_id w.rows ≡ delete_rows j.database_id v.rows
    pub marks : w.marked ≡ v.marked

  pub IsQuiet-trans : {u v w : World F P} → IsQuiet u v → IsQuiet v w → IsQuiet u w
  IsQuiet-trans p q = record { others = q.others ∙ p.others; marks = q.marks ∙ p.marks }

  pub IsQuiet-Keeps : {v w : World F P} → IsQuiet v w → Keeps v w
  IsQuiet-Keeps p = record { others = p.others; marks = inl p.marks }

  -- What a step of the operation does: nothing to markers and other rows, and more when it answers.
  abbrev Step : {A : Type 0} → (A → World F P → World F P → Type 0) → M (World F P) A → Type 0
  Step {A} Post m =
      (r : Run (World F P))
      → IsQuiet r.world (m r).1.world × ((a : A) → (m r).0 ≡ ok a → Post a r.world (m r).1.world)

  pub unchanged : (w : World F P) → IsQuiet w w
  unchanged w = record { others = refl; marks = refl }

  step_wait :
      {A : Type 0} (Post : A → World F P → World F P → Type 0)
      (f : World F P → Result Failure A × World F P) (cut : World F P → World F P)
      → ((w : World F P) → IsQuiet w (f w).1 × ((a : A) → (f w).0 ≡ ok a → Post a w (f w).1))
      → ((w : World F P) → IsQuiet w (cut w))
      → Step Post (wait_for f cut)
  step_wait {A} Post f cut does undone r =
      wait_for_ind (λ x w. IsQuiet r.world w × ((a : A) → x ≡ ok a → Post a r.world w)) f cut r
        (does r.world) (undone r.world, λ a h. absurd (ground (arith, h)))

  abbrev Posts : Type 0 → Type 1
  Posts A = A → World F P → World F P → Type 0

  abbrev heard : Posts (List (Segment F))
  heard ss v w = transcribed F P j ≡ ok ss

  pub transcribe_lem : Step heard (transcribe F P j)
  unfolding transcribe
  transcribe_lem =
      step_wait heard (λ w. (transcribed F P j, w)) (λ w. w) (λ w. (unchanged w, λ ss h. h))
        unchanged

  abbrev listed : Posts (Text → Bool)
  listed names v w = Unit {0}

  pub remote_names_lem : Step listed (remote_names F P j)
  unfolding remote_names
  remote_names_lem =
      step_wait listed (listing F P j) (λ w. w)
        (λ w. (record { others = refl; marks = refl }, λ a h. tt)) unchanged

  abbrev stored : List (Segment F) → Posts (Unit {0})
  stored ss a v w = select_rows j.database_id w.rows ≡ ss

  with_rows-IsQuiet : (ss : List (Segment F)) (w : World F P) → IsQuiet w (with_rows F P j ss w)
  with_rows-IsQuiet ss w = record {
    others = delete_rows-replace_rows j.database_id ss w.rows;
    marks = refl;
  }

  pub persist_segments_lem : (ss : List (Segment F)) → Step (stored ss) (persist_segments F P j ss)
  unfolding persist_segments
  persist_segments_lem ss =
      step_wait (stored ss) (commit F P j ss) (cut_commit F P j ss)
        (λ w. elim (Option-cases j.database_error) [
          | inl n ↦
              let e : commit F P j ss w ≡ (ok tt, with_rows F P j ss w) =
                unfold commit in ground (arith, n) in
              rw e (with_rows-IsQuiet ss w, λ a h. select_rows-replace_rows j.database_id ss w.rows)
          | inr (x, n) ↦
              let e : commit F P j ss w ≡ (err x, w) = unfold commit in ground (arith, n) in
              rw e (unchanged w, λ a h. absurd (ground (arith, h)))
        ])
        (λ w. elim (Bool-cases j.commits_late) [
          | inl h ↦ simp h (with_rows-IsQuiet ss w)
          | inr h ↦ simp h (unchanged w)
        ])

  abbrev shared : List (Segment F) → Posts Published
  shared ss a v w = (w.rows ≡ v.rows) × Holds w.share j.remote_dir j.remote_md_name (rendered ss)

  pub publish_content_lem :
      (ss : List (Segment F))
      → Step (shared ss) (publish_content F P milliseconds two_decimals j ss)
  unfolding publish_content
  publish_content_lem ss =
      step_wait (shared ss) (publication F P milliseconds two_decimals j ss) (cut_publication F P j)
        (λ w. (
          record { others = refl; marks = refl },
          λ a h.
              let (held, name) =
                P.publish_text-ok (rendered ss) j.remote_dir j.remote_md_name j.remote_md_name
                  w.share a h in
              (refl, elim name [ inl e ↦ rw e at held | inr e ↦ rw e at held ]),
        ))
        (λ w. record { others = refl; marks = refl })

  module _ (r : Run (World F P)) where
    pub mark_transcribed_lem :
        ((mark_transcribed F P r).1.world.rows ≡ r.world.rows)
        × ((mark_transcribed F P r).1.world.share ≡ r.world.share)
        × (one_of transcription (mark_transcribed F P r).1.world.marked ≡ true)
    unfolding mark_transcribed mark_consumed marker all_consumer_chars one_of text_eq
    mark_transcribed_lem = (refl, refl, ground arith)
