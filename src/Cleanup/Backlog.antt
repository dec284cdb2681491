-- ===== src/Cleanup/Backlog.antt =====
-- The recordings that the transcription has still to read.
use zenith_voip.Prelude.{
  ℕ, ◌≡◌, refl, sym, ◌∙◌, ap, Bool, true, false, not, ◌&&◌, none, some, List, [], ◌∷◌, ◌⊎◌, Text,
  codes, text_eq, text_eq_iff, one_of, if◌then◌else◌, arith, Bool-cases, inl, inr,
}
use zenith_voip.Prelude.Dict.{Dict, lookup}
use zenith_voip.Prelude.Result.{ok, Result-cases}
use zenith_voip.Lease.Python.{Runtime}
use zenith_voip.Consumers.{
  is_fully_consumed, all_marked, marker, all_consumer_chars, is_fully_consumed-one,
}
use zenith_voip.Cleanup.{
  Fingerprint, Candidate, Directory, Settings, Usage, View, keep, action, other_action,
  backlog_files, is_roomy, view, cleanup_call_directory,
}
use zenith_voip.Cleanup.Sweep.{deletes, distinct, sweep-file, cleanup-cases}

view_lem :
    (s : Settings) (u : Usage) (cutoff now : ℕ) (consumed : List Text) (v : View)
    → view s u cutoff now consumed ≡ ok v
    → (done : Bool) × (is_fully_consumed s.required_consumers consumed ≡ ok v.fully_consumed)
      × (is_fully_consumed (codes "transcription" ∷ []) consumed ≡ ok done)
      × (v.preserve_backlog
          ≡ (one_of (codes "transcription") s.required_consumers && not done && is_roomy s u))
unfolding view
view_lem s u cutoff now consumed v h =
    elim (Result-cases (is_fully_consumed s.required_consumers consumed)) [
      | inr (e, f) ↦ absurd (ground (arith, f, h))
      | inl (full, f) ↦
          elim (Result-cases (is_fully_consumed (codes "transcription" ∷ []) consumed)) [
            | inr (e, g) ↦ absurd (ground (arith, f, g, h))
            | inl (done, g) ↦ (done, ground (arith, f, g, h), g, ground (arith, f, g, h))
          ]
    ]

transcription_open :
    (consumed : List Text)
    → one_of (codes "transcription") consumed ≡ false
    → is_fully_consumed (codes "transcription" ∷ []) consumed ≡ ok false
unfolding is_fully_consumed all_marked marker all_consumer_chars
transcription_open consumed h = ground (arith, h)

backlog_names :
    (n : Text) → one_of n backlog_files ≡ true → (n ≡ codes "tx.wav") ⊎ (n ≡ codes "rx.wav")
unfolding one_of
backlog_names n h = elim (Bool-cases (text_eq (codes "tx.wav") n)) [
  | inl e ↦ inl (sym ((text_eq_iff (codes "tx.wav") n).0 e))
  | inr e ↦ elim (Bool-cases (text_eq (codes "rx.wav") n)) [
    | inl g ↦ inr (sym ((text_eq_iff (codes "rx.wav") n).0 g))
    | inr g ↦ absurd (ground (arith, e, g, h))
  ]
]

kept-wav :
    (rt : Runtime) (v : View) (old : Dict Candidate) (n : Text) (f : Fingerprint)
    → one_of n backlog_files ≡ true
    → v.fully_consumed ≡ false
    → v.preserve_backlog ≡ true
    → action rt v old n f ≡ keep
unfolding action other_action one_of text_eq
kept-wav rt v old n f h full kept = elim (backlog_names n h) [
  | inl e ↦ rw (e, full, kept) (ground (arith, full, kept))
  | inr e ↦ rw (e, full, kept) (ground (arith, full, kept))
]

not_full :
    (required consumed : List Text) (b : Bool)
    → is_fully_consumed required consumed ≡ ok b
    → one_of (codes "transcription") required ≡ true
    → one_of (codes "transcription") consumed ≡ false
    → b ≡ false
not_full required consumed false h r c = refl
not_full required consumed true h r c =
    absurd (ground (arith, is_fully_consumed-one required consumed (codes "transcription") h r, c))

-- While transcription is a required consumer that has not taken the recording, and the disk has
-- the free space at which recording resumes, a cleanup of a directory with distinct file names
-- keeps tx.wav and rx.wav, however old they are and whatever the other consumers have done.
pub cleanup-backlog :
    (rt : Runtime) (s : Settings) (u : Usage) (cutoff now : ℕ) (d : Directory) (n : Text)
    (f : Fingerprint)
    → one_of (codes "transcription") s.required_consumers ≡ true
    → one_of (codes "transcription") d.consumed ≡ false
    → is_roomy s u ≡ true
    → distinct d.files ≡ true
    → one_of n backlog_files ≡ true
    → lookup n d.files ≡ some f
    → lookup n (cleanup_call_directory rt s u cutoff now d).1.files ≡ some f
cleanup-backlog rt s u cutoff now d n f required untaken roomy one wav h =
    elim (cleanup-cases rt s u cutoff now d) [
      | inl (same, zero) ↦ ap (lookup n) same ∙ h
      | inr (v, l, w, fs, cs, r) ↦
          let (done, full, g, kept) = view_lem s u cutoff now d.consumed v w in
          let full' =
            not_full s.required_consumers d.consumed v.fully_consumed full required untaken in
          let kept' : v.preserve_backlog ≡ true =
            ground (arith, kept, required, roomy, g, transcription_open d.consumed untaken) in
          let stays = kept-wav rt v d.candidates n f wav full' kept' in
          let (there, _) = sweep-file rt v d.candidates n f d.files one h in
          ap (lookup n) fs ∙ there ∙ ap (λ a. if deletes a then none else some f) stays
    ]
