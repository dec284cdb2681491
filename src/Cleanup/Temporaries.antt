-- ===== src/Cleanup/Temporaries.antt =====
-- Leases stop a cleanup, and a temporary is deleted only in the second round that finds it unchanged.
use zenith_voip.Prelude.{
  ℕ, ◌+◌, ◌*◌, ◌≤◌, ◌≡◌, refl, sym, ◌∙◌, ap, true, false, ◌&&◌, ◌==◌, Option, none, some, List, [],
  ◌∷◌, Text, codes, one_of, if◌then◌else◌, arith, Bool-cases, Option-cases, inl, inr,
}
use zenith_voip.Prelude.Dict.{Dict, lookup}
use zenith_voip.Prelude.Result.{ok, Result-cases}
use zenith_voip.Lease.{has_valid_lease, microseconds}
use zenith_voip.Lease.Protocol.{AllReadable}
use zenith_voip.Lease.Renewal.{FindsActive, has_valid_lease_iff}
use zenith_voip.Lease.Python.{Runtime, naive, aware}
use zenith_voip.Cleanup.{
  Fingerprint, Candidate, Directory, Settings, Usage, View, watch, action, temporary_action,
  is_over, seen, print_of, same_fingerprint, local_temporaries, Counts, no_counts, view, sweep,
  cleanup_call_directory,
}
use zenith_voip.Consumers.{is_fully_consumed}
use zenith_voip.Cleanup.Sweep.{deletes, watched, distinct, sweep-file, cleanup-cases}

-- While every lease file can be read and a lease of some stage is active, a cleanup deletes no
-- file and forgets the temporaries that it was watching.
pub cleanup-leased :
    (rt : Runtime) (s : Settings) (u : Usage) (cutoff now : ℕ) (d : Directory)
    → AllReadable d.leases
    → FindsActive rt now d.leases
    → cleanup_call_directory rt s u cutoff now d ≡ (ok no_counts, record d { candidates = [] })
unfolding cleanup_call_directory
cleanup-leased rt s u cutoff now d readable active =
    let (b, e, iff) = has_valid_lease_iff rt now d.leases readable in
    let valid : has_valid_lease rt now d.leases ≡ ok true = e ∙ ap ok (iff.1 active) in
    rw (cleanup_call_directory, valid) refl

view-fields :
    (s : Settings) (u : Usage) (cutoff now : ℕ) (consumed : List Text) (v : View)
    → view s u cutoff now consumed ≡ ok v
    → (v.now ≡ now) × (v.round_seconds ≡ s.round_seconds)
unfolding view
view-fields s u cutoff now consumed v h =
    elim (Result-cases (is_fully_consumed s.required_consumers consumed)) [
      | inr (e, f) ↦ absurd (ground (arith, f, h))
      | inl (full, f) ↦
          elim (Result-cases (is_fully_consumed (codes "transcription" ∷ []) consumed)) [
            | inr (e, g) ↦ absurd (ground (arith, f, g, h))
            | inl (done, g) ↦ (ground (arith, f, g, h), ground (arith, f, g, h))
          ]
    ]

same_fingerprint_refl : (f : Fingerprint) → same_fingerprint (some f) f ≡ true
same_fingerprint_refl f = ground arith

-- The text of a first observation, and that a round has passed since.
abbrev pub OverSince : Runtime → ℕ → ℕ → Option Candidate → Type 0
OverSince rt now seconds c =
    (t : Text) × (since : ℕ) × (seen c ≡ some t)
    × (rt.fromisoformat t ≡ some (aware since))
    × (since + seconds * microseconds ≤ now)

is_over-since :
    (rt : Runtime) (v : View) (c : Option Candidate)
    → is_over rt v (seen c) ≡ true
    → (v.round_seconds == 0) ≡ false
    → OverSince rt v.now v.round_seconds c
unfolding is_over
is_over-since rt v c h r = elim (Option-cases (seen c)) [
  | inl e ↦ absurd (ground (arith, e, h, r))
  | inr (t, e) ↦ elim (Option-cases (rt.fromisoformat t)) [
    | inl p ↦ absurd (ground (arith, e, p, h, r))
    | inr (naive n, p) ↦ absurd (ground (arith, e, p, h, r))
    | inr (aware n, p) ↦ (t, n, e, p, ground (arith, e, p, h))
  ]
]

temporary-deletes :
    (rt : Runtime) (v : View) (old : Dict Candidate) (n : Text) (f : Fingerprint)
    → one_of n local_temporaries ≡ true
    → deletes (action rt v old n f) ≡ true
    → (same_fingerprint (print_of (lookup n old)) f ≡ true)
      × (is_over rt v (seen (lookup n old)) ≡ true)
unfolding action temporary_action
temporary-deletes rt v old n f t h =
    elim (Bool-cases
      (same_fingerprint (print_of (lookup n old)) f && is_over rt v (seen (lookup n old)))) [
        | inl e ↦ (ground (arith, e), ground (arith, e))
        | inr e ↦ absurd (ground (arith, e, t, h))
      ]

-- With a round of positive length and distinct file names, a temporary that a cleanup removes was
-- observed before with the same inode, size and modification time, and at least one round has
-- passed since that observation.
pub cleanup-temporary_old :
    (rt : Runtime) (s : Settings) (u : Usage) (cutoff now : ℕ) (d : Directory) (n : Text)
    (f : Fingerprint)
    → (s.round_seconds == 0) ≡ false
    → distinct d.files ≡ true
    → one_of n local_temporaries ≡ true
    → lookup n d.files ≡ some f
    → lookup n (cleanup_call_directory rt s u cutoff now d).1.files ≡ none
    → (same_fingerprint (print_of (lookup n d.candidates)) f ≡ true)
      × OverSince rt now s.round_seconds (lookup n d.candidates)
cleanup-temporary_old rt s u cutoff now d n f round one temporary h gone =
    elim (cleanup-cases rt s u cutoff now d) [
      | inl (same, zero) ↦ absurd (ground (arith, same, h, gone))
      | inr (v, l, w, fs, cs, r) ↦
          let (at_now, seconds) = view-fields s u cutoff now d.consumed v w in
          let (there, _) = sweep-file rt v d.candidates n f d.files one h in
          let removed : deletes (action rt v d.candidates n f) ≡ true =
            ground (arith, there, fs, gone) in
          let (same, over) = temporary-deletes rt v d.candidates n f temporary removed in
          let since =
            is_over-since rt v (lookup n d.candidates) over (ap (λ x. x == 0) seconds ∙ round) in
          (same, rw (sym at_now, sym seconds) since)
    ]

abbrev pub first_look : Runtime → ℕ → Fingerprint → Candidate
first_look rt now f = record { first_seen = some (rt.isoformat now); fingerprint = some f }

first_action :
    (rt : Runtime) (v : View) (old : Dict Candidate) (n : Text) (f : Fingerprint)
    → one_of n local_temporaries ≡ true
    → lookup n old ≡ none
    → action rt v old n f ≡ watch (first_look rt v.now f)
unfolding action temporary_action
first_action rt v old n f t h = ground (arith, t, h)

second_action :
    (rt : Runtime) (v : View) (old : Dict Candidate) (n : Text) (f : Fingerprint) (before : ℕ)
    → one_of n local_temporaries ≡ true
    → lookup n old ≡ some (first_look rt before f)
    → before + v.round_seconds * microseconds ≤ v.now
    → deletes (action rt v old n f) ≡ true
unfolding action temporary_action is_over
second_action rt v old n f before t h over =
    ground (
      arith,
      t,
      h,
      over,
      rt.isoformat_nonempty before,
      rt.read_back before,
      same_fingerprint_refl f,
    )

-- The observations and files after a pass of the loop.
passed :
    (rt : Runtime) (s : Settings) (u : Usage) (cutoff now : ℕ) (d : Directory) (m : Counts)
    → has_valid_lease rt now d.leases ≡ ok false
    → (cleanup_call_directory rt s u cutoff now d).0 ≡ ok m
    → (v : View) × (v.now ≡ now)
      × (v.round_seconds ≡ s.round_seconds)
      × ((cleanup_call_directory rt s u cutoff now d).1.files
          ≡ (sweep rt v d.candidates d.files).files)
      × ((cleanup_call_directory rt s u cutoff now d).1.candidates
          ≡ (sweep rt v d.candidates d.files).candidates)
unfolding cleanup_call_directory
passed rt s u cutoff now d m free h = elim (Result-cases (view s u cutoff now d.consumed)) [
  | inr (e, w) ↦ absurd (ground (arith, free, w, h))
  | inl (v, w) ↦
      let (at_now, seconds) = view-fields s u cutoff now d.consumed v w in
      (v, at_now, seconds, ground (arith, free, w), ground (arith, free, w))
]

-- A temporary that is not watched yet, in a directory with distinct file names, survives a cleanup
-- that returns and meets no lease, and is gone after another such cleanup of the same files with
-- the observations of the first, at least one round later.
pub cleanup-temporary_rounds :
    (rt : Runtime) (s : Settings) (u u' : Usage) (cutoff cutoff' now now' : ℕ) (d d' : Directory)
    (n : Text) (f : Fingerprint) (m m' : Counts)
    → one_of n local_temporaries ≡ true
    → distinct d.files ≡ true
    → lookup n d.files ≡ some f
    → lookup n d.candidates ≡ none
    → has_valid_lease rt now d.leases ≡ ok false
    → (cleanup_call_directory rt s u cutoff now d).0 ≡ ok m
    → d'.candidates ≡ (cleanup_call_directory rt s u cutoff now d).1.candidates
    → d'.files ≡ d.files
    → has_valid_lease rt now' d'.leases ≡ ok false
    → (cleanup_call_directory rt s u' cutoff' now' d').0 ≡ ok m'
    → now + s.round_seconds * microseconds ≤ now'
    → (lookup n (cleanup_call_directory rt s u cutoff now d).1.files ≡ some f)
      × (lookup n (cleanup_call_directory rt s u' cutoff' now' d').1.files ≡ none)
cleanup-temporary_rounds rt s u u' cutoff cutoff' now now' d d' n f m m' temporary one h fresh free
      ran kept same free' ran' later =
    let (v, at_now, seconds, fs, cs) = passed rt s u cutoff now d m free ran in
    let (w, at_now', seconds', fs', cs') = passed rt s u' cutoff' now' d' m' free' ran' in
    let look = first_action rt v d.candidates n f temporary fresh in
    let (file, seen_now) = sweep-file rt v d.candidates n f d.files one h in
    let known : lookup n d'.candidates ≡ some (first_look rt now f) =
      ap (lookup n) (kept ∙ cs)
      ∙ seen_now
      ∙ ap watched look
      ∙ ap (λ t. some (first_look rt t f)) at_now in
    let over : now + w.round_seconds * microseconds ≤ w.now = rw (at_now', seconds') later in
    let gone = second_action rt w d'.candidates n f now temporary known over in
    let (file', _) =
      sweep-file rt w d'.candidates n f d'.files (ap distinct same ∙ one)
        (ap (lookup n) same ∙ h) in
    (
      ap (lookup n) fs ∙ file ∙ ap (λ a. if deletes a then none else some f) look,
      ap (lookup n) fs' ∙ file' ∙ ap (λ b. if b then none else some f) gone,
    )
