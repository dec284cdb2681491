-- ===== src/Cleanup/Sweep.antt =====
-- What one pass of the loop does to each file, and its totals.
use zenith_voip.Prelude.{
  ℕ, ◌+◌, ◌≡◌, refl, Bool, true, false, not, ◌&&◌, Option, none, some, [], ◌∷◌, Text, text_eq,
  text_eq_iff, length, if◌then◌else◌, arith, Bool-cases, inl, inr, ◌⊎◌,
}
use zenith_voip.Prelude.Dict.{Dict, lookup, contains}
use zenith_voip.Prelude.Result.{ok, Result-cases}
use zenith_voip.Lease.{has_valid_lease}
use zenith_voip.Lease.Python.{Runtime}
use zenith_voip.Cleanup.{
  Fingerprint, Candidate, Directory, Settings, Usage, View, Action, keep, delete, delete_temporary,
  watch, action, Counts, no_counts, sweep, view, cleanup_call_directory,
}

abbrev pub deletes : Action → Bool
deletes keep = false
deletes delete = true
deletes delete_temporary = true
deletes (watch c) = false

abbrev pub watched : Action → Option Candidate
watched keep = none
watched delete = none
watched delete_temporary = none
watched (watch c) = some c

-- No two files have one name.
unfoldable pub distinct {ℓ} : {V : Type ℓ} → Dict V → Bool
distinct [] = true
distinct ((k, v) ∷ d) = not (contains k d) && distinct d

unfoldable pub total_size : Dict Fingerprint → ℕ
total_size [] = 0
total_size ((k, f) ∷ d) = f.size + total_size d

Action-cases :
    (a : Action)
    → (a ≡ keep) ⊎ ((a ≡ delete) ⊎ ((a ≡ delete_temporary) ⊎ ((c : Candidate) × (a ≡ watch c))))
Action-cases keep = inl refl
Action-cases delete = inr (inl refl)
Action-cases delete_temporary = inr (inr (inl refl))
Action-cases (watch c) = inr (inr (inr (c, refl)))

module _ (rt : Runtime) (v : View) (old : Dict Candidate) where
  pub sweep-absent :
      (n : Text) (fs : Dict Fingerprint)
      → lookup n fs ≡ none
      → (lookup n (sweep rt v old fs).files ≡ none)
        × (lookup n (sweep rt v old fs).candidates ≡ none)
  unfolding sweep lookup
  sweep-absent n [] h = (refl, refl)
  sweep-absent n ((k, f) ∷ fs) h = elim (Action-cases (action rt v old k f)) [
    | inl a ↦ ground (arith, a, sweep-absent n fs)
    | inr (inl a) ↦ ground (arith, a, sweep-absent n fs)
    | inr (inr (inl a)) ↦ ground (arith, a, sweep-absent n fs)
    | inr (inr (inr (c, a))) ↦ ground (arith, a, sweep-absent n fs)
  ]

  pub sweep-file :
      (n : Text) (f : Fingerprint) (fs : Dict Fingerprint)
      → distinct fs ≡ true
      → lookup n fs ≡ some f
      → (lookup n (sweep rt v old fs).files
          ≡ (if deletes (action rt v old n f) then none else some f))
        × (lookup n (sweep rt v old fs).candidates ≡ watched (action rt v old n f))
  unfolding sweep lookup distinct
  sweep-file n f [] d h = absurd (ground arith)
  sweep-file n f ((k, g) ∷ fs) d h = elim (Bool-cases (text_eq k n)) [
    | inl e ↦
        let gone : lookup n fs ≡ none = ground (arith, text_eq_iff k n, e, d) in
        elim (Action-cases (action rt v old k g)) [
          | inl a ↦ ground (arith, a, text_eq_iff k n, sweep-absent n fs gone)
          | inr (inl a) ↦ ground (arith, a, text_eq_iff k n, sweep-absent n fs gone)
          | inr (inr (inl a)) ↦ ground (arith, a, text_eq_iff k n, sweep-absent n fs gone)
          | inr (inr (inr (c, a))) ↦ ground (arith, a, text_eq_iff k n, sweep-absent n fs gone)
        ]
    | inr e ↦ elim (Action-cases (action rt v old k g)) [
      | inl a ↦ ground (arith, a, e, sweep-file n f fs)
      | inr (inl a) ↦ ground (arith, a, e, sweep-file n f fs)
      | inr (inr (inl a)) ↦ ground (arith, a, e, sweep-file n f fs)
      | inr (inr (inr (c, a))) ↦ ground (arith, a, e, sweep-file n f fs)
    ]
  ]

  -- Every file and every byte is kept or counted as deleted.
  sweep-totals :
      (fs : Dict Fingerprint)
      → (length fs ≡ length (sweep rt v old fs).files + (sweep rt v old fs).counts.deleted)
        × (total_size fs
            ≡ total_size (sweep rt v old fs).files + (sweep rt v old fs).counts.bytes_freed)
  unfolding sweep total_size
  sweep-totals [] = (refl, refl)
  sweep-totals ((k, f) ∷ fs) = elim (Action-cases (action rt v old k f)) [
    | inl a ↦ ground (arith, a, sweep-totals fs)
    | inr (inl a) ↦ ground (arith, a, sweep-totals fs)
    | inr (inr (inl a)) ↦ ground (arith, a, sweep-totals fs)
    | inr (inr (inr (c, a))) ↦ ground (arith, a, sweep-totals fs)
  ]

-- How a cleanup ends: with a raise or a lease it keeps the files, else it is one pass of the loop.
pub cleanup-cases :
    (rt : Runtime) (s : Settings) (u : Usage) (cutoff now : ℕ) (d : Directory)
    → let after = (cleanup_call_directory rt s u cutoff now d).1 in
      let r = (cleanup_call_directory rt s u cutoff now d).0 in
      ((after.files ≡ d.files) × ((n : Counts) → r ≡ ok n → n ≡ no_counts))
      ⊎ ((v : View) × (has_valid_lease rt now d.leases ≡ ok false)
          × (view s u cutoff now d.consumed ≡ ok v)
          × (after.files ≡ (sweep rt v d.candidates d.files).files)
          × (after.candidates ≡ (sweep rt v d.candidates d.files).candidates)
          × (r ≡ ok (sweep rt v d.candidates d.files).counts))
unfolding cleanup_call_directory
cleanup-cases rt s u cutoff now d = elim (Result-cases (has_valid_lease rt now d.leases)) [
  | inr (e, l) ↦ inl (ground (arith, l), λ n h. absurd (ground (arith, l, h)))
  | inl (b, l) ↦ elim (Bool-cases b) [
    | inl t ↦ inl (ground (arith, l, t), λ n h. ground (arith, l, t, h))
    | inr t ↦ elim (Result-cases (view s u cutoff now d.consumed)) [
      | inr (e, w) ↦ inl (ground (arith, l, t, w), λ n h. absurd (ground (arith, l, t, w, h)))
      | inl (v, w) ↦ inr (
        v,
        ground (arith, l, t),
        w,
        ground (arith, l, t, w),
        ground (arith, l, t, w),
        ground (arith, l, t, w),
      )
    ]
  ]
]

-- A cleanup that returns reports how many files it deleted and how many bytes it freed.
pub cleanup-totals :
    (rt : Runtime) (s : Settings) (u : Usage) (cutoff now : ℕ) (d : Directory) (n : Counts)
    → (cleanup_call_directory rt s u cutoff now d).0 ≡ ok n
    → let after = (cleanup_call_directory rt s u cutoff now d).1 in
      (length d.files ≡ length after.files + n.deleted)
      × (total_size d.files ≡ total_size after.files + n.bytes_freed)
cleanup-totals rt s u cutoff now d n h = elim (cleanup-cases rt s u cutoff now d) [
  | inl (same, zero) ↦ ground (arith, same, zero n h)
  | inr (v, l, w, fs, cs, r) ↦ ground (arith, fs, r, h, sweep-totals rt v d.candidates d.files)
]
