-- ===== src/Transcript/Cycle/Totals.antt =====
-- What a cycle counts, and which calls it processes.
use zenith_voip.Prelude.{
  ℕ, Text, ◌+◌, ◌≤◌, ◌≡◌, refl, Bool, true, false, none, some, not, ◌&&◌, ◌||◌, List, [], ◌∷◌,
  length, All, arith, Bool-cases, Option-cases, inl, inr, ◌⊎◌, if◌then◌else◌,
}
use zenith_voip.Prelude.Result.{Result, ok, err, Result-cases}
use zenith_voip.Workers.{Failure, cancelled, caught, uncaught}
use zenith_voip.Transcript.Reference.{Reference}
use zenith_voip.Transcript.Owned.{audio_remote_missing, timeout, Reply, pending, done}
use zenith_voip.Transcript.Cycle.{
  Visit, Verdict, processed, decide, visit_call, visit_calls, completed_cycle, run_cycle,
  run_transcript_cycle,
}

-- Whether the cycle processes the call, as long as nothing raises: its audio is complete, the log has a
-- reference, the database knows the call, its recording is on the share, and its transcript is missing
-- there, or the call has neither rows nor a marker.
abbrev pub lacks : Visit → Bool → Result Failure Bool → Bool
lacks v has_transcript (ok rows) = not has_transcript || (not v.consumed && not rows)
lacks v has_transcript (err e) = false

abbrev pub is_due : Visit → Reference → Result Failure Bool → Result Failure (Text → Bool) → Bool
is_due v r (ok true) (ok names) =
    names r.remote_wav_name && lacks v (names r.remote_md_name) v.has_rows
is_due v r _ _ = false

abbrev pub is_processed : Visit → Bool
is_processed v =
    v.ready && elim v.reference [ none ↦ false | some r ↦ is_due v r v.known v.remote_names ]

-- The answers that count as a publication and as a failure.
abbrev pub is_published : Result Failure Reply → Bool
is_published (ok (done n p)) = true
is_published _ = false

abbrev pub is_unfinished : Result Failure Reply → Bool
is_unfinished (ok (pending timeout)) = true
is_unfinished (ok (pending audio_remote_missing)) = true
is_unfinished _ = false

-- How a visit ends.
abbrev pub is_done : Result Failure Verdict → Bool
is_done (ok (processed (done n p))) = true
is_done _ = false

abbrev pub has_failed : Result Failure Verdict → Bool
has_failed (ok (processed (pending timeout))) = true
has_failed (ok (processed (pending audio_remote_missing))) = true
has_failed (err (caught name)) = true
has_failed _ = false

abbrev pub escapes : Result Failure Verdict → Bool
escapes (err (uncaught name)) = true
escapes (err cancelled) = true
escapes _ = false

abbrev pub is_caught : {A : Type 0} → Result Failure A → Bool
is_caught (err (caught name)) = true
is_caught _ = false

-- Whether what the cycle asks of the database and the share, before it processes the call, raises.
abbrev pub breaks : Visit → Reference → Result Failure Bool → Result Failure (Text → Bool) → Bool
breaks v r (ok true) (ok names) =
    names r.remote_wav_name && not (v.consumed && names r.remote_md_name) && is_caught v.has_rows
breaks v r (ok true) (err e) = is_caught {A = Bool} (err e)
breaks v r (ok false) names = false
breaks v r (err e) names = is_caught {A = Bool} (err e)

abbrev pub publishes : Visit → Bool
publishes v = is_processed v && is_published v.outcome

abbrev pub fails : Visit → Bool
fails v =
    (v.ready && elim v.reference [ none ↦ false | some r ↦ breaks v r v.known v.remote_names ])
    || (is_processed v && (is_unfinished v.outcome || is_caught v.outcome))

unfoldable pub count_visits : (Visit → Bool) → List Visit → ℕ
count_visits test [] = 0
count_visits test (v ∷ vs) = let rest = count_visits test vs in if test v then rest + 1 else rest

decide-counts :
    (v : Visit) (has_transcript : Bool)
    → let works = lacks v has_transcript v.has_rows in
      (is_done (decide v has_transcript) ≡ (works && is_published v.outcome))
      × (has_failed (decide v has_transcript) ≡ (
          (not (v.consumed && has_transcript) && is_caught v.has_rows)
          || (works && (is_unfinished v.outcome || is_caught v.outcome))))
unfolding decide
decide-counts v has_transcript = elim (Result-cases v.has_rows) [
  | inr (x, e) ↦ ground (arith, e)
  | inl (rows, e) ↦ elim (Result-cases v.outcome) [
    | inr (y, o) ↦ ground (arith, e, o)
    | inl (done n p, o) ↦ ground (arith, e, o)
    | inl (pending r, o) ↦ ground (arith, e, o)
  ]
]

visit_call-counts :
    (v : Visit) → (is_done (visit_call v) ≡ publishes v) × (has_failed (visit_call v) ≡ fails v)
unfolding visit_call
visit_call-counts v = elim (Option-cases v.reference) [
  | inl e ↦ ground (arith, e)
  | inr (r, e) ↦ elim (Result-cases v.known) [
    | inr (x, k) ↦ ground (arith, e, k)
    | inl (false, k) ↦ ground (arith, e, k)
    | inl (true, k) ↦ elim (Result-cases v.remote_names) [
      | inr (x, n) ↦ ground (arith, e, k, n)
      | inl (names, n) ↦
          let (a, b) = decide-counts v (names r.remote_md_name) in ground (arith, e, k, n, a, b)
    ]
  ]
]

abbrev pub Contained : List Visit → Type 0
Contained = All (λ v. escapes (visit_call v) ≡ false)

visit_all_lem :
    (vs : List Visit) (n c f : ℕ)
    → Contained vs
    → visit_calls vs (record { calls_seen = n; completed = c; failures = f })
      ≡ ok (record {
        calls_seen = n;
        completed = c + count_visits publishes vs;
        failures = f + count_visits fails vs;
      })
unfolding visit_calls count_visits
visit_all_lem [] n c f h = ground arith
visit_all_lem (v ∷ vs) n c f (h, hs) = ground (
  arith,
  h,
  (visit_call-counts v).0,
  (visit_call-counts v).1,
  visit_all_lem vs n c f hs,
  visit_all_lem vs n (c + 1) f hs,
  visit_all_lem vs n c (f + 1) hs,
)

-- A cycle that is enabled and not already running, and in which every exception is of a class that it
-- catches, goes through all directories, whatever fails on the way: it answers how many there are; how
-- many calls were due and were published; and for how many the database or the share raised before the
-- call was processed, or a call that was due raised, ran out of time or missed its recording on the
-- share. A call that another worker has, or whose audio is incomplete, counts as neither.
pub run_transcript_cycle-counts :
    (vs : List Visit)
    → Contained vs
    → run_transcript_cycle false true vs
      ≡ ok (
          completed_cycle (record {
            calls_seen = length vs;
            completed = count_visits publishes vs;
            failures = count_visits fails vs;
          }))
unfolding run_transcript_cycle run_cycle
run_transcript_cycle-counts vs h = ground (arith, visit_all_lem vs (length vs) 0 0 h)

-- No call counts twice.
count_visits-le : (vs : List Visit) → count_visits publishes vs + count_visits fails vs ≤ length vs
unfolding count_visits
count_visits-le [] = omega arith
count_visits-le (v ∷ vs) = ground (arith, count_visits-le vs)

decide-processed :
    (v : Visit) (has_transcript : Bool) (r : Reply)
    → decide v has_transcript ≡ ok (processed r)
    → ((has_transcript ≡ false) ⊎ ((v.has_rows ≡ ok false) × (v.consumed ≡ false)))
      × (v.outcome ≡ ok r)
unfolding decide
decide-processed v false r h = elim (Result-cases v.has_rows) [
  | inr (x, e) ↦ absurd (ground (arith, e, h))
  | inl (b, e) ↦ elim (Result-cases v.outcome) [
    | inr (x, f) ↦ absurd (ground (arith, e, f, h))
    | inl (o, f) ↦ (inl refl, ground (arith, e, f, h))
  ]
]
decide-processed v true r h = elim (Bool-cases v.consumed) [
  | inl c ↦ absurd (ground (arith, c, h))
  | inr c ↦ elim (Result-cases v.has_rows) [
    | inr (x, e) ↦ absurd (ground (arith, c, e, h))
    | inl (true, e) ↦ absurd (ground (arith, c, e, h))
    | inl (false, e) ↦ elim (Result-cases v.outcome) [
      | inr (x, f) ↦ absurd (ground (arith, c, e, f, h))
      | inl (o, f) ↦ (inr (e, c), ground (arith, c, e, f, h))
    ]
  ]
]

-- A call is processed only when its audio is complete, the log has a reference, the database knows
-- the call and its recording is on the share; and then its transcript is missing on the share, or it
-- has neither rows nor a marker.
pub visit_call-processed :
    (v : Visit) (r : Reply)
    → visit_call v ≡ ok (processed r)
    → (v.ready ≡ true)
      × (v.known ≡ ok true)
      × ((ref : Reference) × (v.reference ≡ some ref)
          × ((names : Text → Bool) × (v.remote_names ≡ ok names)
              × (names ref.remote_wav_name ≡ true)
              × ((names ref.remote_md_name ≡ false)
                  ⊎ ((v.has_rows ≡ ok false) × (v.consumed ≡ false)))))
      × (v.outcome ≡ ok r)
unfolding visit_call
visit_call-processed v r h = elim (Bool-cases v.ready) [
  | inr a ↦ absurd (ground (arith, a, h))
  | inl a ↦ elim (Option-cases v.reference) [
    | inl b ↦ absurd (ground (arith, a, b, h))
    | inr (ref, b) ↦ elim (Result-cases v.known) [
      | inr (x, c) ↦ absurd (ground (arith, a, b, c, h))
      | inl (false, c) ↦ absurd (ground (arith, a, b, c, h))
      | inl (true, c) ↦ elim (Result-cases v.remote_names) [
        | inr (x, d) ↦ absurd (ground (arith, a, b, c, d, h))
        | inl (names, d) ↦ elim (Bool-cases (names ref.remote_wav_name)) [
          | inr e ↦ absurd (ground (arith, a, b, c, d, e, h))
          | inl e ↦
              let (why, o) =
                decide-processed v (names ref.remote_md_name) r
                  (ground (arith, a, b, c, d, e, h)) in
              (a, c, (ref, b, (names, d, e, why)), o)
        ]
      ]
    ]
  ]
]
