-- ===== src/Smb/Cycle/Log.antt =====
-- What the transfer log says of a call.
use zenith_voip.Prelude.{
  ℕ, ◌≡◌, ◌≤◌, ◌+◌, ◌-◌, ◌∙◌, refl, Option, none, Bool, true, false, ◌&&◌, ◌||◌, some, List, [],
  ◌∷◌, Text, codes, text_eq, text_eq_iff, text_eq_refl, arith, Bool-cases, Option-cases, inl, inr,
}
use zenith_voip.Prelude.Dict.{Dict, lookup, lookup-insert}
use zenith_voip.Prelude.Result.{Result, ok, err}
use zenith_voip.Smb.Breaker.{CircuitBreaker, allows_request}
use zenith_voip.Smb.Cycle.{
  Visit, Cycle, Outcome, published, waits, Raised, collision, other, unavailable, failed, pending,
  Entry, done, is_done, is_closed, is_old, prune_transfer_log, retention, run_cycle, done_entry,
  pending_entry, error_entry, already_done, is_skipped, settle, visit_all,
}

abbrev pub is_published : Result Raised Outcome → Bool
is_published (ok (published sha name)) = true
is_published (ok (waits r)) = false
is_published (err e) = false

-- Some visit of the call publishes it.
unfoldable pub publishes : Text → List Visit → Bool
publishes k [] = false
publishes k (v ∷ vs) = (text_eq v.key k && is_published v.outcome) || publishes k vs

settle-others :
    (k : Text) (v : Visit) (c d : Cycle)
    → settle v c ≡ some d
    → text_eq v.key k ≡ false
    → lookup k d.log ≡ lookup k c.log
unfolding settle
settle-others k v c d h ne =
    elim v.outcome as (λ o. o ≡ v.outcome → lookup k d.log ≡ lookup k c.log) [
      | ok (published sha name) ↦ λ o. ground (
        arith,
        h,
        o,
        ne,
        lookup-insert v.key k (done_entry v (lookup v.key c.log) sha name) c.log,
      )
      | ok (waits r) ↦ λ o.
          ground
            (arith, h, o, ne, lookup-insert v.key k (pending_entry v (lookup v.key c.log) r) c.log)
      | err collision ↦ λ o. ground (
        arith,
        h,
        o,
        ne,
        lookup-insert v.key k (error_entry v failed (codes "RemoteCollisionError")) c.log,
      )
      | err (unavailable name) ↦
          λ o. ground (arith, h, o, ne, lookup-insert v.key k (error_entry v pending name) c.log)
      | err other ↦ λ o. absurd (ground (arith, h, o))
    ]
      refl

settle-done :
    (v : Visit) (c d : Cycle)
    → settle v c ≡ some d
    → already_done v.key c.log ≡ false
    → already_done v.key d.log ≡ is_published v.outcome
unfolding settle
settle-done v c d h ne =
    elim v.outcome as (λ o. o ≡ v.outcome → already_done v.key d.log ≡ is_published o) [
      | ok (published sha name) ↦ λ o. ground (
        arith,
        h,
        o,
        ne,
        text_eq_refl v.key,
        lookup-insert v.key v.key (done_entry v (lookup v.key c.log) sha name) c.log,
      )
      | ok (waits r) ↦ λ o. ground (
        arith,
        h,
        o,
        ne,
        text_eq_refl v.key,
        lookup-insert v.key v.key (pending_entry v (lookup v.key c.log) r) c.log,
      )
      | err collision ↦ λ o. ground (
        arith,
        h,
        o,
        ne,
        text_eq_refl v.key,
        lookup-insert v.key v.key (error_entry v failed (codes "RemoteCollisionError")) c.log,
      )
      | err (unavailable name) ↦ λ o. ground (
        arith,
        h,
        o,
        ne,
        text_eq_refl v.key,
        lookup-insert v.key v.key (error_entry v pending name) c.log,
      )
      | err other ↦ λ o. absurd (ground (arith, h, o))
    ]
      refl

-- The loop leaves the entry of a call that is done as it is, whatever it meets; and a call that is
-- done after it was done before it, or was published by one of its visits.
visit_all-done :
    (k : Text) (vs : List Visit) (c : Cycle)
    → (already_done k c.log ≡ true → lookup k (visit_all vs c).log ≡ lookup k c.log)
      × (already_done k (visit_all vs c).log ≡ true
          → (already_done k c.log || publishes k vs) ≡ true)
unfolding visit_all publishes
visit_all-done k [] c = (λ h. refl, λ h. ground (arith, h))
visit_all-done k (v ∷ vs) c =
    let b = (allows_request v.now c.breaker).1 in
    let c' = record c { breaker = b } in
    elim (Bool-cases (allows_request v.now c.breaker).0) [
      | inr f ↦ (λ h. ground (arith, f), λ h. ground (arith, f, h))
      | inl t ↦ elim (Bool-cases (is_skipped v c.log)) [
        | inl s ↦
            let (keeps, once) = visit_all-done k vs c' in
            (λ h. ground (arith, t, s, keeps, h), λ h. ground (arith, t, s, once, h))
        | inr s ↦ elim (Option-cases (settle v c')) [
          | inl n ↦ (λ h. ground (arith, t, s, n), λ h. ground (arith, t, s, n, h))
          | inr (d, n) ↦
              let (keeps, once) = visit_all-done k vs d in
              elim (Bool-cases (text_eq v.key k)) [
                | inr e ↦
                    let same = settle-others k v c' d n e in
                    (
                      λ h. ground (arith, t, s, n, same, keeps, h),
                      λ h. ground (arith, t, s, n, same, once, h),
                    )
                | inl e ↦
                    let here = (text_eq_iff v.key k).0 e in
                    let made = settle-done v c' d n (ground (arith, s)) in
                    (
                      λ h. absurd (ground (arith, s, here, h)),
                      λ h. ground (arith, t, s, n, e, here, made, once, h),
                    )
              ]
        ]
      ]
    ]

-- Some entry of the call is done.
unfoldable pub was_done : Text → Dict Entry → Bool
was_done k [] = false
was_done k ((j, e) ∷ log) = (text_eq j k && is_done e.status) || was_done k log

lookup-was_done : (k : Text) (log : Dict Entry) → already_done k log ≡ true → was_done k log ≡ true
unfolding was_done lookup
lookup-was_done k [] h = absurd (ground (arith, h))
lookup-was_done k ((j, e) ∷ log) h = ground (arith, h, lookup-was_done k log)

pruned-was_done :
    (cutoff : ℕ) (k : Text) (log : Dict Entry)
    → was_done k (prune_transfer_log cutoff log) ≡ true
    → was_done k log ≡ true
unfolding was_done prune_transfer_log
pruned-was_done cutoff k [] h = absurd (ground (arith, h))
pruned-was_done cutoff k ((j, e) ∷ log) h = ground (arith, h, pruned-was_done cutoff k log)

lookup-pruned :
    (cutoff : ℕ) (k : Text) (log : Dict Entry) (e : Entry)
    → lookup k log ≡ some e
    → is_old cutoff e.updated_at ≡ false
    → lookup k (prune_transfer_log cutoff log) ≡ some e
unfolding prune_transfer_log lookup
lookup-pruned cutoff k [] e h f = absurd (ground (arith, h))
lookup-pruned cutoff k ((j, x) ∷ log) e h f = elim (Bool-cases (text_eq j k)) [
  | inl same ↦
      let is : x ≡ e = ground (arith, same, h) in
      let young : is_old cutoff x.updated_at ≡ false = rw is f in ground (arith, same, young, is)
  | inr other_key ↦
      let below : lookup k (prune_transfer_log cutoff log) ≡ some e =
        lookup-pruned cutoff k log e (ground (arith, other_key, h)) f in
      elim (Bool-cases (is_closed x.status && is_old cutoff x.updated_at)) [
        | inl gone ↦ ground (arith, gone, below)
        | inr here ↦ ground (arith, here, other_key, below)
      ]
]

is_old_lem :
    (wall : ℕ) (updated_at : Option ℕ)
    → ((t : ℕ) → updated_at ≡ some t → wall ≤ t + 604_800_000_000)
    → is_old (wall - retention) updated_at ≡ false
is_old_lem wall none h = refl
is_old_lem wall (some t) h = let near = h t refl in ground (arith, near)

-- A cycle, enabled or not and whatever it meets, leaves the entry of a call that is done as it is, if
-- that entry was updated in the seven days before the cycle or at a time that cannot be read; and a
-- call that is done after a cycle was done before it, or was published by one of its visits.
pub run_cycle-done :
    (enabled : Bool) (now wall : ℕ) (vs : List Visit) (log : Dict Entry) (breaker : CircuitBreaker)
    (k : Text)
    → let after = (run_cycle enabled now wall vs log breaker).log in
      ((e : Entry)
        → lookup k log ≡ some e
        → e.status ≡ done
        → ((t : ℕ) → e.updated_at ≡ some t → wall ≤ t + 604_800_000_000)
        → lookup k after ≡ some e)
      × (already_done k after ≡ true → (was_done k log || publishes k vs) ≡ true)
unfolding run_cycle
run_cycle-done enabled now wall vs log breaker k =
    let kept = prune_transfer_log (wall - retention) log in
    let start : Cycle = record {
      log = kept;
      breaker = (allows_request now breaker).1;
      completed = 0;
      failures = 0;
    } in
    let (keeps, once) = visit_all-done k vs start in
    let idle : already_done k log ≡ true → (was_done k log || publishes k vs) ≡ true =
      λ h. let was = lookup-was_done k log h in ground (arith, was) in
    elim (Bool-cases enabled) [
      | inr off ↦ (λ e h d y. ground (arith, off, h), λ h. idle (ground (arith, off, h)))
      | inl on ↦ elim (Bool-cases (allows_request now breaker).0) [
        | inr open_now ↦ (
          λ e h d y. ground (arith, on, open_now, h),
          λ h. idle (ground (arith, on, open_now, h)),
        )
        | inl closed ↦
            let whole : (run_cycle enabled now wall vs log breaker).log ≡ (visit_all vs start).log =
              ground (arith, on, closed) in
            (
              λ e h d y.
                  let there =
                    lookup-pruned (wall - retention) k log e h (is_old_lem wall e.updated_at y) in
                  let is : already_done k kept ≡ true = ground (arith, there, d) in
                  rw whole (keeps is ∙ there),
              λ h.
                  let after : already_done k (visit_all vs start).log ≡ true = rw (← whole) h in
                  let before = once after in
                  let was = pruned-was_done (wall - retention) k log in
                  let is = lookup-was_done k kept in ground (arith, before, was, is),
            )
      ]
    ]
