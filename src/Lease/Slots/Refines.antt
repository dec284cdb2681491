-- ===== src/Lease/Slots/Refines.antt =====
-- The lease files behave as the slots of their contract.
use zenith_voip.Prelude.{
  ℕ, ◌≡◌, refl, true, false, Option, none, some, List, [], ◌∷◌, Text, text_eq, text_eq_iff, ◌∙◌, ap,
  arith, is_empty, Bool-cases, Option-cases, inl, inr, All,
}
use zenith_voip.Prelude.Result.{ok, err, Result-cases}
use zenith_voip.Lease.Python.{Runtime}
use zenith_voip.Lease.Files.{stage-read_lease, read_payload}
use zenith_voip.Lease.Exclusion.{Taken, acquire-Taken, same_stage_iff}
use zenith_voip.Lease.Protocol.{same_stage_refl}
use zenith_voip.Lease.{
  Stage, capture, conversion, smb, transcription, lease_stages, CallDir, RecordingLease, Request,
  lease_busy, lease_path, same_stage, new_lease, blocks, read_lease, check_stages, inspect,
  take_stage, write_lease, acquire_lease, find_owned, renew_lease, release_lease, any_valid,
  has_valid_lease, owner_or, is_foreign, is_active,
}
use zenith_voip.Lease.Slots.{
  Slots, set, any_slot, live, acquire, owned, renew, release, Call, acquires, renews, releases,
  checks, step, run, step_files, run_files,
}

-- The files read back as the slots.
abbrev pub Shows : Runtime → CallDir → Slots → Type 0
Shows rt d m = (s : Stage) → read_lease rt (d s) s ≡ ok (m s)

-- The owner that the request takes the lease for is a UUID, and its call has a name.
abbrev pub IsProper : Runtime → Request → Type 0
IsProper rt q = (rt.is_uuid (owner_or q.owner q.fresh) ≡ true) × (is_empty q.call_id ≡ false)

abbrev pub ProperCall : Runtime → Call → Type 0
ProperCall rt (acquires q) = IsProper rt q
ProperCall rt (renews q owner) = Unit
ProperCall rt (releases stage owner) = Unit
ProperCall rt (checks now) = Unit

module _ (rt : Runtime) (d : CallDir) (m : Slots) (shows : Shows rt d m) where
  check_stages-any_slot :
      (owner : Option Text) (now : ℕ)
      → check_stages rt d owner now lease_stages
        ≡ elim (any_slot (blocks owner now) m) [ true ↦ err lease_busy | false ↦ ok tt ]
  unfolding check_stages
  check_stages-any_slot owner now =
      ground (arith, shows capture, shows conversion, shows smb, shows transcription)

  slot_free :
      (owner : Option Text) (now : ℕ)
      → any_slot (blocks owner now) m ≡ false
      → (s : Stage) → blocks owner now (m s) ≡ false
  slot_free owner now h capture = ground arith
  slot_free owner now h conversion = ground arith
  slot_free owner now h smb = ground arith
  slot_free owner now h transcription = ground arith

  -- The owner of a live lease that does not block is the one that the request takes it for.
  replaces :
      (q : Request) (s : Stage) (a : RecordingLease)
      → m s ≡ some a
      → blocks q.owner q.now (some a) ≡ false
      → is_active q.now a ≡ true
      → (is_foreign q.owner a ≡ false) × (text_eq a.owner (owner_or q.owner q.fresh) ≡ true)
  replaces q s a e free active =
      let valid = stage-read_lease rt (d s) s a (shows s ∙ ap ok e) in
      elim (Option-cases q.owner) [
        | inl n ↦ ground (arith, n)
        | inr (o, n) ↦ ground (arith, n, text_eq_iff a.owner o, valid, rt.empty_is_no_uuid)
      ]

  take_refines :
      (q : Request) (s : Stage)
      → any_slot (blocks q.owner q.now) m ≡ false
      → lease_path q.stage ≡ ok s
      → (acquire_lease rt q d).0 ≡ ok (new_lease s q)
  unfolding acquire_lease inspect take_stage write_lease
  take_refines q s h e =
      let checked = check_stages-any_slot q.owner q.now in
      elim (Option-cases (m s)) [
        | inl n ↦ ground (arith, h, e, checked, shows s, n, same_stage_refl s)
        | inr (a, n) ↦
            let free = slot_free q.owner q.now h s in
            ground (arith, h, e, checked, shows s, n, same_stage_refl s, free, replaces q s a n)
      ]

  Taken-Shows :
      (q : Request) (s : Stage) (l : RecordingLease)
      → lease_path q.stage ≡ ok s
      → IsProper rt q
      → Taken rt q d l
      → Shows rt (acquire_lease rt q d).1 (set s (some (new_lease s q)) m)
  Taken-Shows q s l named p k t = elim (Bool-cases (same_stage s t)) [
    | inl here ↦
        ground (
          arith,
          here,
          named,
          k.named,
          k.lease,
          k.files t,
          p,
          read_payload rt l,
          same_stage_iff s t,
        )
    | inr there ↦ ground (arith, there, named, k.named, k.files t, shows t)
  ]

  acquire_refines :
      (q : Request)
      → IsProper rt q
      → ((acquire_lease rt q d).0 ≡ (acquire q m).0)
        × Shows rt (acquire_lease rt q d).1 (acquire q m).1
  unfolding acquire acquire_lease inspect
  acquire_refines q p = elim (Bool-cases (any_slot (blocks q.owner q.now) m)) [
    | inl busy ↦
        let e : acquire_lease rt q d ≡ (err lease_busy, d) =
          ground (arith, busy, check_stages-any_slot q.owner q.now) in
        let f : acquire q m ≡ (err lease_busy, m) = ground (arith, busy) in rw (e, f) (refl, shows)
    | inr free ↦ elim (Result-cases (lease_path q.stage)) [
      | inl (s, named) ↦
          let e = take_refines q s free named in
          let f : acquire q m ≡ (ok (new_lease s q), set s (some (new_lease s q)) m) =
            ground (arith, free, named) in
          rw f (e, Taken-Shows q s (new_lease s q) named p (acquire-Taken rt q d (new_lease s q) e))
      | inr (x, named) ↦
          let e : acquire_lease rt q d ≡ (err x, d) =
            ground (arith, free, named, check_stages-any_slot q.owner q.now) in
          let f : acquire q m ≡ (err x, m) = ground (arith, free, named) in rw (e, f) (refl, shows)
    ]
  ]

  has_valid_refines : (now : ℕ) → has_valid_lease rt now d ≡ ok (any_slot (live now) m)
  unfolding has_valid_lease any_valid
  has_valid_refines now =
      ground (arith, shows capture, shows conversion, shows smb, shows transcription)

  owned_refines : (stage owner : Text) → find_owned rt d stage owner ≡ owned stage owner m
  unfolding find_owned owned
  owned_refines stage owner = elim (Result-cases (lease_path stage)) [
    | inl (s, e) ↦ ground (arith, e, shows s)
    | inr (x, e) ↦ ground (arith, e)
  ]

  -- What a slot holds for its owner is proper to be taken again.
  owned-IsProper :
      (q : Request) (owner : Text) (l : RecordingLease)
      → owned q.stage owner m ≡ ok (some l)
      → IsProper rt (record q { call_id = l.call_id; owner = some owner })
  unfolding owned
  owned-IsProper q owner l h = elim (Result-cases (lease_path q.stage)) [
    | inl (s, e) ↦ elim (Option-cases (m s)) [
      | inl n ↦ absurd (ground (arith, h, e, n))
      | inr (a, n) ↦
          let valid = stage-read_lease rt (d s) s a (shows s ∙ ap ok n) in
          ground (arith, h, e, n, valid, text_eq_iff a.owner owner, rt.empty_is_no_uuid)
    ]
    | inr (x, e) ↦ absurd (ground (arith, h, e))
  ]

  renew_refines :
      (q : Request) (owner : Text)
      → ((renew_lease rt q owner d).0 ≡ (renew q owner m).0)
        × Shows rt (renew_lease rt q owner d).1 (renew q owner m).1
  unfolding renew renew_lease
  renew_refines q owner = elim (Result-cases (owned q.stage owner m)) [
    | inl (none, e) ↦ rw (owned_refines q.stage owner, e, renew_lease, renew) (refl, shows)
    | inl (some l, e) ↦
        let p = owned-IsProper q owner l e in
        let (r, s) = acquire_refines (record q { call_id = l.call_id; owner = some owner }) p in
        rw (owned_refines q.stage owner, e, r, renew_lease, renew) (refl, s)
    | inr (x, e) ↦ rw (owned_refines q.stage owner, e, renew_lease, renew) (refl, shows)
  ]

  release_refines :
      (stage owner : Text)
      → ((release_lease rt stage owner d).0 ≡ (release stage owner m).0)
        × Shows rt (release_lease rt stage owner d).1 (release stage owner m).1
  unfolding release release_lease read_lease
  release_refines stage owner = elim (Result-cases (owned stage owner m)) [
    | inl (none, e) ↦ rw (owned_refines stage owner, e, release_lease, release) (refl, shows)
    | inl (some l, e) ↦
        rw (owned_refines stage owner, e, release_lease, release)
          (
            refl,
            λ t. elim (Bool-cases (same_stage l.stage t)) [
              | inl here ↦ ground (arith, here)
              | inr there ↦ ground (arith, there, shows t)
            ],
          )
    | inr (x, e) ↦ rw (owned_refines stage owner, e, release_lease, release) (refl, shows)
  ]

step_refines :
    (rt : Runtime) (d : CallDir) (m : Slots) (c : Call)
    → Shows rt d m
    → ProperCall rt c
    → ((step_files rt c d).0 ≡ (step c m).0) × Shows rt (step_files rt c d).1 (step c m).1
unfolding step step_files
step_refines rt d m (acquires q) shows p =
    let (r, s) = acquire_refines rt d m shows q p in rw r (refl, s)
step_refines rt d m (renews q owner) shows p =
    let (r, s) = renew_refines rt d m shows q owner in rw r (refl, s)
step_refines rt d m (releases stage owner) shows p =
    let (r, s) = release_refines rt d m shows stage owner in rw r (refl, s)
step_refines rt d m (checks now) shows p = rw (has_valid_refines rt d m shows now) (refl, shows)

-- No sequence of acquires, renewals, releases and checks tells the lease files from four slots,
-- when the files read back as the slots at the start, and every acquire of the sequence takes the
-- lease for an owner that is a UUID and for a call with a name.
pub run_refines :
    (rt : Runtime) (cs : List Call) (d : CallDir) (m : Slots)
    → Shows rt d m
    → All (ProperCall rt) cs
    → run_files rt cs d ≡ run cs m
unfolding run run_files
run_refines rt [] d m shows p = refl
run_refines rt (c ∷ cs) d m shows (p, ps) =
    let (r, s) = step_refines rt d m c shows p in
    rw (r, run_refines rt cs (step_files rt c d).1 (step c m).1 s ps)
