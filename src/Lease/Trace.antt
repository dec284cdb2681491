-- ===== src/Lease/Trace.antt =====
-- Any sequence of calls by any workers on one call directory, with the time passing between them.
use zenith_voip.Prelude.{
  ℕ, ◌≤◌, ◌<◌, ◌≡◌, refl, none, some, Text, sym, ◌∙◌, arith, ◌⊎◌, inl, inr, Bool-cases,
}
use zenith_voip.Prelude.Result.{ok, Result-cases}
use zenith_voip.Lease.Python.{Runtime}
use zenith_voip.Lease.Exclusion.{acquire-Taken, acquire-HeldBy}
use zenith_voip.Lease.Protocol.{AllReadable, acquire_err}
use zenith_voip.Lease.Renewal.{renewal}
use zenith_voip.Lease.{
  Stage, CallDir, RecordingLease, Request, same_stage, read_lease, payload, acquire_lease,
  find_owned, renew_lease, release_lease,
}

pub data Step (rt : Runtime) : ℕ → CallDir → ℕ → CallDir → Type 0 where
  acquire : (q : Request) (d : CallDir) → Step rt q.now d q.now (acquire_lease rt q d).1
  renew :
      (q : Request) (owner : Text) (d : CallDir)
      → Step rt q.now d q.now (renew_lease rt q owner d).1
  release :
      (now : ℕ) (stage owner : Text) (d : CallDir)
      → Step rt now d now (release_lease rt stage owner d).1
  wait : (now later : ℕ) (d : CallDir) → now ≤ later → Step rt now d later d

pub data Reach (rt : Runtime) : ℕ → CallDir → Type 0 where
  start : (now : ℕ) → Reach rt now (λ s. none)
  next :
      {now later : ℕ} {d d' : CallDir} → Reach rt now d → Step rt now d later d' → Reach rt later d'

-- Two active leases have one owner, whatever their stages.
abbrev pub Exclusive : Runtime → ℕ → CallDir → Type 0
Exclusive rt now d =
    (s t : Stage) (a b : RecordingLease)
    → read_lease rt (d s) s ≡ ok (some a)
    → read_lease rt (d t) t ≡ ok (some b)
    → now < a.expires_at
    → now < b.expires_at
    → a.owner ≡ b.owner

pub record Inv (rt : Runtime) (now : ℕ) (d : CallDir) : Type 0 where
  pub exclusive : Exclusive rt now d
  pub readable : AllReadable d

acquire-Inv :
    (rt : Runtime) (q : Request) (d : CallDir)
    → Inv rt q.now d
    → Inv rt q.now (acquire_lease rt q d).1
acquire-Inv rt q d v = elim (Result-cases (acquire_lease rt q d).0) [
  | inl (l, e) ↦
      let held = acquire-HeldBy rt q d l e in
      record {
        exclusive = λ s t a b ra rb ha hb. held s a ra ha ∙ sym (held t b rb hb);
        readable =
            let k = acquire-Taken rt q d l e in
            λ s. rw (k.files s) (elim (Bool-cases (same_stage k.at s)) [
              | inl here ↦ rw here (payload rt l, refl)
              | inr there ↦ rw there (v.readable s)
            ]);
      }
  | inr (x, e) ↦ record {
    exclusive =
        λ s t a b. rw (acquire_err rt q d x e s, acquire_err rt q d x e t) (v.exclusive s t a b);
    readable = λ s. rw (acquire_err rt q d x e s) (v.readable s);
  }
]

renew_lem :
    (rt : Runtime) (q : Request) (owner : Text) (d : CallDir)
    → ((renew_lease rt q owner d).1 ≡ d)
      ⊎ ((l : RecordingLease) × ((renew_lease rt q owner d).1
            ≡ (acquire_lease rt (renewal q owner l) d).1))
unfolding renew_lease
renew_lem rt q owner d = elim (Result-cases (find_owned rt d q.stage owner)) [
  | inl (none, e) ↦ inl (rw (e, renew_lease))
  | inl (some l, e) ↦ inr (l, rw (e, renew_lease))
  | inr (x, e) ↦ inl (rw (e, renew_lease))
]

renew-Inv :
    (rt : Runtime) (q : Request) (owner : Text) (d : CallDir)
    → Inv rt q.now d
    → Inv rt q.now (renew_lease rt q owner d).1
renew-Inv rt q owner d v = elim (renew_lem rt q owner d) [
  | inl e ↦ rw e v
  | inr (l, e) ↦ rw e (acquire-Inv rt (renewal q owner l) d v)
]

release_lem :
    (rt : Runtime) (stage owner : Text) (d : CallDir) (t : Stage)
    → ((release_lease rt stage owner d).1 t ≡ d t) ⊎ ((release_lease rt stage owner d).1 t ≡ none)
unfolding release_lease
release_lem rt stage owner d t = elim (Result-cases (find_owned rt d stage owner)) [
  | inl (none, e) ↦ inl (rw (e, release_lease))
  | inl (some l, e) ↦ elim (Bool-cases (same_stage l.stage t)) [
    | inl here ↦ inr (rw (e, release_lease, here))
    | inr there ↦ inl (rw (e, release_lease, there))
  ]
  | inr (x, e) ↦ inl (rw (e, release_lease))
]

-- What a read finds after a release was there before it.
read-release :
    (rt : Runtime) (stage owner : Text) (d : CallDir) (t : Stage) (a : RecordingLease)
    → read_lease rt ((release_lease rt stage owner d).1 t) t ≡ ok (some a)
    → read_lease rt (d t) t ≡ ok (some a)
unfolding read_lease
read-release rt stage owner d t a h = elim (release_lem rt stage owner d t) [
  | inl e ↦ rw e at h
  | inr e ↦ let h' : read_lease rt none t ≡ ok (some a) = rw e at h in absurd (ground arith)
]

release-Inv :
    (rt : Runtime) (now : ℕ) (stage owner : Text) (d : CallDir)
    → Inv rt now d
    → Inv rt now (release_lease rt stage owner d).1
release-Inv rt now stage owner d v = record {
  exclusive = λ s t a b ra rb.
      v.exclusive s t a b (read-release rt stage owner d s a ra)
        (read-release rt stage owner d t b rb);
  readable =
      λ s. elim (release_lem rt stage owner d s) [ inl e ↦ rw e (v.readable s) | inr e ↦ rw e tt ];
}

Step-Inv :
    (rt : Runtime) {now later : ℕ} {d d' : CallDir}
    → Step rt now d later d'
    → Inv rt now d
    → Inv rt later d'
Step-Inv rt (acquire q d) v = acquire-Inv rt q d v
Step-Inv rt (renew q owner d) v = renew-Inv rt q owner d v
Step-Inv rt (release now stage owner d) v = release-Inv rt now stage owner d v
Step-Inv rt (wait now later d h) v = record {
  exclusive = λ s t a b ra rb ha hb. v.exclusive s t a b ra rb (omega arith) (omega arith);
  readable = v.readable;
}

-- After any history of acquires, renewals and releases that starts from a directory with no lease
-- file, by whatever owners and with whatever time between them, the active leases of the directory
-- have one owner, and no lease file makes a read raise.
pub Reach-Inv : (rt : Runtime) {now : ℕ} {d : CallDir} → Reach rt now d → Inv rt now d
unfolding read_lease
Reach-Inv rt (start now) = record {
  exclusive = λ s t a b ra. absurd (ground arith);
  readable = λ s. tt;
}
Reach-Inv rt (next r st) = Step-Inv rt st (Reach-Inv rt r)
