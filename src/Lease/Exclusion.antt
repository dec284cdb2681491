-- ===== src/Lease/Exclusion.antt =====
-- Who holds a call directory: at any time its active leases have one owner.
use zenith_voip.Prelude.{
  ℕ, ◌<◌, ◌≡◌, refl, Bool, true, false, Option, none, some, Text, text_eq, text_eq_iff, arith,
  is_empty, Bool-cases, [], ◌∷◌, inl, inr,
}
use zenith_voip.Prelude.Result.{ok, Result-cases}
use zenith_voip.Prelude.Json.{obj}
use zenith_voip.Lease.Files.{read_payload, stage-read_lease}
use zenith_voip.Lease.Python.{Runtime}
use zenith_voip.Lease.{
  Stage, capture, conversion, smb, transcription, lease_stages, CallDir, put, RecordingLease,
  Request, read_lease, check_stages, write_lease, take_stage, inspect, lease_path, acquire_lease,
  new_lease, payload, json, same_stage, blocks, owner_or, is_foreign,
}

-- Every lease that is in the directory and has not expired belongs to `owner`.
abbrev pub HeldBy : Runtime → Text → ℕ → CallDir → Type 0
HeldBy rt owner now d =
    (s : Stage) (a : RecordingLease)
    → read_lease rt (d s) s ≡ ok (some a)
    → now < a.expires_at
    → a.owner ≡ owner

check_stages_lem :
    (rt : Runtime) (d : CallDir) (owner : Option Text) (now : ℕ)
    → check_stages rt d owner now lease_stages ≡ ok tt
    → (s : Stage) (a : RecordingLease) → read_lease rt (d s) s ≡ ok (some a)
    → blocks owner now (some a) ≡ false
unfolding check_stages
check_stages_lem rt d owner now h capture a e = ground arith
check_stages_lem rt d owner now h conversion a e = ground arith
check_stages_lem rt d owner now h smb a e = ground arith
check_stages_lem rt d owner now h transcription a e = ground arith

pub inspect_lem :
    (rt : Runtime) (d : CallDir) (q : Request) (s : Stage) (old : Option RecordingLease)
    → inspect rt d q ≡ ok (s, old)
    → (check_stages rt d q.owner q.now lease_stages ≡ ok tt)
      × (lease_path q.stage ≡ ok s)
      × (read_lease rt (d s) s ≡ ok old)
unfolding inspect
inspect_lem rt d q s old h = ground arith

-- A stage that is taken holds the new lease, and the other files are as they were.
module _ (rt : Runtime) (d : CallDir) where
  write_lease_lem :
      (l m : RecordingLease) (replace : Bool) (t : Stage)
      → (write_lease rt d l replace).0 ≡ ok m
      → (m ≡ l)
        × ((write_lease rt d l replace).1 t ≡ put l.stage (some (json (obj (payload rt l)))) d t)
  unfolding write_lease
  write_lease_lem l m replace t h = ground arith

take_stage_lem :
    (rt : Runtime) (d : CallDir) (q : Request) (s : Stage) (old : Option RecordingLease)
    (l : RecordingLease) (t : Stage)
    → (take_stage rt d q s old).0 ≡ ok l
    → (l ≡ new_lease s q)
      × ((take_stage rt d q s old).1 t ≡ put s (some (json (obj (payload rt l)))) d t)
unfolding take_stage
take_stage_lem rt d q s none l t h =
    ground (arith, write_lease_lem rt (put s none d) (new_lease s q) l false t)
take_stage_lem rt d q s (some old) l t h = ground (
  arith,
  write_lease_lem rt (put s none d) (new_lease s q) l (text_eq old.owner (new_lease s q).owner) t,
  write_lease_lem rt d (new_lease s q) l (text_eq old.owner (new_lease s q).owner) t,
)

-- What a successful call has done: all facts about its new directory that the proofs below use.
pub record Taken (rt : Runtime) (q : Request) (d : CallDir) (l : RecordingLease) : Type 0 where
  pub at : Stage
  pub named : lease_path q.stage ≡ ok at
  pub passed : check_stages rt d q.owner q.now lease_stages ≡ ok tt
  pub lease : l ≡ new_lease at q
  pub files :
      (t : Stage) → (acquire_lease rt q d).1 t ≡ put at (some (json (obj (payload rt l)))) d t

pub acquire-Taken :
    (rt : Runtime) (q : Request) (d : CallDir) (l : RecordingLease)
    → (acquire_lease rt q d).0 ≡ ok l
    → Taken rt q d l
unfolding acquire_lease
acquire-Taken rt q d l h = elim (Result-cases (inspect rt d q)) [
  | inl ((s, old), e) ↦ record {
    at = s;
    named = (inspect_lem rt d q s old e).1;
    passed = (inspect_lem rt d q s old e).0;
    lease = (take_stage_lem rt d q s old l s (ground arith)).0;
    files = λ t. rw (e, acquire_lease) (take_stage_lem rt d q s old l t (ground arith)).1;
  }
  | inr (e, f) ↦ ground arith
]

pub uuid_nonempty : (rt : Runtime) (o : Text) → rt.is_uuid o ≡ true → is_empty o ≡ false
uuid_nonempty rt [] h = cc (rt.empty_is_no_uuid)
uuid_nonempty rt (c ∷ o) h = refl

own_owner :
    (owner : Option Text) (fresh : Text) (a : RecordingLease)
    → is_foreign owner a ≡ false
    → is_empty a.owner ≡ false
    → a.owner ≡ owner_or owner fresh
own_owner none fresh a h k = cc
own_owner (some o) fresh a h k = ground (arith, text_eq_iff a.owner o)

pub same_stage_iff : (s t : Stage) → same_stage s t ≡ true → s ≡ t
same_stage_iff s t h = ground arith

Taken-HeldBy :
    (rt : Runtime) (q : Request) (d : CallDir) (l : RecordingLease)
    → Taken rt q d l
    → HeldBy rt l.owner q.now (acquire_lease rt q d).1
Taken-HeldBy rt q d l k s a e fresh = elim (Bool-cases (same_stage k.at s)) [
  | inl here ↦ ground (arith, k.lease, k.files s, read_payload rt l, same_stage_iff k.at s)
  | inr there ↦
      let old : read_lease rt (d s) s ≡ ok (some a) = ground (arith, k.files s) in
      let mine = check_stages_lem rt d q.owner q.now k.passed s a old in
      let valid = stage-read_lease rt (d s) s a old in
      ground (arith, k.lease, mine, own_owner q.owner q.fresh a, uuid_nonempty rt a.owner, valid)
]

-- A successful acquire leaves no active lease of another owner in the directory.
pub acquire-HeldBy :
    (rt : Runtime) (q : Request) (d : CallDir) (l : RecordingLease)
    → (acquire_lease rt q d).0 ≡ ok l
    → HeldBy rt l.owner q.now (acquire_lease rt q d).1
acquire-HeldBy rt q d l h = Taken-HeldBy rt q d l (acquire-Taken rt q d l h)
