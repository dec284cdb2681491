-- ===== src/Workers/Leased.antt =====
-- What holds of every operation that runs under a lease.
use zenith_voip.Prelude.{
  ℕ, zero, suc, ◌<◌, ◌≡◌, ◌≢◌, refl, Option, none, some, Text, arith, inl, inr, Bool-cases,
  Option-cases, ◌∙◌, ap, sym,
}
use zenith_voip.Prelude.Result.{Result, ok, err, Result-cases}
use zenith_voip.Lease.Python.{Runtime}
use zenith_voip.Lease.Files.{read_lease_total, stage-read_lease}
use zenith_voip.Lease.Exclusion.{acquire-Taken}
use zenith_voip.Lease.Protocol.{AllReadable, acquire_err, acquire_busy, same_stage_refl}
use zenith_voip.Lease.{
  Stage, CallDir, RecordingLease, Request, same_stage, payload, lease_busy, invalid_stage,
  attribute_error, lease_path, read_lease, owned_by, acquire_lease, find_owned, release_lease,
}
use zenith_voip.Workers.{
  Failure, cancelled, wait_for, ◌>>=◌, Ending, runs, times_out, lease_ends, Run, M, raced,
  under_lease,
}

no_file-no_lease :
    (rt : Runtime) (stage owner : Text) (d : CallDir) (s : Stage)
    → lease_path stage ≡ ok s
    → d s ≡ none
    → find_owned rt d stage owner ≡ ok none
unfolding find_owned read_lease
no_file-no_lease rt stage owner d s e h = ground (arith, e, h)

-- After a release of readable files the owner has no lease on the stage.
pub release_clears :
    (rt : Runtime) (stage owner : Text) (d : CallDir) (s : Stage)
    → AllReadable d
    → lease_path stage ≡ ok s
    → find_owned rt (release_lease rt stage owner d).1 stage owner ≡ ok none
release_clears rt stage owner d s readable e =
    let (o, r) = read_lease_total rt (d s) s (readable s) in
    elim (Bool-cases (owned_by owner o)) [
      | inr h ↦
          let found : find_owned rt d stage owner ≡ ok none =
            unfold find_owned in ground (arith, e, r, h) in
          let same : (release_lease rt stage owner d).1 ≡ d =
            unfold release_lease in ground (arith, found) in
          rw same found
      | inl h ↦ elim (Option-cases o) [
        | inl n ↦ absurd (ground (arith, h, n))
        | inr (l, n) ↦
            let valid = stage-read_lease rt (d s) s l (r ∙ ap ok n) in
            let gone : (release_lease rt stage owner d).1 s ≡ none =
              unfold release_lease find_owned in
              ground (arith, e, r, n, h, valid, same_stage_refl s) in
            no_file-no_lease rt stage owner _ s e gone
      ]
    ]

module _ {A W : Type 0} (rt : Runtime) (q : Request) (busy : A) (meanwhile : CallDir → CallDir)
    (body : CallDir → W → Result Failure A × Run W) (d : CallDir) (w : W) where
  -- What an acquire that succeeds leads to.
  under_lease_runs :
      (l : RecordingLease)
      → (acquire_lease rt q d).0 ≡ ok l
      → let r = (body (acquire_lease rt q d).1 w).1 in
        ((under_lease rt q busy meanwhile body d w).1
          ≡ (release_lease rt q.stage l.owner (meanwhile r.dir)).1)
        × ((under_lease rt q busy meanwhile body d w).2 ≡ r.world)
  unfolding under_lease
  under_lease_runs l h = rw (h, under_lease) (refl, refl)

  -- Whatever the operation and its end, an owner that had got the lease has none when the call ends,
  -- if the lease files can be read at that point.
  pub under_lease-released :
      (l : RecordingLease)
      → (acquire_lease rt q d).0 ≡ ok l
      → AllReadable (meanwhile (body (acquire_lease rt q d).1 w).1.dir)
      → find_owned rt (under_lease rt q busy meanwhile body d w).1 q.stage l.owner ≡ ok none
  under_lease-released l h readable =
      let k = acquire-Taken rt q d l h in
      rw (under_lease_runs l h).0 (release_clears rt q.stage l.owner _ k.at readable k.named)

  -- While another owner has an active lease on the directory, the call answers that the recording is
  -- being processed and changes nothing.
  pub under_lease-busy :
      (t : Stage) (a : RecordingLease)
      → AllReadable d
      → read_lease rt (d t) t ≡ ok (some a)
      → q.now < a.expires_at
      → q.owner ≢ some a.owner
      → under_lease rt q busy meanwhile body d w ≡ (ok busy, d, w)
  unfolding under_lease
  under_lease-busy t a readable e active other =
      ground (arith, acquire_busy rt q d readable t a e active other)

  -- What is true of the state before the call and of every state in which the operation can leave it
  -- is true after the call.
  pub under_lease-keeps {κ} :
      (P : W → Type κ)
      → P w
      → ((e : CallDir) → P (body e w).1.world)
      → P (under_lease rt q busy meanwhile body d w).2
  unfolding under_lease
  under_lease-keeps P before after = elim (Result-cases (acquire_lease rt q d).0) [
    | inl (l, h) ↦ rw (under_lease_runs l h).1 (after (acquire_lease rt q d).1)
    | inr (lease_busy, h) ↦ rw (h, under_lease) before
    | inr (invalid_stage, h) ↦ rw (h, under_lease) before
    | inr (attribute_error, h) ↦ rw (h, under_lease) before
  ]

-- The same for the race of the two tasks: whoever wins, the operation was run or cut at some await.
pub raced-keeps {κ} :
    {A W : Type 0} (P : W → Type κ) (late : A) (lost : Failure → Result Failure A) (ending : Ending)
    (m : M W A) (d : CallDir) (w : W)
    → ((left : Option ℕ) → P (m (record { left = left; dir = d; world = w })).1.world)
    → P (raced late lost ending m d w).1.world
unfolding raced
raced-keeps P late lost runs m d w h = h none
raced-keeps P late lost (times_out n) m d w h = h (some n)
raced-keeps P late lost (lease_ends f n) m d w h = h (some n)

-- What holds of the call of an await and of its cancellation holds of the await.
pub wait_for_ind {κ} :
    {A W : Type 0} (Q : Result Failure A → W → Type κ) (f : W → Result Failure A × W) (cut : W → W)
    (r : Run W)
    → Q (f r.world).0 (f r.world).1
    → Q (err cancelled) (cut r.world)
    → Q (wait_for f cut r).0 (wait_for f cut r).1.world
wait_for_ind Q f cut r runs_case cut_case =
    elim r.left
      as (λ l.
        let m = wait_for f cut (record { left = l; dir = r.dir; world = r.world }) in
        Q m.0 m.1.world) [ none ↦ runs_case | some zero ↦ cut_case | some (suc n) ↦ runs_case ]

-- What holds after a step fails, and after the next step when it answers, holds of the two.
pub bind_ind {κ} :
    {A B W : Type 0} (Q : Result Failure B × Run W → Type κ) (m : M W A) (f : A → M W B) (r : Run W)
    → ((x : Failure) → (m r).0 ≡ err x → Q (err x, (m r).1))
    → ((a : A) → (m r).0 ≡ ok a → Q (f a (m r).1))
    → Q ((m >>= f) r)
bind_ind Q m f r fails answers =
    elim (m r).0
        as (λ o. o ≡ (m r).0 → Q (elim o [ ok a ↦ f a (m r).1 | err e ↦ (err e, (m r).1) ])) [
          | ok a ↦ λ e. answers a (sym e)
          | err x ↦ λ e. fails x (sym e)
        ]
      refl

-- Code that leaves the lease files alone.
abbrev pub IsStill : {A W : Type 0} → M W A → Type 0
IsStill {A} {W} m = (r : Run W) → (m r).1.dir ≡ r.dir

pub wait_for-IsStill :
    {A W : Type 0} (f : W → Result Failure A × W) (cut : W → W) → IsStill (wait_for f cut)
wait_for-IsStill f cut r =
    elim r.left
      as (λ l. (wait_for f cut (record { left = l; dir = r.dir; world = r.world })).1.dir ≡ r.dir) [
        | none ↦ refl
        | some zero ↦ refl
        | some (suc n) ↦ refl
      ]

pub bind-IsStill :
    {A B W : Type 0} (m : M W A) (f : A → M W B)
    → IsStill m
    → ((a : A) → IsStill (f a))
    → IsStill (m >>= f)
bind-IsStill m f here there r =
    bind_ind (λ o. o.1.dir ≡ r.dir) m f r (λ x e. here r) (λ a e. there a (m r).1 ∙ here r)

pub raced-dir :
    {A W : Type 0} (late : A) (lost : Failure → Result Failure A) (ending : Ending) (m : M W A)
    (d : CallDir) (w : W)
    → IsStill m
    → (raced late lost ending m d w).1.dir ≡ d
unfolding raced
raced-dir late lost runs m d w h = h (record { left = none; dir = d; world = w })
raced-dir late lost (times_out n) m d w h = h (record { left = some n; dir = d; world = w })
raced-dir late lost (lease_ends f n) m d w h = h (record { left = some n; dir = d; world = w })

-- The lease operations leave files that can be read.
pub acquire-AllReadable :
    (rt : Runtime) (q : Request) (d : CallDir)
    → AllReadable d
    → AllReadable (acquire_lease rt q d).1
acquire-AllReadable rt q d readable s = elim (Result-cases (acquire_lease rt q d).0) [
  | inl (l, e) ↦
      let k = acquire-Taken rt q d l e in
      rw (k.files s) (elim (Bool-cases (same_stage k.at s)) [
        | inl here ↦ rw here (payload rt l, refl)
        | inr there ↦ rw there (readable s)
      ])
  | inr (x, e) ↦ rw (acquire_err rt q d x e s) (readable s)
]

pub release-AllReadable :
    (rt : Runtime) (stage owner : Text) (d : CallDir)
    → AllReadable d
    → AllReadable (release_lease rt stage owner d).1
unfolding release_lease
release-AllReadable rt stage owner d readable s =
    elim (Result-cases (find_owned rt d stage owner)) [
      | inl (none, e) ↦ rw (e, release_lease) (readable s)
      | inl (some l, e) ↦ elim (Bool-cases (same_stage l.stage s)) [
        | inl here ↦ rw (e, release_lease, here) tt
        | inr there ↦ rw (e, release_lease, there) (readable s)
      ]
      | inr (x, e) ↦ rw (e, release_lease) (readable s)
    ]

-- Code that leaves the lease files readable.
abbrev pub KeepsReadable : {A W : Type 0} → M W A → Type 0
KeepsReadable {A} {W} m = (r : Run W) → AllReadable r.dir → AllReadable (m r).1.dir

pub IsStill-KeepsReadable : {A W : Type 0} (m : M W A) → IsStill m → KeepsReadable m
IsStill-KeepsReadable m still r h = rw (still r) h

pub bind-KeepsReadable :
    {A B W : Type 0} (m : M W A) (f : A → M W B)
    → KeepsReadable m
    → ((a : A) → KeepsReadable (f a))
    → KeepsReadable (m >>= f)
bind-KeepsReadable m f here there r h =
    bind_ind (λ o. AllReadable o.1.dir) m f r (λ x e. here r h) (λ a e. there a (m r).1 (here r h))

pub raced-KeepsReadable :
    {A W : Type 0} (late : A) (lost : Failure → Result Failure A) (ending : Ending) (m : M W A)
    (d : CallDir) (w : W)
    → KeepsReadable m
    → AllReadable d
    → AllReadable (raced late lost ending m d w).1.dir
unfolding raced
raced-KeepsReadable late lost runs m d w h k = h (record { left = none; dir = d; world = w }) k
raced-KeepsReadable late lost (times_out n) m d w h k =
    h (record { left = some n; dir = d; world = w }) k
raced-KeepsReadable late lost (lease_ends f n) m d w h k =
    h (record { left = some n; dir = d; world = w }) k
