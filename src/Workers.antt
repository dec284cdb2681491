-- ===== src/Workers.antt =====
-- How a worker runs the operation of one call (`process_call` of src/workers/smb_sync.py and of
-- src/workers/transcript_batch.py): under a lease on the call's directory, next to a task that renews
-- the lease, and cancelled at an await when the time is over or the lease is lost.
pub mod Leased
use zenith_voip.Prelude.{
  ℕ, zero, suc, Bool, true, false, Option, none, some, Text, codes, if◌then◌else◌,
}
use zenith_voip.Prelude.Result.{Result, ok, err}
use zenith_voip.Lease.Python.{Runtime}
use zenith_voip.Lease.{
  CallDir, RecordingLease, Request, lease_busy, invalid_stage, attribute_error, acquire_lease,
  release_lease,
}
use zenith_voip.Lease as Lease

-- `asyncio.CancelledError`, an exception of a class that the cycle of the worker catches, or one that
-- it does not catch, by the name of its type.
pub data Failure : Type 0 where
  cancelled : Failure
  caught : Text → Failure
  uncaught : Text → Failure

-- The exceptions of the lease operations.
abbrev pub failure_of : Lease.Error → Failure
failure_of lease_busy = caught (codes "LeaseBusyError")
failure_of invalid_stage = caught (codes "ValueError")
failure_of attribute_error = uncaught (codes "AttributeError")

-- How the two tasks end: the operation by itself, or neither in time, or the renewal first, with the
-- exception that it raises. A number says how many awaits the operation gets through before its
-- cancellation arrives.
pub data Ending : Type 0 where
  runs : Ending
  times_out : ℕ → Ending
  lease_ends : Failure → ℕ → Ending

-- A running operation: the awaits left before it is cancelled, if it is, the lease files of the call,
-- and all else that it may change.
pub record Run (W : Type 0) : Type 0 where
  pub left : Option ℕ
  pub dir : CallDir
  pub world : W

abbrev pub M : Type 0 → Type 0 → Type 0
M W A = Run W → Result Failure A × Run W

module _ {W : Type 0} where
  abbrev pub pure : {A : Type 0} → A → M W A
  pure a r = (ok a, r)

  infixl 5 ◌>>=◌ ◌>>◌
  abbrev pub ◌>>=◌ : {A B : Type 0} → M W A → (A → M W B) → M W B
  ◌>>=◌ m f r = elim (m r).0 [ ok a ↦ f a (m r).1 | err e ↦ (err e, (m r).1) ]

  abbrev pub ◌>>◌ : {B : Type 0} → M W (Unit {0}) → M W B → M W B
  m >> k = m >>= λ _. k

  -- a call without an await
  abbrev pub perform : {A : Type 0} → (W → Result Failure A × W) → M W A
  perform f r = let (a, w) = f r.world in (a, record r { world = w })

  -- `await` of a call. A cancellation that arrives leaves what `cut` makes of the state.
  abbrev pub wait_for : {A : Type 0} → (W → Result Failure A × W) → (W → W) → M W A
  wait_for f cut r = elim r.left [
    | none ↦ perform f r
    | some zero ↦ (err cancelled, record { left = none; dir = r.dir; world = cut r.world })
    | some (suc n) ↦ perform f (record r { left = some n })
  ]

  -- `m` with its `finally` clause, which does not await
  abbrev pub and_finally : {A : Type 0} → M W A → (Run W → Run W) → M W A
  and_finally m f r = ((m r).0, f (m r).1)

  -- From `asyncio.wait` to the end of the `try` block, with what it answers when the time is over and
  -- when the renewal ends first.
  unfoldable pub raced :
      {A : Type 0}
      → A
      → (Failure → Result Failure A)
      → Ending
      → M W A
      → CallDir
      → W
      → Result Failure A × Run W
  raced late lost runs m d w = m (record { left = none; dir = d; world = w })
  raced late lost (times_out n) m d w =
      (ok late, (m (record { left = some n; dir = d; world = w })).1)
  raced late lost (lease_ends f n) m d w =
      (lost f, (m (record { left = some n; dir = d; world = w })).1)

  -- `process_call`: `LeaseBusyError` is answered, and the lease is released on every way out; an
  -- exception of the release takes the place of the answer. `meanwhile` is what the renewals and the
  -- other workers have made of the lease files by then.
  unfoldable pub under_lease :
      {A : Type 0}
      → Runtime
      → Request
      → A
      → (CallDir → CallDir)
      → (CallDir → W → Result Failure A × Run W)
      → CallDir
      → W
      → Result Failure A × CallDir × W
  under_lease rt q busy meanwhile body d w = elim (acquire_lease rt q d).0 [
    | err lease_busy ↦ (ok busy, (acquire_lease rt q d).1, w)
    | err e ↦ (err (failure_of e), (acquire_lease rt q d).1, w)
    | ok lease ↦
        let (answer, r) = body (acquire_lease rt q d).1 w in
        let (released, d') = release_lease rt q.stage lease.owner (meanwhile r.dir) in
        (elim released [ err e ↦ err (failure_of e) | ok _ ↦ answer ], d', r.world)
  ]
