-- ===== src/Lease/Protocol.antt =====
-- What each lease operation answers and leaves behind, on every branch.
use zenith_voip.Prelude.{
  ℕ, ◌<◌, ◌≡◌, ◌≢◌, refl, true, false, Option, none, some, List, [], ◌∷◌, Text, text_eq,
  text_eq_iff, text_eq_refl, ap, sym, ◌∙◌, arith, inl, inr, Bool-cases, Option-cases,
}
use zenith_voip.Prelude.Result.{ok, err}
use zenith_voip.Lease.Python.{Runtime}
use zenith_voip.Lease.Files.{IsReadable, stage-read_lease, read_lease_total}
use zenith_voip.Lease.Exclusion.{uuid_nonempty}
use zenith_voip.Lease.{
  Stage, capture, conversion, smb, transcription, lease_stages, CallDir, RecordingLease, Error,
  lease_busy, Request, same_stage, read_lease, check_stages, write_lease, take_stage, inspect,
  lease_path, acquire_lease, blocks, is_foreign, new_lease,
}

-- Every file of the directory can be read without a raise.
abbrev pub AllReadable : CallDir → Type 0
AllReadable d = (s : Stage) → IsReadable (d s)

module _ (rt : Runtime) (d : CallDir) (owner : Option Text) (now : ℕ)
    (readable : AllReadable d) where
  check_stages_ok :
      ((s : Stage) (a : RecordingLease)
        → read_lease rt (d s) s ≡ ok (some a)
        → blocks owner now (some a) ≡ false)
      → (l : List Stage) → check_stages rt d owner now l ≡ ok tt
  unfolding check_stages
  check_stages_ok free [] = refl
  check_stages_ok free (s ∷ l) =
      let (r, e) = read_lease_total rt (d s) s (readable s) in
      elim (Option-cases r) [
        | inl n ↦ ground (arith, e, n, check_stages_ok free l)
        | inr (a, n) ↦ ground (arith, e, n, free s a, check_stages_ok free l)
      ]

  check_stages_busy :
      (t : Stage) (a : RecordingLease)
      → read_lease rt (d t) t ≡ ok (some a)
      → blocks owner now (some a) ≡ true
      → check_stages rt d owner now lease_stages ≡ err lease_busy
  unfolding check_stages
  check_stages_busy t a e h =
      let (r0, e0) = read_lease_total rt (d capture) capture (readable capture) in
      let (r1, e1) = read_lease_total rt (d conversion) conversion (readable conversion) in
      let (r2, e2) = read_lease_total rt (d smb) smb (readable smb) in
      let (r3, e3) = read_lease_total rt (d transcription) transcription (readable transcription) in
      ground (arith, e0, e1, e2, e3)

foreign_ne :
    (owner : Option Text) (a : RecordingLease) → owner ≢ some a.owner → is_foreign owner a ≡ true
foreign_ne none a h = refl
foreign_ne (some o) a h = elim (Bool-cases (text_eq a.owner o)) [
  | inl same ↦ absurd (h (ap some (sym ((text_eq_iff a.owner o).0 same))))
  | inr other ↦ rw other
]

own-not-blocks :
    (owner : Option Text) (now : ℕ) (a : RecordingLease)
    → (now < a.expires_at → owner ≡ some a.owner)
    → blocks owner now (some a) ≡ false
own-not-blocks none now a h = ground arith
own-not-blocks (some o) now a h = ground (arith, text_eq_iff a.owner o)

pub same_stage_refl : (s : Stage) → same_stage s s ≡ true
same_stage_refl s = ground arith

module _ (rt : Runtime) (q : Request) (d : CallDir) (readable : AllReadable d) where
  -- While another owner holds an active lease on any stage, no stage can be acquired: the call
  -- raises LeaseBusyError and the directory stays as it is.
  pub acquire_busy :
      (t : Stage) (a : RecordingLease)
      → read_lease rt (d t) t ≡ ok (some a)
      → q.now < a.expires_at
      → q.owner ≢ some a.owner
      → acquire_lease rt q d ≡ (err lease_busy, d)
  unfolding acquire_lease inspect
  acquire_busy t a e active other =
      ground
        (arith, foreign_ne q.owner a other, check_stages_busy rt d q.owner q.now readable t a e)

  -- Where every active lease is the caller's own, the acquire succeeds, with the expiry that the
  -- request asks for.
  pub acquire_free :
      (s : Stage)
      → lease_path q.stage ≡ ok s
      → ((t : Stage) (a : RecordingLease)
          → read_lease rt (d t) t ≡ ok (some a)
          → q.now < a.expires_at
          → q.owner ≡ some a.owner)
      → (acquire_lease rt q d).0 ≡ ok (new_lease s q)
  unfolding acquire_lease inspect take_stage write_lease
  acquire_free s e free =
      let checked =
        check_stages_ok rt d q.owner q.now readable
          (λ t a r. own-not-blocks q.owner q.now a (free t a r)) lease_stages in
      let (old, found) = read_lease_total rt (d s) s (readable s) in
      elim (Option-cases old) [
        | inl n ↦ ground (arith, e, checked, found, n, same_stage_refl s)
        | inr (a, n) ↦
            let valid = stage-read_lease rt (d s) s a (found ∙ ap ok n) in
            ground (
              arith,
              e,
              checked,
              found,
              n,
              same_stage_refl s,
              free s a,
              text_eq_refl a.owner,
              uuid_nonempty rt a.owner,
              valid,
            )
      ]

-- A raise leaves the directory as it was.
pub acquire_err :
    (rt : Runtime) (q : Request) (d : CallDir) (e : Error)
    → (acquire_lease rt q d).0 ≡ err e
    → (t : Stage) → (acquire_lease rt q d).1 t ≡ d t
unfolding acquire_lease take_stage write_lease
acquire_err rt q d e h t = ground arith
