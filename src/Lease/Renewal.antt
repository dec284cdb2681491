-- ===== src/Lease/Renewal.antt =====
-- Round trip of a written lease, and what renewal, release and the validity test answer.
use zenith_voip.Prelude.{
  ℕ, ◌<◌, ◌≡◌, ◌≢◌, refl, Bool, true, false, none, some, List, [], ◌∷◌, Text, text_eq, text_eq_iff,
  ◌↔◌, ap, ◌∙◌, arith, is_empty, inl, inr, Bool-cases, Option-cases, if◌then◌else◌,
}
use zenith_voip.Prelude.Result.{ok, Result-cases}
use zenith_voip.Lease.Python.{Runtime}
use zenith_voip.Lease.Files.{read_payload, stage-read_lease, read_lease_total}
use zenith_voip.Lease.Exclusion.{acquire-Taken, uuid_nonempty}
use zenith_voip.Lease.Protocol.{AllReadable, same_stage_refl}
use zenith_voip.Lease.{
  Stage, capture, conversion, smb, transcription, lease_stages, CallDir, RecordingLease, Request,
  same_stage, read_lease, lease_path, acquire_lease, is_active, new_lease, find_owned, renew_lease,
  release_lease, any_valid, has_valid_lease,
}

-- What an acquire has written is what a later read of that stage returns, where the owner is a UUID
-- and the call is named.
pub read-acquire :
    (rt : Runtime) (q : Request) (d : CallDir) (l : RecordingLease)
    → (acquire_lease rt q d).0 ≡ ok l
    → rt.is_uuid l.owner ≡ true
    → is_empty q.call_id ≡ false
    → read_lease rt ((acquire_lease rt q d).1 l.stage) l.stage ≡ ok (some l)
read-acquire rt q d l h uuid named =
    let k = acquire-Taken rt q d l h in
    ground (arith, k.lease, k.files l.stage, read_payload rt l, same_stage_refl k.at)

find_owned_lem :
    (rt : Runtime) (d : CallDir) (stage owner : Text) (l : RecordingLease)
    → find_owned rt d stage owner ≡ ok (some l)
    → (lease_path stage ≡ ok l.stage)
      × (read_lease rt (d l.stage) l.stage ≡ ok (some l))
      × (l.owner ≡ owner)
unfolding find_owned
find_owned_lem rt d stage owner l h = elim (Result-cases (lease_path stage)) [
  | inl (s, e) ↦ elim (Result-cases (read_lease rt (d s) s)) [
    | inl (none, f) ↦ ground arith
    | inl (some a, f) ↦
        let valid = stage-read_lease rt (d s) s a f in
        ground (arith, text_eq_iff a.owner owner, valid)
    | inr (x, f) ↦ ground arith
  ]
  | inr (x, e) ↦ ground arith
]

find_owned-eq-none :
    (rt : Runtime) (d : CallDir) (stage owner : Text) (s : Stage) (a : RecordingLease)
    → lease_path stage ≡ ok s
    → read_lease rt (d s) s ≡ ok (some a)
    → a.owner ≢ owner
    → find_owned rt d stage owner ≡ ok none
unfolding find_owned
find_owned-eq-none rt d stage owner s a e f h = elim (Bool-cases (text_eq a.owner owner)) [
  | inl same ↦ absurd (h ((text_eq_iff a.owner owner).0 same))
  | inr other ↦ ground arith
]

-- Only the owner of a lease can renew or release it: to anybody else both answer False and leave the
-- directory as it was.
pub only_owner :
    (rt : Runtime) (q : Request) (d : CallDir) (owner : Text) (s : Stage) (a : RecordingLease)
    → lease_path q.stage ≡ ok s
    → read_lease rt (d s) s ≡ ok (some a)
    → a.owner ≢ owner
    → (renew_lease rt q owner d ≡ (ok false, d))
      × (release_lease rt q.stage owner d ≡ (ok false, d))
unfolding renew_lease release_lease
only_owner rt q d owner s a e f h = ground (arith, find_owned-eq-none rt d q.stage owner s a e f h)

-- A release that answers True frees its stage and leaves the others' files alone.
pub release_frees :
    (rt : Runtime) (stage owner : Text) (d : CallDir) (s : Stage)
    → lease_path stage ≡ ok s
    → (release_lease rt stage owner d).0 ≡ ok true
    → ((release_lease rt stage owner d).1 s ≡ none)
      × ((t : Stage) → same_stage s t ≡ false → (release_lease rt stage owner d).1 t ≡ d t)
unfolding release_lease
release_frees rt stage owner d s e h = elim (Result-cases (find_owned rt d stage owner)) [
  | inl (none, f) ↦ ground arith
  | inl (some l, f) ↦
      let o = find_owned_lem rt d stage owner l f in
      (ground (arith, o, same_stage_refl s), λ t n. ground (arith, o))
  | inr (x, f) ↦ ground arith
]

abbrev pub renewal : Request → Text → RecordingLease → Request
renewal q owner l = record q { call_id = l.call_id; owner = some owner }

-- A renewal that answers True leaves the owner's lease on the same call, with the new expiry.
pub renew_extends :
    (rt : Runtime) (q : Request) (owner : Text) (d : CallDir) (s : Stage)
    → lease_path q.stage ≡ ok s
    → (renew_lease rt q owner d).0 ≡ ok true
    → (a : RecordingLease) × (read_lease rt (d s) s ≡ ok (some a))
      × (a.owner ≡ owner)
      × (read_lease rt ((renew_lease rt q owner d).1 s) s
          ≡ ok (some (record a { expires_at = (new_lease s q).expires_at })))
unfolding renew_lease
renew_extends rt q owner d s e h = elim (Result-cases (find_owned rt d q.stage owner)) [
  | inl (none, f) ↦ absurd (ground arith)
  | inl (some l, f) ↦ elim (Result-cases (acquire_lease rt (renewal q owner l) d).0) [
    | inl (m, g) ↦
        let o = find_owned_lem rt d q.stage owner l f in
        let valid = stage-read_lease rt (d l.stage) l.stage l o.1 in
        let k = acquire-Taken rt (renewal q owner l) d m g in
        let nonempty = uuid_nonempty rt l.owner valid.1 in
        let back = read-acquire rt (renewal q owner l) d m g in
        (l, ground (arith, o), o.2, ground (arith, o, valid, k.lease, k.named, nonempty, back))
    | inr (x, g) ↦ absurd (ground arith)
  ]
  | inr (x, f) ↦ absurd (ground arith)
]

-- Some stage has a lease that has not expired.
abbrev pub FindsActive : Runtime → ℕ → CallDir → Type 0
FindsActive rt now d =
    (s : Stage) × (a : RecordingLease) × (read_lease rt (d s) s ≡ ok (some a))
    × (now < a.expires_at)

any_valid_sound :
    (rt : Runtime) (now : ℕ) (d : CallDir) (l : List Stage)
    → any_valid rt d now l ≡ ok true
    → FindsActive rt now d
unfolding any_valid
any_valid_sound rt now d [] h = absurd (ground arith)
any_valid_sound rt now d (s ∷ rest) h = elim (Result-cases (read_lease rt (d s) s)) [
  | inl (none, e) ↦ any_valid_sound rt now d rest (ground arith)
  | inl (some a, e) ↦ elim (Bool-cases (is_active now a)) [
    | inl live ↦ (s, a, e, ground arith)
    | inr dead ↦ any_valid_sound rt now d rest (ground arith)
  ]
  | inr (x, e) ↦ absurd (ground arith)
]

any_valid_total :
    (rt : Runtime) (now : ℕ) (d : CallDir)
    → AllReadable d
    → (l : List Stage) → (b : Bool) × (any_valid rt d now l ≡ ok b)
unfolding any_valid
any_valid_total rt now d readable [] = (false, refl)
any_valid_total rt now d readable (s ∷ rest) =
    let (r, e) = read_lease_total rt (d s) s (readable s) in
    let (b, ih) = any_valid_total rt now d readable rest in
    elim (Option-cases r) [
      | inl n ↦ (b, ground (arith, e, n, ih))
      | inr (a, n) ↦ (if is_active now a then true else b, ground (arith, e, n, ih))
    ]

any_valid_complete :
    (rt : Runtime) (now : ℕ) (d : CallDir)
    → AllReadable d
    → (t : Stage) (a : RecordingLease) → read_lease rt (d t) t ≡ ok (some a)
    → now < a.expires_at
    → any_valid rt d now lease_stages ≡ ok true
unfolding any_valid
any_valid_complete rt now d readable t a e h =
    let (r0, e0) = read_lease_total rt (d capture) capture (readable capture) in
    let (r1, e1) = read_lease_total rt (d conversion) conversion (readable conversion) in
    let (r2, e2) = read_lease_total rt (d smb) smb (readable smb) in
    let (r3, e3) = read_lease_total rt (d transcription) transcription (readable transcription) in
    ground (arith, e0, e1, e2, e3)

-- In a directory whose files can all be read, `has_valid_lease` answers, and the answer is True
-- exactly when some stage has a lease that has not expired.
pub has_valid_lease_iff :
    (rt : Runtime) (now : ℕ) (d : CallDir)
    → AllReadable d
    → (b : Bool) × (has_valid_lease rt now d ≡ ok b) × ((b ≡ true) ↔ FindsActive rt now d)
unfolding has_valid_lease
has_valid_lease_iff rt now d readable =
    let (b, e) = any_valid_total rt now d readable lease_stages in
    (
      b,
      e,
      (
        λ h. any_valid_sound rt now d lease_stages (e ∙ ap ok h),
        λ (s, a, r, h). ground (arith, e, any_valid_complete rt now d readable s a r h),
      ),
    )
