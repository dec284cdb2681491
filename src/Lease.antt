-- ===== src/Lease.antt =====
-- Leases on a call directory (src/audio/recording_lifecycle.py). Every operation runs under the
-- directory's file lock, so it is one step on the lease files; times are microseconds.
pub mod Python
pub mod Files
pub mod Exclusion
pub mod Protocol
pub mod Renewal
pub mod Slots
pub mod Trace
pub mod Examples
mod Tests
use zenith_voip.Prelude.{
  ℕ, ◌+◌, ◌*◌, Bool, true, false, not, ◌&&◌, ◌||◌, Option, none, some, List, [], ◌∷◌, Text, codes,
  ltb, ◌==◌, text_eq, is_empty, is_some, if◌then◌else◌,
}
use zenith_voip.Prelude.Result.{Result, ok, err, ◌>>=◌, ◌>>◌, raise_if}
use zenith_voip.Prelude.Json.{Json, num, str, obj, Fields, end, field, member, is_one}
use Python.{Runtime, Stamp, naive, aware}

pub data Stage : Type 0 where
  capture conversion smb transcription : Stage

abbrev pub stage_name : Stage → Text
stage_name capture = codes "capture"
stage_name conversion = codes "conversion"
stage_name smb = codes "smb"
stage_name transcription = codes "transcription"

-- `LEASE_STAGES`; a frozenset has no order, so the order in which a loop meets them is one choice.
abbrev pub lease_stages : List Stage
lease_stages = capture ∷ conversion ∷ smb ∷ transcription ∷ []

-- `stage in LEASE_STAGES`, with the member
unfoldable pub find_stage : Text → Option Stage
find_stage t =
    if text_eq t (stage_name capture)
    then some capture
    else if text_eq t (stage_name conversion)
    then some conversion
    else if text_eq t (stage_name smb)
    then some smb
    else if text_eq t (stage_name transcription)
    then some transcription
    else none

abbrev pub same_stage : Stage → Stage → Bool
same_stage capture capture = true
same_stage conversion conversion = true
same_stage smb smb = true
same_stage transcription transcription = true
same_stage _ _ = false

-- What a lease file holds: bytes that are no JSON text, or the value that they stand for.
pub data File : Type 0 where
  garbled : File
  json : Json → File

-- The files `.<stage>-processing` of one call directory.
abbrev pub CallDir : Type 0
CallDir = Stage → Option File

abbrev pub put : Stage → Option File → CallDir → CallDir
put s f d t = if same_stage s t then f else d t

pub record RecordingLease : Type 0 where
  pub stage : Stage
  pub call_id : Text
  pub owner : Text
  pub expires_at : ℕ

pub data Error : Type 0 where
  lease_busy invalid_stage attribute_error : Error

-- `_lease_path`: the stage whose file it is
unfoldable pub lease_path : Text → Result Error Stage
lease_path t = elim (find_stage t) [ none ↦ err invalid_stage | some s ↦ ok s ]

-- The dictionary that `_acquire_lease_unlocked` writes.
unfoldable pub payload : Runtime → RecordingLease → Fields
payload rt l = field (codes "version") (num 1) (
    field (codes "stage") (str (stage_name l.stage)) (
      field (codes "call_id") (str l.call_id) (
        field (codes "owner") (str l.owner)
          (field (codes "expires_at") (str (rt.isoformat l.expires_at)) end))))

-- `stage not in LEASE_STAGES or stage != expected_stage`, and the stage when neither holds
unfoldable pub expected : Option Json → Stage → Option Stage
expected (some (str t)) s = elim (find_stage t) [
  | none ↦ none
  | some u ↦ if same_stage u s then some u else none
]
expected _ s = none

-- `datetime.fromisoformat`, and the test of its time zone
unfoldable pub expiry : Runtime → Option Json → Option ℕ
expiry rt (some (str t)) = elim (rt.fromisoformat t) [
  | none ↦ none
  | some (naive u) ↦ none
  | some (aware u) ↦ some u
]
expiry rt _ = none

-- The fields of `_read` once `owner` and `call_id` are there.
unfoldable pub read_fields : Runtime → Fields → Stage → Text → Text → Option RecordingLease
read_fields rt fs s owner call_id =
    if not (rt.is_uuid owner)
    then none
    else if not (is_one (member (codes "version") fs)) || is_empty call_id
    then none
    else elim (expected (member (codes "stage") fs) s) [
      | none ↦ none
      | some u ↦ elim (expiry rt (member (codes "expires_at") fs)) [
        | none ↦ none
        | some t ↦ some (record { stage = u; call_id = call_id; owner = owner; expires_at = t })
      ]
    ]

-- `_read` of a file with the stage that it is expected to have: `.get` of a value that is not an
-- object raises an AttributeError, which its `except` clause does not name.
unfoldable pub read_lease : Runtime → Option File → Stage → Result Error (Option RecordingLease)
unfolding read_fields expected expiry
read_lease rt none s = ok none
read_lease rt (some garbled) s = ok none
read_lease rt (some (json (obj fs))) s = ok (elim (member (codes "owner") fs) [
  | none ↦ none
  | some o ↦ elim (member (codes "call_id") fs) [
    | none ↦ none
    | some c ↦ read_fields rt fs s (rt.str_of o) (rt.str_of c)
  ]
])
read_lease rt (some (json _)) s = err attribute_error

-- `active.expires_at > current`
abbrev pub is_active : ℕ → RecordingLease → Bool
is_active now l = ltb now l.expires_at

-- `owner is None or active.owner != owner`
abbrev pub is_foreign : Option Text → RecordingLease → Bool
is_foreign none l = true
is_foreign (some o) l = not (text_eq l.owner o)

-- The test of one stage in the first loop of `_acquire_lease_unlocked`.
abbrev pub blocks : Option Text → ℕ → Option RecordingLease → Bool
blocks owner now none = false
blocks owner now (some l) = is_active now l && is_foreign owner l

-- The first loop of `_acquire_lease_unlocked`.
unfoldable pub check_stages :
    Runtime → CallDir → Option Text → ℕ → List Stage → Result Error (Unit {0})
check_stages rt d owner now [] = ok tt
check_stages rt d owner now (s ∷ rest) = do
  l ← read_lease rt (d s) s
  raise_if (blocks owner now l) lease_busy
  check_stages rt d owner now rest

-- `owner or str(uuid.uuid4())`, where `fresh` is the text of the new UUID
abbrev pub owner_or : Option Text → Text → Text
owner_or none fresh = fresh
owner_or (some o) fresh = if is_empty o then fresh else o

-- `ttl_seconds or settings.RECORDING_LEASE_TTL_SECONDS`
abbrev pub ttl_or : Option ℕ → ℕ → ℕ
ttl_or none default = default
ttl_or (some n) default = if n == 0 then default else n

abbrev pub microseconds : ℕ
microseconds = 1_000_000

pub record Request : Type 0 where
  pub stage : Text
  pub call_id : Text
  pub owner : Option Text
  pub now : ℕ
  pub ttl_seconds : Option ℕ
  pub fresh : Text
  pub default_ttl : ℕ

abbrev pub new_lease : Stage → Request → RecordingLease
new_lease s q = record {
  stage = s;
  call_id = q.call_id;
  owner = owner_or q.owner q.fresh;
  expires_at = q.now + ttl_or q.ttl_seconds q.default_ttl * microseconds;
}

-- `existing and existing.owner == lease.owner`
abbrev pub owned_by : Text → Option RecordingLease → Bool
owned_by o none = false
owned_by o (some l) = text_eq l.owner o

-- `_write` replaces the file; `_write_exclusive` raises if there is one.
unfoldable pub write_lease :
    Runtime → CallDir → RecordingLease → Bool → Result Error RecordingLease × CallDir
write_lease rt d l replace =
    if replace || not (is_some (d l.stage))
    then (ok l, put l.stage (some (json (obj (payload rt l)))) d)
    else (err lease_busy, d)

-- The part of `_acquire_lease_unlocked` below the loop, once the stage's own file is read.
unfoldable pub take_stage :
    Runtime
    → CallDir
    → Request
    → Stage
    → Option RecordingLease
    → Result Error RecordingLease × CallDir
take_stage rt d q s none = let l = new_lease s q in write_lease rt (put s none d) l false
take_stage rt d q s (some old) =
    let l = new_lease s q in
    let replace = text_eq old.owner l.owner in
    if is_active q.now old
    then if is_foreign q.owner old then (err lease_busy, d) else write_lease rt d l replace
    else write_lease rt (put s none d) l replace

-- What the loop, `_lease_path` and `_read` find before the directory is touched.
unfoldable pub inspect : Runtime → CallDir → Request → Result Error (Stage × Option RecordingLease)
inspect rt d q = do
  check_stages rt d q.owner q.now lease_stages
  s ← lease_path q.stage
  old ← read_lease rt (d s) s
  ok (s, old)

-- `acquire_lease`
unfoldable pub acquire_lease : Runtime → Request → CallDir → Result Error RecordingLease × CallDir
acquire_lease rt q d = elim (inspect rt d q) [
  | err e ↦ (err e, d)
  | ok (s, old) ↦ take_stage rt d q s old
]

-- The loop of `has_valid_lease`.
unfoldable pub any_valid : Runtime → CallDir → ℕ → List Stage → Result Error Bool
any_valid rt d now [] = ok false
any_valid rt d now (s ∷ rest) = read_lease rt (d s) s >>= λ l. elim l [
  | none ↦ any_valid rt d now rest
  | some a ↦ if is_active now a then ok true else any_valid rt d now rest
]

unfoldable pub has_valid_lease : Runtime → ℕ → CallDir → Result Error Bool
has_valid_lease rt now d = any_valid rt d now lease_stages

-- `lease is None or lease.owner != owner`, for a stage and its file
unfoldable pub find_owned : Runtime → CallDir → Text → Text → Result Error (Option RecordingLease)
find_owned rt d stage owner = do
  s ← lease_path stage
  l ← read_lease rt (d s) s
  ok (if owned_by owner l then l else none)

-- `renew_lease`; the request's call is replaced by the one in the file.
unfoldable pub renew_lease : Runtime → Request → Text → CallDir → Result Error Bool × CallDir
renew_lease rt q owner d = elim (find_owned rt d q.stage owner) [
  | err e ↦ (err e, d)
  | ok none ↦ (ok false, d)
  | ok (some l) ↦
      let (r, d') = acquire_lease rt (record q { call_id = l.call_id; owner = some owner }) d in
      ((r >>= λ _. ok true), d')
]

-- `release_lease`
unfoldable pub release_lease : Runtime → Text → Text → CallDir → Result Error Bool × CallDir
release_lease rt stage owner d = elim (find_owned rt d stage owner) [
  | err e ↦ (err e, d)
  | ok none ↦ (ok false, d)
  | ok (some l) ↦ (ok true, put l.stage none d)
]
