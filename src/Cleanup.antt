-- ===== src/Cleanup.antt =====
-- The cleanup of a call directory (src/workers/audio_cleanup.py), under the directory's lock: no other
-- process changes the files meanwhile. Times of files are in nanoseconds, others in microseconds.
pub mod Sweep
pub mod Backlog
pub mod Temporaries
mod Tests
use zenith_voip.Prelude.{
  ℕ, ◌+◌, ◌*◌, Bool, true, false, not, ◌&&◌, ◌||◌, Option, none, some, List, [], ◌∷◌, Text, codes,
  text_eq, one_of, is_empty, is_some, ltb, leb, ◌==◌, drop, length, ◌-◌, map, if◌then◌else◌,
}
use zenith_voip.Prelude.Dict.{Dict, lookup}
use zenith_voip.Prelude.Result.{Result, ok, err, ◌>>=◌}
use zenith_voip.Lease.{CallDir, microseconds, has_valid_lease}
use zenith_voip.Lease.Python.{Runtime, Stamp, naive, aware}
use zenith_voip.Capacity.{percent_scale}
use zenith_voip.Consumers.{is_fully_consumed}

-- `_fingerprint`
pub record Fingerprint : Type 0 where
  pub inode : ℕ
  pub size : ℕ
  pub mtime_ns : ℕ

pub record Candidate : Type 0 where
  pub first_seen : Option Text
  pub fingerprint : Option Fingerprint

-- A call directory: its leases, the markers of its consumers, the observations of its temporaries,
-- and its other files.
pub record Directory : Type 0 where
  pub leases : CallDir
  pub consumed : List Text
  pub candidates : Dict Candidate
  pub files : Dict Fingerprint

pub record Settings : Type 0 where
  pub required_consumers : List Text
  pub resume_free_percent : ℕ
  pub round_seconds : ℕ

pub record Usage : Type 0 where
  pub total : ℕ
  pub free : ℕ

pub data Error : Type 0 where
  lease consumer : Error

abbrev pub local_temporaries : List Text
local_temporaries =
    codes "tx.tmp.raw"
    ∷ codes "rx.tmp.raw"
    ∷ codes "tx.tmp.wav"
    ∷ codes "rx.tmp.wav"
    ∷ codes "stereo.tmp.wav"
    ∷ []

abbrev pub consumable_files : List Text
consumable_files = codes "tx.wav" ∷ codes "rx.wav" ∷ codes "tx.raw" ∷ codes "rx.raw" ∷ []

abbrev pub backlog_files : List Text
backlog_files = codes "tx.wav" ∷ codes "rx.wav" ∷ []

-- What the loop knows of the directory.
pub record View : Type 0 where
  pub now : ℕ
  pub cutoff_ns : ℕ
  pub round_seconds : ℕ
  pub fully_consumed : Bool
  pub transcription_pending : Bool
  pub preserve_backlog : Bool

-- `free_percent >= settings.RECORDING_RESUME_FREE_PERCENT`, in exact fractions
abbrev pub is_roomy : Settings → Usage → Bool
is_roomy s u =
    if u.total == 0
    then leb s.resume_free_percent 0
    else leb (s.resume_free_percent * u.total) (u.free * 100 * percent_scale)

abbrev pub mapped : {A : Type 0} {E F : Type 0} → F → Result E A → Result F A
mapped f (ok a) = ok a
mapped f (err e) = err f

-- What is read before the loop.
unfoldable pub view : Settings → Usage → ℕ → ℕ → List Text → Result Error View
view s u cutoff now consumed = do
  full ← mapped consumer (is_fully_consumed s.required_consumers consumed)
  done ← mapped consumer (is_fully_consumed (codes "transcription" ∷ []) consumed)
  let pending = one_of (codes "transcription") s.required_consumers && not done
  ok (record {
    now = now;
    cutoff_ns = cutoff;
    round_seconds = s.round_seconds;
    fully_consumed = full;
    transcription_pending = pending;
    preserve_backlog = pending && is_roomy s u;
  })

abbrev pub same_fingerprint : Option Fingerprint → Fingerprint → Bool
same_fingerprint none f = false
same_fingerprint (some g) f = g.inode == f.inode && g.size == f.size && g.mtime_ns == f.mtime_ns

-- `elapsed >= settings.RECORDING_CLEANUP_ROUND_SECONDS`; a time that cannot be read has elapsed 0.
unfoldable pub is_over : Runtime → View → Option Text → Bool
is_over rt v none = v.round_seconds == 0
is_over rt v (some t) = elim (rt.fromisoformat t) [
  | none ↦ v.round_seconds == 0
  | some (naive u) ↦ v.round_seconds == 0
  | some (aware u) ↦ leb (u + v.round_seconds * microseconds) v.now
]

-- What happens to a file: it stays, it is a temporary that is watched, or it is deleted.
pub data Action : Type 0 where
  keep delete_temporary delete : Action
  watch : Candidate → Action

abbrev pub seen : Option Candidate → Option Text
seen none = none
seen (some c) = elim c.first_seen [ none ↦ none | some t ↦ if is_empty t then none else some t ]

abbrev pub print_of : Option Candidate → Option Fingerprint
print_of none = none
print_of (some c) = c.fingerprint

-- The branch of the loop for a temporary.
unfoldable pub temporary_action : Runtime → View → Option Candidate → Fingerprint → Action
temporary_action rt v old f =
    let same = same_fingerprint (print_of old) f in
    let first = if same && is_some (seen old) then seen old else some (rt.isoformat v.now) in
    if same && is_over rt v (seen old)
    then delete_temporary
    else watch (record { first_seen = first; fingerprint = some f })

abbrev pub starts_with_dot : Text → Bool
starts_with_dot [] = false
starts_with_dot (c ∷ s) = c == b'.'

-- `path.name.endswith(".wav.tmp")`
abbrev pub is_wav_tmp : Text → Bool
is_wav_tmp s = text_eq (drop (length s - 8) s) (codes ".wav.tmp")

unfoldable pub other_action : View → Text → Fingerprint → Action
other_action v name f =
    let expired = ltb f.mtime_ns v.cutoff_ns in
    let protected = v.preserve_backlog && one_of name backlog_files in
    if starts_with_dot name || is_wav_tmp name
    then keep
    else if (v.fully_consumed && one_of name consumable_files) || (expired && not protected)
    then delete
    else keep

unfoldable pub action : Runtime → View → Dict Candidate → Text → Fingerprint → Action
action rt v candidates name f =
    if one_of name local_temporaries
    then temporary_action rt v (lookup name candidates) f
    else other_action v name f

pub record Counts : Type 0 where
  pub deleted : ℕ
  pub bytes_freed : ℕ
  pub temporary_candidates : ℕ
  pub temporary_deleted : ℕ

abbrev pub no_counts : Counts
no_counts = record { deleted = 0; bytes_freed = 0; temporary_candidates = 0; temporary_deleted = 0 }

pub record Swept : Type 0 where
  pub files : Dict Fingerprint
  pub candidates : Dict Candidate
  pub counts : Counts

-- The loop over the regular files of the directory other than `.cleanup-candidates.json`.
unfoldable pub sweep : Runtime → View → Dict Candidate → Dict Fingerprint → Swept
sweep rt v old [] = record { files = []; candidates = []; counts = no_counts }
sweep rt v old ((name, f) ∷ fs) =
    let rest = sweep rt v old fs in
    let n = rest.counts in
    elim (action rt v old name f) [
      | keep ↦ record rest { files = (name, f) ∷ rest.files }
      | watch c ↦ record {
        files = (name, f) ∷ rest.files;
        candidates = (name, c) ∷ rest.candidates;
        counts = record n { temporary_candidates = n.temporary_candidates + 1 };
      }
      | delete_temporary ↦ record rest {
        counts = record {
          deleted = n.deleted + 1;
          bytes_freed = n.bytes_freed + f.size;
          temporary_candidates = n.temporary_candidates + 1;
          temporary_deleted = n.temporary_deleted + 1;
        };
      }
      | delete ↦ record rest {
        counts = record n { deleted = n.deleted + 1; bytes_freed = n.bytes_freed + f.size };
      }
    ]

-- `_cleanup_call_directory`
unfoldable pub cleanup_call_directory :
    Runtime → Settings → Usage → ℕ → ℕ → Directory → Result Error Counts × Directory
cleanup_call_directory rt s u cutoff now d = elim (has_valid_lease rt now d.leases) [
  | err e ↦ (err lease, d)
  | ok true ↦ (ok no_counts, record d { candidates = [] })
  | ok false ↦ elim (view s u cutoff now d.consumed) [
    | err e ↦ (err e, d)
    | ok v ↦
        let done = sweep rt v d.candidates d.files in
        (ok done.counts, record d { files = done.files; candidates = done.candidates })
  ]
]

abbrev pub plus : Counts → Counts → Counts
plus a b = record {
  deleted = a.deleted + b.deleted;
  bytes_freed = a.bytes_freed + b.bytes_freed;
  temporary_candidates = a.temporary_candidates + b.temporary_candidates;
  temporary_deleted = a.temporary_deleted + b.temporary_deleted;
}

-- The loop of `cleanup_tenant_bucket`, with the disk as each directory finds it: the first exception
-- ends it (status `failed`), and the later directories are not visited.
unfoldable pub cleanup_tenant_bucket :
    Runtime
    → Settings
    → ℕ
    → ℕ
    → List (Usage × Directory)
    → Counts
    → Result Error Counts × List Directory
cleanup_tenant_bucket rt s cutoff now [] n = (ok n, [])
cleanup_tenant_bucket rt s cutoff now ((u, d) ∷ ds) n =
    let (r, d') = cleanup_call_directory rt s u cutoff now d in
    elim r [
      | err e ↦ (err e, d' ∷ map (λ x. x.1) ds)
      | ok m ↦ let (r', ds') = cleanup_tenant_bucket rt s cutoff now ds (plus n m) in (r', d' ∷ ds')
    ]
