-- ===== src/Ingestor.antt =====
-- The audio ingestor (src/audio/ingestor.py) over the capacity guard and the leases. The queue answers,
-- and of the disk only the opening and writing of a channel may fail.
pub mod Balance
pub mod Frames
pub mod Recorded
mod Tests
use zenith_voip.Prelude.{
  ℕ, Bool, true, false, not, ◌&&◌, ◌||◌, Option, none, some, List, [], ◌∷◌, ◌++◌, Text, codes,
  text_eq, one_of, is_some, if◌then◌else◌,
}
use zenith_voip.Prelude.Dict.{Dict, lookup, contains, insert, erase}
use zenith_voip.Prelude.Result.{Result, ok, err}
use zenith_voip.Capacity.{Guard, reserve, release, zero_division}
use zenith_voip.Capacity.Disk.{DiskState}
use zenith_voip.Lease.{
  CallDir, Request, acquire_lease, release_lease, lease_busy, invalid_stage, attribute_error,
  RecordingLease,
}
use zenith_voip.Lease.Python.{Runtime}
use zenith_voip.Esl.Handlers.{Metadata}

-- `RecordingState`; the handles and the failed channels by their names.
pub record Recording : Type 0 where
  pub directory : Text
  pub lease_owner : Text
  pub handles : List Text
  pub failed_channels : List Text

-- The ingestor, and the leases and files of the directories of calls by their paths.
pub record Ingestor : Type 0 where
  pub stream_metadata : Dict Metadata
  pub recordings : Dict Recording
  pub guard : Guard
  pub leases : Text → CallDir
  pub files : Text → Dict Text
  pub uploads : List Text

-- What `reserve` and `acquire_lease` raise past the handler.
pub data Error : Type 0 where
  no_disk unreadable_lease : Error

abbrev pub put_at : {A : Type 0} → Text → A → (Text → A) → Text → A
put_at p a f q = if text_eq p q then a else f q

abbrev pub call_dir : Metadata → Text → Text
call_dir m call_id = m.tenant_id ++ (b'/' ∷ call_id)

-- The time, the new UUID and the setting of one `acquire_lease(call_dir, "capture", call_id)`.
pub record Moment : Type 0 where
  pub now : ℕ
  pub fresh : Text
  pub default_ttl : ℕ

abbrev pub capture_request : Moment → Text → Request
capture_request m call_id = record {
  stage = codes "capture";
  call_id = call_id;
  owner = none;
  now = m.now;
  ttl_seconds = none;
  fresh = m.fresh;
  default_ttl = m.default_ttl;
}

-- The part of `_start_recording` below a granted reservation.
unfoldable pub take_capture :
    Runtime → Moment → Text → Text → Ingestor → Result Error Bool × Ingestor
take_capture rt m call_id dir w =
    let taken = acquire_lease rt (capture_request m call_id) (w.leases dir) in
    elim taken.0 [
      | ok lease ↦ (
        ok true,
        record w {
          leases = put_at dir taken.1 w.leases;
          recordings =
              insert call_id
                (record {
                  directory = dir;
                  lease_owner = lease.owner;
                  handles = [];
                  failed_channels = [];
                })
                w.recordings;
        },
      )
      | err lease_busy ↦ (ok false, record w { guard = (release call_id w.guard).1 })
      | err invalid_stage ↦ (err unreadable_lease, w)
      | err attribute_error ↦ (err unreadable_lease, w)
    ]

-- `_start_recording`
unfoldable pub start_recording :
    Runtime → DiskState → Moment → Text → Ingestor → Result Error Bool × Ingestor
start_recording rt disk m call_id w = elim (contains call_id w.recordings) [
  | true ↦ (ok true, w)
  | false ↦ elim (lookup call_id w.stream_metadata) [
    | none ↦ (ok false, w)
    | some meta ↦
        let asked = reserve disk call_id w.guard in
        let reserved = record w { guard = asked.1 } in
        elim asked.0 [
          | err zero_division ↦ (err no_disk, reserved)
          | ok false ↦ (ok false, reserved)
          | ok true ↦ take_capture rt m call_id (call_dir meta call_id) reserved
        ]
  ]
]

abbrev pub temporary_name : Text → Text
temporary_name channel = channel ++ codes ".tmp.raw"

abbrev pub raw_name : Text → Text
raw_name channel = channel ++ codes ".raw"

abbrev pub content : Option Text → Text
content none = []
content (some s) = s

-- `handle.write(data)` at the end of the file
abbrev pub appended : Text → Text → Dict Text → Dict Text
appended name bytes d = insert name (content (lookup name d) ++ bytes) d

abbrev pub is_channel : Text → Bool
is_channel c = one_of c (codes "tx" ∷ codes "rx" ∷ [])

abbrev pub with_name : Text → List Text → List Text
with_name c cs = if one_of c cs then cs else cs ++ (c ∷ [])

-- `_write_channel`; `writable` is whether the file can be opened and written.
unfoldable pub write_channel : Bool → Text → Text → Text → Ingestor → Bool × Ingestor
write_channel writable call_id channel bytes w = elim (lookup call_id w.recordings) [
  | none ↦ (false, w)
  | some r ↦
      if not (is_channel channel)
      then (false, w)
      else if writable
      then (
        true,
        record w {
          files =
              put_at r.directory (appended (temporary_name channel) bytes (w.files r.directory))
                w.files;
          recordings =
              insert call_id (record r { handles = with_name channel r.handles }) w.recordings;
        },
      )
      else (
        false,
        record w {
          recordings =
              insert call_id (record r { failed_channels = with_name channel r.failed_channels })
                w.recordings;
        },
      )
]

-- The loop of `finalize_stream` over the handles: the files, and whether one was published.
unfoldable pub publish_channels : List Text → List Text → Dict Text → Dict Text × Bool
publish_channels [] failed d = (d, false)
publish_channels (c ∷ cs) failed d = elim (lookup (temporary_name c) d) [
  | none ↦ publish_channels cs failed d
  | some s ↦ elim (one_of c failed) [
    | true ↦ publish_channels cs failed d
    | false ↦
        ((publish_channels cs failed (insert (raw_name c) s (erase (temporary_name c) d))).0, true)
  ]
]

-- `finalize_stream`; what the release of the lease raises ends it there.
unfoldable pub finalize_stream : Runtime → Text → Ingestor → Result Error Bool × Ingestor
finalize_stream rt call_id w = elim (lookup call_id w.recordings) [
  | none ↦ (ok false, record w { stream_metadata = erase call_id w.stream_metadata })
  | some r ↦
      let dir = r.directory in
      let done = publish_channels r.handles r.failed_channels (w.files dir) in
      let freed = release_lease rt (codes "capture") r.lease_owner (w.leases dir) in
      let published = record w {
        recordings = erase call_id w.recordings;
        leases = put_at dir freed.1 w.leases;
        files = put_at dir done.0 w.files;
        uploads = if done.1 then call_id ∷ w.uploads else w.uploads;
      } in
      elim freed.0 [
        | err e ↦ (err unreadable_lease, published)
        | ok b ↦ (
          ok true,
          record published {
            stream_metadata = erase call_id w.stream_metadata;
            guard = (release call_id w.guard).1;
          },
        )
      ]
]

-- `register_stream_metadata`
unfoldable pub register_stream_metadata : Text → Metadata → Ingestor → Ingestor
register_stream_metadata call_id m w = record w {
  stream_metadata = insert call_id m w.stream_metadata;
}

-- `_split_stereo_frame`: 16-bit samples alternate, and what is left of a sample is dropped.
unfoldable pub split_stereo_frame : Text → Text × Text
split_stereo_frame (a ∷ b ∷ c ∷ d ∷ s) =
    let rest = split_stereo_frame s in (a ∷ b ∷ rest.0, c ∷ d ∷ rest.1)
split_stereo_frame (a ∷ b ∷ s) = (a ∷ b ∷ [], [])
split_stereo_frame s = ([], [])

-- One frame in the loop of `handle_forked_stream`; `writable` is about each of the two writes.
unfoldable pub write_frame : Bool × Bool → Text → Text → Ingestor → Ingestor
write_frame writable call_id raw w =
    let halves = split_stereo_frame raw in
    let tx = (write_channel writable.0 call_id (codes "tx") halves.0 w).1 in
    (write_channel writable.1 call_id (codes "rx") halves.1 tx).1
