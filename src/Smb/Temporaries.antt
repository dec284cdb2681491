-- ===== src/Smb/Temporaries.antt =====
-- `cleanup_remote_temporaries` (src/workers/smb_sync.py), over any share: the temporary objects of the
-- two names of a call, each deleted a round after it was first seen.
pub mod Keeps
mod Tests
use zenith_voip.Prelude.{
  ℕ, ◌+◌, ◌*◌, Bool, true, false, not, Option, none, some, List, [], ◌∷◌, ◌++◌, Text, codes,
  is_empty, ltb, if◌then◌else◌,
}
use zenith_voip.Prelude.Dict.{Dict, lookup}
use zenith_voip.Prelude.Result.{Result, ok, err}
use zenith_voip.Lease.{microseconds}
use zenith_voip.Lease.Python.{Runtime, Stamp, naive, aware}
use zenith_voip.Smb.Share.{Share, Failure, path}

abbrev pub time_of : Stamp → ℕ
time_of (naive t) = t
time_of (aware t) = t

-- `_parse_datetime`: a time without a zone is one of UTC.
unfoldable pub parse_datetime : Runtime → Option Text → Option ℕ
parse_datetime rt none = none
parse_datetime rt (some s) = elim (is_empty s) [
  | true ↦ none
  | false ↦ elim (rt.fromisoformat s) [ none ↦ none | some t ↦ some (time_of t) ]
]

abbrev pub object_name : Text → Text
object_name name = name ++ codes ".tmp"

-- What happens to a temporary object that is listed: it is noted with a time, or deleted.
pub data Decision : Type 0 where
  note : Text → Decision
  remove : Decision

unfoldable pub decide : Runtime → ℕ → ℕ → Option Text → Decision
decide rt now round_seconds candidate = elim (parse_datetime rt candidate) [
  | none ↦ note (rt.isoformat now)
  | some first ↦
      if ltb now (first + round_seconds * microseconds) then note (rt.isoformat first) else remove
]

module _ (share : Share) (rt : Runtime) (now round_seconds : ℕ) (dir : Text) where
  open share use {State, open_directory, list_path, delete_files}

  abbrev pub noted :
      Text → Text → Result Failure (Dict Text) × State → Result Failure (Dict Text) × State
  noted name time (ok d, s) = (ok ((object_name name, time) ∷ d), s)
  noted name time (err e, s) = (err e, s)

  -- The loop over the expected names, once the directory is listed.
  unfoldable pub clean_names :
      (Text → Bool) → Dict Text → List Text → State → Result Failure (Dict Text) × State
  clean_names names candidates [] s = (ok [], s)
  clean_names names candidates (n ∷ ns) s = elim (names (object_name n)) [
    | false ↦ clean_names names candidates ns s
    | true ↦ elim (decide rt now round_seconds (lookup (object_name n) candidates)) [
      | note time ↦ noted n time (clean_names names candidates ns s)
      | remove ↦
          let deleted = delete_files (path dir (object_name n)) s in
          elim deleted.0 [
            | err e ↦ (err e, deleted.1)
            | ok tt ↦ clean_names names candidates ns deleted.1
          ]
    ]
  ]

  unfoldable pub cleanup_remote_temporaries :
      List Text → Dict Text → State → Result Failure (Dict Text) × State
  cleanup_remote_temporaries expected candidates s =
      let opened = open_directory dir s in
      let listed = list_path dir opened.1 in
      elim opened.0 [
        | err e ↦ (err e, opened.1)
        | ok tt ↦ elim listed.0 [
          | err e ↦ (err e, listed.1)
          | ok names ↦ clean_names names candidates expected listed.1
        ]
      ]
