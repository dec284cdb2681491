-- ===== src/Smb/Temporaries/Tests.antt =====
-- Two temporary objects, of which one was seen before.
use zenith_voip.Prelude.{◌≡◌, refl, none, some, [], ◌∷◌, Text, codes, text_eq, inl, inr, arith}
use zenith_voip.Prelude.Dict.{Dict, lookup}
use zenith_voip.Prelude.Result.{ok}
use zenith_voip.Lease.Examples.{py}
use zenith_voip.Smb.Share.{path, join_path, join_nonempty, strip_all, strip_slashes}
use zenith_voip.Smb.Publish.Examples.{Files, update, in_memory}
use zenith_voip.Smb.Temporaries.{
  parse_datetime, decide, object_name, clean_names, cleanup_remote_temporaries,
}
use zenith_voip.Smb.Temporaries.Keeps.{cleanup_remote_temporaries-keeps}

abbrev object : Text → Text
object name = path (codes "t") (object_name name)

abbrev files : Files
files =
    update (object (codes "a")) (some (codes "x"))
      (update (object (codes "b")) (some (codes "y")) (λ p. none))

abbrev seen : Dict Text
seen = (object_name (codes "a"), 5 ∷ []) ∷ []

cleanup_runs :
    (cleanup_remote_temporaries in_memory py 2_000_000 1
      (codes "t")
      (codes "a" ∷ codes "b" ∷ [])
      seen
      files).0
    ≡ ok ((object_name (codes "b"), 2_000_000 ∷ []) ∷ [])
unfolding cleanup_remote_temporaries clean_names decide parse_datetime lookup text_eq join_path
    join_nonempty strip_all strip_slashes
cleanup_runs = refl

cleanup_remote_temporaries-keeps_example :
    in_memory.view
      (cleanup_remote_temporaries in_memory py 2_000_000 1
        (codes "t")
        (codes "a" ∷ codes "b" ∷ [])
        seen
        files).1
      (object (codes "b"))
    ≡ in_memory.view files (object (codes "b"))
unfolding decide parse_datetime lookup text_eq join_path join_nonempty strip_all strip_slashes
cleanup_remote_temporaries-keeps_example =
    cleanup_remote_temporaries-keeps in_memory py 2_000_000 1 (codes "t")
      (codes "a" ∷ codes "b" ∷ []) seen files (object (codes "b"))
      (inl (ground arith), (inr (inl refl), tt))
