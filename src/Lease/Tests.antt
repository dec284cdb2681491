-- ===== src/Lease/Tests.antt =====
-- Runs of the lease operations on concrete directories.
use zenith_voip.Prelude.{◌≡◌, ◌↔◌, refl, Bool, true, false, none, some, arith, text_eq, codes}
use zenith_voip.Prelude.Result.{ok, err}
use zenith_voip.Prelude.Json.{nil, arr, member, is_one}
use zenith_voip.Lease.Examples.{
  py, asks, empty_dir, captured, captured_lease, read_captured, captured-AllReadable,
}
use zenith_voip.Lease.Exclusion.{HeldBy, acquire-HeldBy}
use zenith_voip.Lease.Protocol.{acquire_busy, acquire_free}
use zenith_voip.Lease.Renewal.{
  FindsActive, read-acquire, only_owner, release_frees, renew_extends, has_valid_lease_iff,
}
use zenith_voip.Lease.Trace.{Reach, start, next, acquire, release, wait, Inv, Reach-Inv}
use zenith_voip.Lease.{
  Stage, capture, smb, json, RecordingLease, lease_busy, attribute_error, same_stage, find_stage,
  lease_path, payload, expected, expiry, read_fields, read_lease, check_stages, write_lease,
  take_stage, inspect, acquire_lease, any_valid, has_valid_lease, find_owned, renew_lease,
  release_lease, new_lease,
}

acquire_first :
    (acquire_lease py (asks (codes "capture") none 5) empty_dir).0
    ≡ ok (new_lease capture (asks (codes "capture") none 5))
unfolding acquire_lease inspect check_stages read_lease lease_path find_stage text_eq take_stage
    write_lease
acquire_first = refl

acquire-HeldBy_test : HeldBy py (codes "u1") 5 captured
acquire-HeldBy_test = acquire-HeldBy py (asks (codes "capture") none 5) empty_dir _ acquire_first

read-acquire_test : read_lease py (captured capture) capture ≡ ok (some captured_lease)
read-acquire_test =
    read-acquire py (asks (codes "capture") none 5) empty_dir _ acquire_first refl refl

path-smb : lease_path (codes "smb") ≡ ok smb
unfolding lease_path find_stage text_eq
path-smb = refl

path-capture : lease_path (codes "capture") ≡ ok capture
unfolding lease_path find_stage text_eq
path-capture = refl

-- The uploader is refused while the capture runs.
acquire_busy_test :
    acquire_lease py (asks (codes "conversion") none 6) captured ≡ (err lease_busy, captured)
acquire_busy_test =
    acquire_busy py (asks (codes "conversion") none 6) captured captured-AllReadable capture
      captured_lease read_captured (omega arith) (ground arith)

acquire_free_test :
    (acquire_lease py (asks (codes "smb") none 5) empty_dir).0
    ≡ ok (new_lease smb (asks (codes "smb") none 5))
unfolding read_lease
acquire_free_test =
    acquire_free py (asks (codes "smb") none 5) empty_dir (λ s. tt) smb path-smb
      (λ t a h _. absurd (ground arith))

only_owner_test :
    (renew_lease py (asks (codes "capture") none 9) (codes "u2") captured ≡ (ok false, captured))
    × (release_lease py (codes "capture") (codes "u2") captured ≡ (ok false, captured))
only_owner_test =
    only_owner py (asks (codes "capture") none 9) captured (codes "u2") capture captured_lease
      path-capture read_captured (ground arith)

release_frees_test :
    ((release_lease py (codes "capture") (codes "u1") captured).1 capture ≡ none)
    × ((t : Stage)
        → same_stage capture t ≡ false
        → (release_lease py (codes "capture") (codes "u1") captured).1 t ≡ captured t)
unfolding acquire_lease inspect check_stages read_lease lease_path find_stage text_eq take_stage
    write_lease payload member is_one read_fields expected expiry release_lease find_owned
release_frees_test =
    release_frees py (codes "capture") (codes "u1") captured capture path-capture refl

renew_extends_test :
    (a : RecordingLease) × (read_lease py (captured capture) capture ≡ ok (some a))
    × (a.owner ≡ codes "u1")
    × (read_lease py
          ((renew_lease py (asks (codes "capture") none 9) (codes "u1") captured).1 capture)
          capture
        ≡ ok (some (record a { expires_at = 120_000_009 })))
unfolding acquire_lease inspect check_stages read_lease lease_path find_stage text_eq take_stage
    write_lease payload member is_one read_fields expected expiry renew_lease find_owned
renew_extends_test =
    renew_extends py (asks (codes "capture") none 9) (codes "u1") captured capture path-capture refl

has_valid_lease_iff_test :
    (b : Bool) × (has_valid_lease py 6 captured ≡ ok b) × ((b ≡ true) ↔ FindsActive py 6 captured)
has_valid_lease_iff_test = has_valid_lease_iff py 6 captured captured-AllReadable

-- A capture, a release and an SMB transfer.
abbrev history :
    Reach py 7
      (acquire_lease py
        (asks (codes "smb") none 7)
        (release_lease py (codes "capture") (codes "u1") captured).1).1
history =
    next
      (next
        (next (next (start 5) (acquire (asks (codes "capture") none 5) empty_dir))
          (release 5 (codes "capture") (codes "u1") captured))
        (wait 5 7 _ (omega arith)))
      (acquire (asks (codes "smb") none 7) _)

Reach-Inv_example :
    Inv py 7
      (acquire_lease py
        (asks (codes "smb") none 7)
        (release_lease py (codes "capture") (codes "u1") captured).1).1
Reach-Inv_example = Reach-Inv py history

-- A file that holds `[]` makes the validity test raise an AttributeError.
list_file_raises : has_valid_lease py 5 (λ s. some (json (arr nil))) ≡ err attribute_error
unfolding has_valid_lease any_valid read_lease
list_file_raises = refl
