-- ===== src/Lease/Slots/Tests.antt =====
-- Runs of the contract and of the files.
use zenith_voip.Prelude.{◌≡◌, refl, true, false, none, List, [], ◌∷◌, text_eq, codes}
use zenith_voip.Prelude.Result.{ok, err}
use zenith_voip.Lease.Examples.{py, asks, empty_dir}
use zenith_voip.Lease.Slots.Refines.{run_refines}
use zenith_voip.Lease.{capture, lease_busy, find_stage, lease_path, read_lease, new_lease}
use zenith_voip.Lease.Slots.{
  acquire, owned, release, renew, Call, acquires, renews, releases, checks, leased, answered, step,
  run, run_files,
}

-- A capture keeps the uploader out until it releases.
abbrev history : List Call
history =
    acquires (asks (codes "capture") none 5)
    ∷ acquires (asks (codes "conversion") none 6)
    ∷ renews (asks (codes "capture") none 9) (codes "u1")
    ∷ checks 10
    ∷ releases (codes "capture") (codes "u1")
    ∷ checks 11
    ∷ []

run_refines_example : run_files py history empty_dir ≡ run history (λ s. none)
unfolding read_lease
run_refines_example =
    run_refines py history empty_dir (λ s. none) (λ s. refl)
      ((refl, refl), ((refl, refl), (tt, (tt, (tt, (tt, tt))))))

run-history :
    run history (λ s. none)
    ≡ leased (ok (new_lease capture (asks (codes "capture") none 5)))
      ∷ leased (err lease_busy)
      ∷ answered (ok true)
      ∷ answered (ok true)
      ∷ answered (ok true)
      ∷ answered (ok false)
      ∷ []
unfolding run step acquire renew release owned lease_path find_stage text_eq
run-history = refl
