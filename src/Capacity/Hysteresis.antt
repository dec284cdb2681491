-- ===== src/Capacity/Hysteresis.antt =====
-- The degraded mode, releases, and histories of calls on the guard.
use zenith_voip.Prelude.{
  ℕ, ◌-◌, ◌*◌, ◌≤◌, ◌≡◌, refl, true, false, List, [], ◌∷◌, All, Text, text_eq, text_eq_refl, arith,
  length, if◌then◌else◌, none,
}
use zenith_voip.Prelude.Dict.{Dict, lookup, contains, insert, erase, lookup-erase}
use zenith_voip.Prelude.Result.{ok}
use zenith_voip.Capacity.Disk.{DiskState}
use zenith_voip.Capacity.{
  Guard, bytes_per_call, sum_values, reserved_bytes, projected, percent_scale, reserve, release,
}

-- A refusal keeps every reservation, and after it a new call is admitted only when the free space that
-- would be left reaches the resume threshold.
pub resume_after_refusal :
    (disk later : DiskState) (refused call_id : Text) (g : Guard)
    → (reserve disk refused g).0 ≡ ok false
    → let g' = (reserve disk refused g).1 in
      (g'.reservations ≡ g.reservations)
      × (contains call_id g.reservations ≡ false
          → (reserve later call_id g').0 ≡ ok true
          → g.resume_free_percent * later.total
            ≤ 100 * (later.total - projected later g') * percent_scale)
unfolding reserve
resume_after_refusal disk later refused call_id g h = (ground arith, λ new k. ground arith)

-- A release removes the call's reservation and no other; it answers whether there was one, and a
-- second release answers False.
pub release_once :
    (call_id : Text) (g : Guard)
    → let (had, g') = release call_id g in
      (had ≡ contains call_id g.reservations)
      × ((j : Text)
          → lookup j g'.reservations
            ≡ (if text_eq call_id j then none else lookup j g.reservations))
      × ((release call_id g').0 ≡ false)
unfolding release
release_once call_id g = (
  refl,
  λ j. lookup-erase call_id j g.reservations,
  ground (arith, lookup-erase call_id call_id g.reservations, text_eq_refl call_id),
)

pub data Call : Type 0 where
  reserves : DiskState → Text → Call
  releases : Text → Call

pub step : Guard → Call → Guard
step g (reserves disk call_id) = (reserve disk call_id g).1
step g (releases call_id) = (release call_id g).1

pub run : Guard → List Call → Guard
run g [] = g
run g (c ∷ cs) = run (step g c) cs

-- Every reservation is of the size of one call.
abbrev Uniform : ℕ → Dict ℕ → Type 0
Uniform n d = All (λ e. e.1 ≡ n) d

insert-Uniform : (k : Text) (n : ℕ) (d : Dict ℕ) → Uniform n d → Uniform n (insert k n d)
unfolding insert
insert-Uniform k n [] h = (refl, tt)
insert-Uniform k n (e ∷ d) h = ground (arith, insert-Uniform k n d h.1)

erase-Uniform : (k : Text) (n : ℕ) (d : Dict ℕ) → Uniform n d → Uniform n (erase k d)
unfolding erase
erase-Uniform k n [] h = tt
erase-Uniform k n (e ∷ d) h = ground (arith, erase-Uniform k n d h.1)

sum-Uniform : (n : ℕ) (d : Dict ℕ) → Uniform n d → sum_values d ≡ length d * n
unfolding sum_values
sum-Uniform n [] h = omega arith
sum-Uniform n (e ∷ d) h = grind (arith, sum-Uniform n d h.1)

abbrev Keeps : ℕ → Guard → Type 0
Keeps n g = Uniform n g.reservations × (bytes_per_call g ≡ n)

step-Keeps : (n : ℕ) (g : Guard) (c : Call) → Keeps n g → Keeps n (step g c)
unfolding step reserve release
step-Keeps n g (reserves disk call_id) h =
    ground (arith, insert-Uniform call_id (bytes_per_call g) g.reservations)
step-Keeps n g (releases call_id) h = (erase-Uniform call_id n g.reservations h.0, h.1)

run-Keeps : (n : ℕ) (g : Guard) (cs : List Call) → Keeps n g → Keeps n (run g cs)
unfolding run
run-Keeps n g [] h = h
run-Keeps n g (c ∷ cs) h = run-Keeps n (step g c) cs (step-Keeps n g c h)

-- After any history of reservations and releases on a guard that began with none, the reserved bytes
-- are the number of reservations times the size of one call.
pub reserved_bytes-run :
    (g : Guard) (cs : List Call)
    → g.reservations ≡ []
    → reserved_bytes (run g cs) ≡ length (run g cs).reservations * bytes_per_call g
reserved_bytes-run g cs h =
    sum-Uniform (bytes_per_call g) _ (run-Keeps (bytes_per_call g) g cs (rw h tt, refl)).0
