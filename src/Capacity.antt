-- ===== src/Capacity.antt =====
-- Admission of recordings by disk space (src/audio/capacity.py).
pub mod Disk
pub mod Reservations
pub mod Hysteresis
mod Tests
use zenith_voip.Prelude.{
  ℕ, ◌+◌, ◌-◌, ◌*◌, Bool, true, false, Option, none, some, List, [], ◌∷◌, Text, ltb, ◌==◌, is_some,
  if◌then◌else◌,
}
use zenith_voip.Prelude.Dict.{Dict, lookup, contains, insert, erase}
use zenith_voip.Prelude.Result.{Result, ok, err}
use Disk.{DiskState, remaining_of, pending_processing_bytes}

abbrev pub pcm16_stereo_bytes_per_second : ℕ
pcm16_stereo_bytes_per_second = 16_000 * 2 * 2

-- The percentages are `n / percent_scale`: the code compares floats.
abbrev pub percent_scale : ℕ
percent_scale = 1_000_000

pub record Guard : Type 0 where
  pub max_call_seconds : ℕ
  pub min_free_percent : ℕ
  pub resume_free_percent : ℕ
  pub headroom_bytes : ℕ
  pub reservations : Dict ℕ
  pub degraded : Bool

abbrev pub bytes_per_call : Guard → ℕ
bytes_per_call g = pcm16_stereo_bytes_per_second * g.max_call_seconds

unfoldable pub sum_values : Dict ℕ → ℕ
sum_values [] = 0
sum_values ((k, v) ∷ d) = v + sum_values d

abbrev pub reserved_bytes : Guard → ℕ
reserved_bytes g = sum_values g.reservations

abbrev pub remaining_reserved_bytes : DiskState → Guard → ℕ
remaining_reserved_bytes disk g = remaining_of disk g.reservations

pub data Error : Type 0 where
  zero_division : Error

abbrev pub projected : DiskState → Guard → ℕ
projected disk g =
    disk.used
    + remaining_reserved_bytes disk g
    + pending_processing_bytes disk
    + bytes_per_call g
    + g.headroom_bytes

abbrev pub threshold : Guard → ℕ
threshold g = if g.degraded then g.resume_free_percent else g.min_free_percent

-- `max(0.0, 100 * (total - projected) / total) < threshold`, multiplied out
abbrev pub is_short : ℕ → ℕ → ℕ → Bool
is_short total p limit = ltb (100 * (total - p) * percent_scale) (limit * total)

-- `reserve`; the two metrics that it records do not feed back.
unfoldable pub reserve : DiskState → Text → Guard → Result Error Bool × Guard
reserve disk call_id g =
    if contains call_id g.reservations
    then (ok true, g)
    else if disk.total == 0
    then (err zero_division, g)
    else if is_short disk.total (projected disk g) (threshold g)
    then (ok false, record g { degraded = true })
    else (
      ok true,
      record g {
        degraded = false;
        reservations = insert call_id (bytes_per_call g) g.reservations;
      },
    )

-- `release`
unfoldable pub release : Text → Guard → Bool × Guard
release call_id g =
    (contains call_id g.reservations, record g { reservations = erase call_id g.reservations })
