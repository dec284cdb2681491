-- ===== src/Lease/Python.antt =====
-- The parts of Python that the lease code relies on without defining them.
use zenith_voip.Prelude.{ℕ, ◌≡◌, Bool, false, Option, some, [], Text, is_empty}
use zenith_voip.Prelude.Json.{Json, str}

-- A parsed date: without a time zone, or with one, as microseconds since the epoch.
pub data Stamp : Type 0 where
  naive aware : ℕ → Stamp

pub record Runtime : Type 0 where
  -- `uuid.UUID(text)` does not raise
  pub is_uuid : Text → Bool
  -- `str(value)`
  pub str_of : Json → Text
  -- `datetime.isoformat` of a date in UTC, and `datetime.fromisoformat`
  pub isoformat : ℕ → Text
  pub fromisoformat : Text → Option Stamp
  pub empty_is_no_uuid : is_uuid [] ≡ false
  pub str_of_str : (t : Text) → str_of (str t) ≡ t
  pub read_back : (t : ℕ) → fromisoformat (isoformat t) ≡ some (aware t)
  pub isoformat_nonempty : (t : ℕ) → is_empty (isoformat t) ≡ false
