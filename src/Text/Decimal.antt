-- ===== src/Text/Decimal.antt =====
-- The decimal print of a number, as `str` and the format `d` give it.
use zenith_voip.Prelude.{
  ℕ, zero, suc, ◌+◌, ◌*◌, ◌-◌, ◌/◌, ◌%◌, ◌≤◌, ◌≡◌, refl, true, false, [], ◌∷◌, ◌++◌, Text, ltb,
  ◌==◌, if◌then◌else◌, arith,
}
use zenith_voip.Text.{digit, two_digits}

-- The digits of `n` in front of `out`; the fuel is at least the number of digits.
unfoldable pub digits : ℕ → ℕ → Text → Text
digits zero n out = out
digits (suc fuel) n out = elim (n == 0) [
  | true ↦ out
  | false ↦ digits fuel (n / 10) (digit n ∷ out)
]

unfoldable pub decimal : ℕ → Text
unfolding digits
decimal n = if n == 0 then b'0' ∷ [] else digits n n []

-- `02d`
unfoldable pub pad_two : ℕ → Text
unfolding decimal two_digits
pad_two n = if ltb n 100 then two_digits n else decimal n

-- `03d`
unfoldable pub pad_three : ℕ → Text
unfolding decimal
pad_three n = if ltb n 1000 then digit (n / 100) ∷ digit (n / 10) ∷ digit n ∷ [] else decimal n

-- The number that digits spell behind `n`, up to the mark or the end, and what follows the mark.
unfoldable pub read_until : ℕ → ℕ → Text → ℕ × Text
read_until mark n [] = (n, [])
read_until mark n (c ∷ s) = elim (c == mark) [
  | true ↦ (n, s)
  | false ↦ read_until mark (n * 10 + (c - b'0')) s
]

digits-append :
    (fuel n : ℕ) (out rest : Text) → digits fuel n out ++ rest ≡ digits fuel n (out ++ rest)
unfolding digits
digits-append zero n out rest = refl
digits-append (suc fuel) n out rest =
    ground (arith, digits-append fuel (n / 10) (digit n ∷ out) rest)

module _ (mark : ℕ) (apart : (n : ℕ) → (digit n == mark) ≡ false) where
  read_digit :
      (n : ℕ) (m : ℕ) (out : Text)
      → read_until mark m (digit n ∷ out) ≡ read_until mark (m * 10 + n % 10) out
  unfolding read_until
  read_digit n m out = ground (arith, apart n)

  read-digits :
      (fuel n : ℕ) (out : Text)
      → n ≤ fuel
      → read_until mark 0 (digits fuel n out) ≡ read_until mark n out
  unfolding digits
  read-digits zero n out h = ground arith
  read-digits (suc fuel) n out h =
      ground (arith, read-digits fuel (n / 10) (digit n ∷ out), read_digit n (n / 10) out)

  -- A print is read back up to a stop: the mark behind it, or the end.
  module _ (stop rest : Text) (ends : (n : ℕ) → read_until mark n stop ≡ (n, rest)) where
    read-decimal : (n : ℕ) → read_until mark 0 (decimal n ++ stop) ≡ (n, rest)
    unfolding decimal
    read-decimal n =
        ground (arith, digits-append n n [] stop, read-digits n n stop, read_digit 0 0 stop, ends n)

    pub read-pad_two : (n : ℕ) → read_until mark 0 (pad_two n ++ stop) ≡ (n, rest)
    unfolding pad_two two_digits
    read-pad_two n = ground (
      arith,
      read-decimal n,
      read_digit (n / 10) 0 (digit n ∷ stop),
      read_digit n (n / 10 % 10) stop,
      ends n,
    )

    pub read-pad_three : (n : ℕ) → read_until mark 0 (pad_three n ++ stop) ≡ (n, rest)
    unfolding pad_three
    read-pad_three n = ground (
      arith,
      read-decimal n,
      read_digit (n / 100) 0 (digit (n / 10) ∷ digit n ∷ stop),
      read_digit (n / 10) (n / 100 % 10) (digit n ∷ stop),
      read_digit n (n / 100 % 10 * 10 + n / 10 % 10) stop,
      ends n,
    )
