-- ===== src/Text.antt =====
-- The string methods and character classes that several components use.
pub mod Decimal
pub mod Strip
pub mod Safe
use zenith_voip.Prelude.{
  ℕ, ◌+◌, ◌-◌, ◌/◌, ◌%◌, Bool, true, false, not, ◌&&◌, ◌||◌, List, [], ◌∷◌, ◌++◌, map, Text, codes,
  leb, ◌==◌, is_digit, is_alnum, if◌then◌else◌,
}
use mathlib.Core.List.{reverse}

-- `str.isspace` of one character
unfoldable pub is_space : ℕ → Bool
is_space c =
    (leb 9 c && leb c 13)
    || (leb 28 c && leb c 32)
    || c == 0x85
    || c == 0xa0
    || c == 0x1680
    || (leb 0x2000 c && leb c 0x200a)
    || c == 0x2028
    || c == 0x2029
    || c == 0x202f
    || c == 0x205f
    || c == 0x3000

unfoldable pub lstrip : Text → Text
lstrip [] = []
lstrip (c ∷ s) = if is_space c then lstrip s else c ∷ s

-- `str.strip`
unfoldable pub strip : Text → Text
unfolding lstrip is_space
strip s = reverse (lstrip (reverse (lstrip s)))

-- the class `[A-Za-z0-9._-]`
abbrev pub is_safe : ℕ → Bool
is_safe c = is_alnum c || c == b'.' || c == b'_' || c == b'-'

-- `str.lower` of an ASCII letter or digit
abbrev pub lower : ℕ → ℕ
lower c = if leb b'A' c && leb c b'Z' then c + 32 else c

abbrev pub digit : ℕ → ℕ
digit n = b'0' + n % 10

-- `%02d` of a number below 100
unfoldable pub two_digits : ℕ → Text
two_digits n = digit (n / 10) ∷ digit n ∷ []

-- `%04d` of a number below 10000
unfoldable pub four_digits : ℕ → Text
four_digits n = digit (n / 1000) ∷ digit (n / 100) ∷ digit (n / 10) ∷ digit n ∷ []
