-- ===== src/Consumers.antt =====
-- The markers of the consumers of a recording (src/workers/recording_consumers.py).
use zenith_voip.Prelude.{
  ℕ, ◌≡◌, Bool, true, false, not, ◌&&◌, ◌||◌, List, [], ◌∷◌, Text, text_eq, text_eq_iff, one_of,
  is_empty, is_digit, leb, ◌==◌, if◌then◌else◌, arith, Bool-cases, inl, inr,
}
use zenith_voip.Prelude.Result.{Result, ok, err, Result-cases}

pub data Error : Type 0 where
  invalid_consumer : Error

-- the class `[a-z0-9_-]`
abbrev pub is_consumer_char : ℕ → Bool
is_consumer_char c = (leb b'a' c && leb c b'z') || is_digit c || c == b'_' || c == b'-'

unfoldable pub all_consumer_chars : Text → Bool
all_consumer_chars [] = true
all_consumer_chars (c ∷ s) = is_consumer_char c && all_consumer_chars s

-- `_marker`: the name, if it is one
unfoldable pub marker : Text → Result Error Text
marker s = if not (is_empty s) && all_consumer_chars s then ok s else err invalid_consumer

-- `mark_consumed`: the consumers whose marker is a file
unfoldable pub mark_consumed : Text → List Text → Result Error Text × List Text
mark_consumed s marked = elim (marker s) [
  | err e ↦ (err e, marked)
  | ok m ↦ (ok m, if one_of m marked then marked else m ∷ marked)
]

-- `all(… for consumer in consumers)`, which stops at the first that is not there
unfoldable pub all_marked : List Text → List Text → Result Error Bool
all_marked [] marked = ok true
all_marked (c ∷ cs) marked = elim (marker c) [
  | err e ↦ err e
  | ok m ↦ elim (one_of m marked) [ false ↦ ok false | true ↦ all_marked cs marked ]
]

-- `is_fully_consumed`
unfoldable pub is_fully_consumed : List Text → List Text → Result Error Bool
is_fully_consumed [] marked = ok false
is_fully_consumed (c ∷ cs) marked = all_marked (c ∷ cs) marked

marker-name : (c m : Text) → marker c ≡ ok m → m ≡ c
unfolding marker
marker-name c m h = ground arith

all_marked-one :
    (cs marked : List Text) (c : Text)
    → all_marked cs marked ≡ ok true
    → one_of c cs ≡ true
    → one_of c marked ≡ true
unfolding all_marked one_of
all_marked-one [] marked c h k = absurd (ground arith)
all_marked-one (x ∷ cs) marked c h k = elim (Result-cases (marker x)) [
  | inr (e, m) ↦ absurd (ground (arith, m, h))
  | inl (n, m) ↦ elim (Bool-cases (one_of n marked)) [
    | inr o ↦ absurd (ground (arith, m, o, h))
    | inl o ↦ elim (Bool-cases (text_eq x c)) [
      | inl e ↦ ground (arith, m, o, marker-name x n m, text_eq_iff x c, e)
      | inr e ↦ all_marked-one cs marked c (ground (arith, m, o, h)) (ground (arith, e, k))
    ]
  ]
]

-- A recording that all required consumers have taken has the marker of each of them.
pub is_fully_consumed-one :
    (required marked : List Text) (c : Text)
    → is_fully_consumed required marked ≡ ok true
    → one_of c required ≡ true
    → one_of c marked ≡ true
unfolding is_fully_consumed
is_fully_consumed-one [] marked c h k = absurd (ground arith)
is_fully_consumed-one (x ∷ cs) marked c h k = all_marked-one (x ∷ cs) marked c h k
