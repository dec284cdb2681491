-- ===== src/Esl/Framing.antt =====
-- The framing of the event stream (`_read_events`): headers, a blank line, and a body of as many bytes
-- as the Content-Length header says. Bytes are numbers; a frame that a handler works on stays handled.
pub mod Steps
pub mod Chunks
pub mod Written
mod Tests
use zenith_voip.Prelude.{
  ℕ, zero, suc, ◌+◌, ◌-◌, ◌*◌, Bool, true, false, not, ◌&&◌, ◌||◌, Option, none, some, List, [],
  ◌∷◌, ◌++◌, Text, codes, text_eq, is_digit, is_empty, ltb, leb, ◌==◌, length, take, drop,
  if◌then◌else◌,
}
use zenith_voip.Prelude.Result.{Result, ok, err}
use zenith_voip.Text.{strip, lower}

abbrev pub newline : ℕ
newline = 10

abbrev pub with_head : ℕ → Option (Text × Text) → Option (Text × Text)
with_head c none = none
with_head c (some (h, rest)) = some (c ∷ h, rest)

-- `buffer.find(b"\n\n")`: what stands before the first blank line and what follows it
unfoldable pub find_blank : Text → Option (Text × Text)
find_blank [] = none
find_blank (a ∷ []) = none
find_blank (a ∷ b ∷ s) =
    let later = with_head a (find_blank (b ∷ s)) in
    if a == newline && b == newline then some ([], s) else later

abbrev pub grow : ℕ → List Text → List Text
grow c [] = (c ∷ []) ∷ []
grow c (l ∷ ls) = (c ∷ l) ∷ ls

-- `split("\n")`
unfoldable pub lines : Text → List Text
lines [] = [] ∷ []
lines (c ∷ s) = let rest = lines s in if c == newline then [] ∷ rest else grow c rest

-- The value of a header line whose name, in lower case, is `content-length`.
unfoldable pub after_prefix : Text → Text → Option Text
after_prefix [] s = some s
after_prefix (p ∷ ps) [] = none
after_prefix (p ∷ ps) (c ∷ s) = if lower c == p then after_prefix ps s else none

abbrev pub starts_digit : Text → Bool
starts_digit [] = false
starts_digit (c ∷ s) = is_digit c

-- Decimal digits, with single underscores between them.
unfoldable pub digits_value : Text → ℕ → Option ℕ
digits_value [] n = some n
digits_value (c ∷ s) n =
    let rest = digits_value s (if is_digit c then n * 10 + (c - b'0') else n) in
    if is_digit c || (c == b'_' && starts_digit s) then rest else none

unfoldable pub unsigned : Text → Option ℕ
unsigned s = if starts_digit s then digits_value s 0 else none

abbrev pub signed : Bool → Option ℕ → Option (Bool × ℕ)
signed negative none = none
signed negative (some n) = some (negative, n)

-- `int`: whether the number stands behind a minus sign, and its digits' value.
unfoldable pub int_of : Text → Option (Bool × ℕ)
int_of [] = none
int_of (c ∷ s) =
    if c == b'-'
    then signed true (unsigned s)
    else if c == b'+'
    then signed false (unsigned s)
    else signed false (unsigned (c ∷ s))

-- `negative_length` is where this model stops: the source goes on and slices from the buffer's end.
pub data Error : Type 0 where
  bad_length : Error
  negative_length : Error

abbrev pub length_or_error : Option (Bool × ℕ) → Result Error ℕ
length_or_error none = err bad_length
length_or_error (some (true, suc n)) = err negative_length
length_or_error (some (true, zero)) = ok 0
length_or_error (some (false, n)) = ok n

-- The loop over the header lines: the first Content-Length counts, and without one it is 0.
unfoldable pub content_length : List Text → Result Error ℕ
content_length [] = ok 0
content_length (l ∷ ls) = elim (after_prefix (codes "content-length:") l) [
  | none ↦ content_length ls
  | some value ↦ length_or_error (int_of (strip value))
]

-- One round of the inner loop: the body and the new buffer, or `none` where it leaves the loop.
unfoldable pub take_frame : Text → Result Error (Option (Text × Text))
take_frame buffer = elim (find_blank buffer) [
  | none ↦ ok none
  | some (headers, rest) ↦ elim (content_length (lines headers)) [
    | err e ↦ err e
    | ok n ↦ if ltb (length rest) n then ok none else ok (some (take n rest, drop n rest))
  ]
]

-- The bodies that were processed, what is left in the buffer, and whether the loop raised.
pub record Frames : Type 0 where
  pub bodies : List Text
  pub buffer : Text
  pub failed : Bool

abbrev pub after_body : Text → Frames → Frames
after_body b f = record f { bodies = b ∷ f.bodies }

-- The inner loop; each round takes a blank line, so the length of the buffer is enough fuel.
unfoldable pub drain_fuel : ℕ → Text → Frames
drain_fuel zero buffer = record { bodies = []; buffer = buffer; failed = false }
drain_fuel (suc n) buffer = elim (take_frame buffer) [
  | err e ↦ record { bodies = []; buffer = buffer; failed = true }
  | ok none ↦ record { bodies = []; buffer = buffer; failed = false }
  | ok (some (body, rest)) ↦ after_body body (drain_fuel n rest)
]

unfoldable pub drain : Text → Frames
drain buffer = drain_fuel (suc (length buffer)) buffer

abbrev pub before : List Text → Frames → Frames
before bs f = record f { bodies = bs ++ f.bodies }

-- The outer loop over the chunks that the connection delivers; an exception ends it.
unfoldable pub read_events : Text → List Text → Frames
read_events buffer [] = record { bodies = []; buffer = buffer; failed = false }
read_events buffer (chunk ∷ chunks) =
    let now = drain (buffer ++ chunk) in
    elim now.failed [ true ↦ now | false ↦ before now.bodies (read_events now.buffer chunks) ]
