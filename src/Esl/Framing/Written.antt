-- ===== src/Esl/Framing/Written.antt =====
-- Whatever is framed as the protocol says is read back, in whatever chunks it arrives.
use zenith_voip.Prelude.{
  ℕ, zero, suc, ◌<◌, ◌≡◌, refl, ap, ◌∙◌, false, none, some, List, [], ◌∷◌, ◌++◌, All, Text, length,
  length-append, take, drop, ltb, map, append_assoc, arith,
}
use zenith_voip.Prelude.Result.{ok}
use zenith_voip.Esl.Framing.{
  newline, find_blank, lines, content_length, take_frame, drain_fuel, drain, read_events,
}
use zenith_voip.Esl.Framing.Steps.{take_frame-shorter}
use zenith_voip.Esl.Framing.Chunks.{joined, read_events-drain}

-- A message of the protocol: header lines and a body.
pub record Message : Type 0 where
  pub headers : Text
  pub body : Text

-- The headers hold no blank line, and the one Content-Length that counts is the body's length.
abbrev pub IsFramed : Message → Type 0
IsFramed m =
    (find_blank (m.headers ++ (newline ∷ [])) ≡ none)
    × (content_length (lines m.headers) ≡ ok (length m.body))

-- How the message stands in the stream.
abbrev pub written : Message → Text
written m = m.headers ++ (newline ∷ newline ∷ m.body)

unfoldable pub stream : List Message → Text
stream [] = []
stream (m ∷ ms) = written m ++ stream ms

find_blank-written :
    (h r : Text)
    → find_blank (h ++ (newline ∷ [])) ≡ none
    → find_blank (h ++ (newline ∷ newline ∷ r)) ≡ some (h, r)
unfolding find_blank
find_blank-written [] r e = refl
find_blank-written (a ∷ []) r e = ground (arith, e)
find_blank-written (a ∷ b ∷ h) r e = ground (arith, e, find_blank-written (b ∷ h) r)

take-whole : (b r : Text) → take (length b) (b ++ r) ≡ b
take-whole [] r = refl
take-whole (c ∷ b) r = ap (λ t. c ∷ t) (take-whole b r)

drop-whole : (b r : Text) → drop (length b) (b ++ r) ≡ r
drop-whole [] r = refl
drop-whole (c ∷ b) r = drop-whole b r

take_frame-written :
    (m : Message) (r : Text) → IsFramed m → take_frame (written m ++ r) ≡ ok (some (m.body, r))
unfolding take_frame
take_frame-written m r h =
    let shape = append_assoc m.headers (newline ∷ newline ∷ m.body) r in
    let blank = find_blank-written m.headers (m.body ++ r) h.0 in
    let bytes = length-append m.body r in
    let enough : ltb (length (m.body ++ r)) (length m.body) ≡ false = ground (arith, bytes) in
    let found : find_blank (written m ++ r) ≡ some (m.headers, m.body ++ r) =
      ap find_blank shape ∙ blank in
    ground (arith, found, h.1, enough, take-whole m.body r, drop-whole m.body r)

empty_frame : (n : ℕ) → drain_fuel (suc n) [] ≡ record { bodies = []; buffer = []; failed = false }
unfolding drain_fuel take_frame find_blank
empty_frame n = refl

drain_fuel-stream :
    (n : ℕ) (ms : List Message)
    → All IsFramed ms
    → length (stream ms) < n
    → drain_fuel n (stream ms)
      ≡ record { bodies = map (λ m. m.body) ms; buffer = []; failed = false }
unfolding drain_fuel stream
drain_fuel-stream zero ms h k = absurd (omega arith)
drain_fuel-stream (suc n) [] h k = empty_frame n
drain_fuel-stream (suc n) (m ∷ ms) h k =
    let whole = take_frame-written m (stream ms) h.0 in
    let less = take_frame-shorter (written m ++ stream ms) m.body (stream ms) whole in
    ground (arith, whole, drain_fuel-stream n ms h.1 (omega (arith, less)))

-- Messages whose headers hold no blank line and give the length of the body, written one after the
-- other, are read back as their bodies, in order and to the last byte, in whatever chunks the
-- connection delivers them.
pub read_events-stream :
    (ms : List Message) (chunks : List Text)
    → All IsFramed ms
    → joined chunks ≡ stream ms
    → ((read_events [] chunks).bodies ≡ map (λ m. m.body) ms)
      × ((read_events [] chunks).failed ≡ false)
      × ((read_events [] chunks).buffer ≡ [])
unfolding take_frame find_blank drain
read_events-stream ms chunks h same =
    let (bodies, failed, rest) = read_events-drain [] chunks refl in
    let all = ap drain same ∙ drain_fuel-stream (suc (length (stream ms))) ms h (omega arith) in
    let fine = failed ∙ ap (λ x. x.failed) all in
    (bodies ∙ ap (λ x. x.bodies) all, fine, rest fine ∙ ap (λ x. x.buffer) all)
