-- ===== src/Transcript/Markdown/Timestamp.antt =====
-- Timestamps of a transcript tell times apart.
use zenith_voip.Prelude.{
  ℕ, ◌+◌, ◌*◌, ◌/◌, ◌%◌, ◌≡◌, refl, [], ◌∷◌, ◌++◌, Text, arith, append-nil, ◌==◌, false,
}
use zenith_voip.Text.{digit}
use zenith_voip.Text.Decimal.{read_until, pad_two, pad_three, read-pad_two, read-pad_three}
use zenith_voip.Transcript.Markdown.{format_timestamp}

-- The milliseconds that a text `HH:MM:SS.mmm` stands for.
unfoldable pub read_timestamp : Text → ℕ
read_timestamp t =
    let (hours, after_hours) = read_until b':' 0 t in
    let (minutes, after_minutes) = read_until b':' 0 after_hours in
    let (seconds, after_seconds) = read_until b'.' 0 after_minutes in
    hours * 3_600_000 + minutes * 60_000 + seconds * 1000 + (read_until b'.' 0 after_seconds).0

-- A timestamp reads back as the milliseconds that it was made from, also from 100 hours on.
pub read_timestamp-format_timestamp : (n : ℕ) → read_timestamp (format_timestamp n) ≡ n
unfolding read_timestamp format_timestamp read_until
read_timestamp-format_timestamp n =
    let r = n % 3_600_000 in
    let d = pad_three (r % 60_000 % 1000) in
    let c = pad_two (r % 60_000 / 1000) ++ (b'.' ∷ d) in
    let b = pad_two (r / 60_000) ++ (b':' ∷ c) in
    let colon : (k : ℕ) → (digit k == b':') ≡ false = λ k. ground arith in
    let point : (k : ℕ) → (digit k == b'.') ≡ false = λ k. ground arith in
    rw
      (
        read-pad_two b':' colon (b':' ∷ b) b (λ k. refl) (n / 3_600_000),
        read-pad_two b':' colon (b':' ∷ c) c (λ k. refl) (r / 60_000),
        read-pad_two b'.' point (b'.' ∷ d) d (λ k. refl) (r % 60_000 / 1000),
        ← append-nil d,
        read-pad_three b'.' point [] [] (λ k. refl) (r % 60_000 % 1000),
      )
      (omega arith)
