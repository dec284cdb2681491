-- ===== src/Transcript/Markdown.antt =====
-- The rendered transcript (`_format_timestamp` and `render_markdown` of
-- src/workers/transcript_batch.py).
pub mod Timestamp
use zenith_voip.Prelude.{
  ℕ, ◌+◌, ◌-◌, ◌/◌, ◌%◌, Bool, true, false, not, ◌&&◌, ◌||◌, List, [], ◌∷◌, ◌++◌, map, Text, codes,
  is_empty, leb, if◌then◌else◌,
}
use mathlib.Core.List.{reverse}
use zenith_voip.Prelude.Sorting.{sorted}
use zenith_voip.Text.Decimal.{pad_two, pad_three}
use zenith_voip.Text.{strip, lstrip, lower, four_digits, two_digits}
use zenith_voip.Smb.Names.{DateTime, format_day}
use zenith_voip.Transcript.Floats.{Floats}
use zenith_voip.Transcript.Segments.{Segment, starts_before}

-- `_format_timestamp` of `max(0, round(seconds * 1000))`
unfoldable pub format_timestamp : ℕ → Text
format_timestamp milliseconds =
    let remainder = milliseconds % 3_600_000 in
    pad_two (milliseconds / 3_600_000)
    ++ (b':'
        ∷ (pad_two (remainder / 60_000)
            ++ (b':'
                ∷ (pad_two (remainder % 60_000 / 1000)
                    ++ (b'.' ∷ pad_three (remainder % 60_000 % 1000))))))

pub record CallMetadata : Type 0 where
  pub tenant_id : Text
  pub call_id : Text
  pub started_at : DateTime
  pub caller_number : Text
  pub callee_number : Text

-- `str.capitalize` of an ASCII text
abbrev pub upper : ℕ → ℕ
upper c = if leb b'a' c && leb c b'z' then c - 32 else c

abbrev pub capitalize : Text → Text
capitalize [] = []
capitalize (c ∷ s) = upper c ∷ map lower s

-- `"\n".join(lines)`
unfoldable pub join_lines : List Text → Text
join_lines [] = []
join_lines (l ∷ []) = l
join_lines (l ∷ m ∷ ls) = l ++ (b'\n' ∷ join_lines (m ∷ ls))

-- `str.rstrip`
unfoldable pub rstrip : Text → Text
rstrip s = reverse (lstrip (reverse s))

abbrev pub clock_of : DateTime → Text
clock_of t = two_digits t.hour ++ (b':' ∷ (two_digits t.minute ++ (b':' ∷ two_digits t.second)))

abbrev pub heading : CallMetadata → List Text
heading m =
    (codes "# Transcrição — " ++ m.call_id)
    ∷ []
    ∷ (codes "> Tenant: "
        ++ (m.tenant_id
            ++ (codes " · Data: "
                ++ (format_day m.started_at
                    ++ (b' '
                        ∷ (clock_of m.started_at
                            ++ (codes " · Origem: "
                                ++ (m.caller_number
                                    ++ (codes " → Destino: " ++ m.callee_number)))))))))
    ∷ []
    ∷ []

-- `milliseconds` is `max(0, round(seconds * 1000))`, and `two_decimals` the format `.2f`.
module _ (F : Floats) where
  open F use {Float}

  module _ (milliseconds : Float → ℕ) (two_decimals : Float → Text) where
    -- The line in front of a segment's text.
    unfoldable pub caption : Segment F → Text
    caption s =
        b'['
        ∷ (format_timestamp (milliseconds s.start_time)
            ++ (codes " → "
                ++ (format_timestamp (milliseconds s.end_time)
                    ++ (codes "] **"
                        ++ (capitalize s.speaker
                            ++ (codes "** (confidence: "
                                ++ (two_decimals s.confidence ++ codes ")")))))))

    unfoldable pub segment_lines : List (Segment F) → List Text
    segment_lines [] = []
    segment_lines (s ∷ ss) =
        let rest = segment_lines ss in
        if is_empty (strip s.text) then rest else caption s ∷ strip s.text ∷ [] ∷ rest

    abbrev pub no_speech : List (Segment F) → List Text
    no_speech [] = codes "_Nenhuma fala detectada._" ∷ [] ∷ []
    no_speech (s ∷ ss) = []

    unfoldable pub render_markdown : CallMetadata → List (Segment F) → Text
    render_markdown m ss =
        rstrip
          (join_lines (heading m ++ (segment_lines (sorted (starts_before F) ss) ++ no_speech ss)))
        ++ (b'\n' ∷ [])
