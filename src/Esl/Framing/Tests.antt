-- ===== src/Esl/Framing/Tests.antt =====
-- Messages that are cut into chunks, and lengths that are not digits alone.
use zenith_voip.Prelude.{
  ◌≡◌, refl, true, false, List, [], ◌∷◌, ◌++◌, All, Text, codes, map, take, drop,
}
use zenith_voip.Prelude.Result.{ok, err}
use zenith_voip.Text.{strip}
use zenith_voip.Esl.Framing.{
  bad_length, negative_length, newline, find_blank, lines, after_prefix, digits_value, unsigned,
  int_of, content_length, take_frame, drain_fuel, drain, read_events,
}
use zenith_voip.Esl.Framing.Chunks.{joined}
use zenith_voip.Esl.Framing.Written.{Message, IsFramed, stream, read_events-stream}

abbrev hello : Message
hello = record {
  headers = codes "Content-Length: 5" ++ (newline ∷ codes "Content-Type: text/event-json");
  body = codes "{a" ++ (newline ∷ newline ∷ codes "}");
}

-- A message without a body, as a reply to a command.
abbrev reply : Message
reply = record { headers = codes "Content-Type: command/reply"; body = [] }

abbrev messages : List Message
messages = hello ∷ reply ∷ hello ∷ []

abbrev pieces : List Text
pieces =
    take 30 (stream messages) ∷ take 30 (drop 30 (stream messages)) ∷ drop 60 (stream messages) ∷ []

messages-IsFramed : All IsFramed messages
unfolding find_blank lines content_length after_prefix int_of unsigned digits_value strip
messages-IsFramed = ((refl, refl), ((refl, refl), ((refl, refl), tt)))

same_bytes : joined pieces ≡ stream messages
unfolding joined stream
same_bytes = refl

read_events-stream_example :
    ((read_events [] pieces).bodies ≡ map (λ m. m.body) messages)
    × ((read_events [] pieces).failed ≡ false)
    × ((read_events [] pieces).buffer ≡ [])
read_events-stream_example = read_events-stream messages pieces messages-IsFramed same_bytes

-- A length that is no number ends the loop with an exception.
bad_length_raises :
    (read_events [] ((codes "Content-Length: x" ++ (newline ∷ newline ∷ [])) ∷ [])).failed ≡ true
unfolding read_events drain drain_fuel take_frame find_blank lines content_length after_prefix
    int_of unsigned digits_value strip
bad_length_raises = refl

-- A sign and underscores are read as Python reads them; below zero the model stops.
signs_test :
    (content_length (codes "Content-Length: +1_0" ∷ []) ≡ ok 10)
    × (content_length (codes "Content-Length: -0" ∷ []) ≡ ok 0)
    × (content_length (codes "Content-Length: 1__0" ∷ []) ≡ err bad_length)
    × (content_length (codes "Content-Length: -30" ∷ []) ≡ err negative_length)
unfolding content_length after_prefix int_of unsigned digits_value strip
signs_test = (refl, refl, refl, refl)
