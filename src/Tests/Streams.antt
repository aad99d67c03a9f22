-- ===== src/Tests/Streams.antt =====
-- internal/provider: streams of events, and the adapters over them.
use route_forge.Base.{ℕ, ◌≡◌, refl, arith, true, false, Option, none, some, List, [], ◌∷◌, ◌++◌}
use route_forge.Base.Result.{ok}
use route_forge.Base.Text.{codes}
use route_forge.Sse.{SseReader, new_sse_reader, pieces, scan, next}
use route_forge.Sse.Frames.{event_lines, terminated, IsWritten, next-terminated}
use route_forge.Adapters.Anthropic.{StreamEvent, AnthropicUsage}
use route_forge.Adapters.AnthropicStream.{AnthropicStream, anthropic_next}
use route_forge.Adapters.Openai.{StreamReply, OpenaiStream, openai_next}
use route_forge.Adapters.Progress.{HasResult, next-HasResult}
use route_forge.Adapters.Roles.{Roles, read_chunks, read_chunks-Roles}

abbrev two_lines : List ℕ
two_lines = terminated (event_lines (codes "note") (codes "one") (codes "two" ∷ []))

abbrev noted : SseReader
noted = new_sse_reader two_lines false

note_IsWritten : IsWritten (codes "note") (codes "one") (codes "two" ∷ [])
note_IsWritten = (
  (refl, refl, (refl, refl, (refl, refl, (refl, refl, tt)))),
  omega arith,
  omega arith,
  (
    (refl, refl, (refl, refl, (refl, refl, tt))),
    omega arith,
    ((refl, refl, (refl, refl, (refl, refl, tt))), omega arith, tt),
  ),
  omega arith,
)

next-terminated_example : next (new_sse_reader (two_lines ++ codes "rest") true) ≡ (
  ok (record { kind = codes "note"; body = codes "one" ++ (b'\n' ∷ codes "two") }),
  new_sse_reader (codes "rest") true,
)
next-terminated_example =
    next-terminated (codes "note") (codes "one") (codes "two" ∷ []) (codes "rest") true
      note_IsWritten

-- The events of a decoder that tells three types apart by the first byte.
abbrev event : List ℕ → List ℕ → StreamEvent
event kind text = record {
  kind = kind;
  message_id = codes "id";
  message_model = codes "model";
  message_usage = none;
  block = record { kind = codes "text"; text = text };
  delta = record { kind = codes "text_delta"; text = text };
  stop_reason = [];
  usage = none;
}

abbrev decode : List ℕ → Option StreamEvent
decode [] = none
decode (b ∷ body) = some (event (codes "content_block_delta") body)

abbrev decode_none : List ℕ → Option StreamReply
decode_none body = none

abbrev speaking : AnthropicStream
speaking = record {
  events = new_sse_reader (terminated (event_lines [] (codes "-hello") [])) false;
  id = [];
  model = [];
  sent_role = false;
  done = false;
  usage = none;
}

abbrev listening : OpenaiStream
listening = record { events = speaking.events; done = false }

next-HasResult_example :
    HasResult (anthropic_next decode none 1 9 speaking)
    × HasResult (openai_next decode_none none 9 listening)
unfolding new_sse_reader pieces scan
next-HasResult_example =
    next-HasResult decode decode_none none 1 9 speaking listening (omega arith) (omega arith)

read_chunks-Roles_example :
    Roles speaking.sent_role (read_chunks decode ((none, 1) ∷ (none, 2) ∷ []) speaking)
read_chunks-Roles_example = read_chunks-Roles decode ((none, 1) ∷ (none, 2) ∷ []) speaking

abbrev usages : List AnthropicUsage
usages =
    record { input_tokens = some 3; output_tokens = some 1 }
    ∷ record { input_tokens = none; output_tokens = some 5 }
    ∷ []
