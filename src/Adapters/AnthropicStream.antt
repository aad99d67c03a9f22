-- ===== src/Adapters/AnthropicStream.antt =====
-- internal/provider/anthropic/anthropic.go: the stream, which turns events into chunks.
use route_forge.Base.{
  ℕ, zero, suc, Bool, true, false, not, ◌||◌, Option, none, some, List, [], if◌then◌else◌,
}
use route_forge.Base.Result.{Result, ok, err, ◌>>=◌}
use route_forge.Base.Text.{codes, same}
use route_forge.Accounting.{Usage}
use route_forge.Accounting.Price.{is_empty}
use route_forge.Outcome.{Error, eof}
use route_forge.Service.{Request, Chunk}
use route_forge.Sse.{SseEvent, SseError, SseReader, next}
use route_forge.Adapters.{Wire, prepared, succeeded, event_reader, stream_error}
use route_forge.Adapters.Anthropic.{
  StreamEvent, ContentBlock, AnthropicPayload, AnthropicUsage, anthropic_name, anthropic_failure,
  anthropic_payload, merge_stream_usage, finish,
}

pub record AnthropicStream : Type 0 where
  pub events : SseReader
  pub id : List ℕ
  pub model : List ℕ
  pub sent_role : Bool
  pub done : Bool
  pub usage : Option Usage

-- What an event makes of the stream: its round is over with nothing, or `Next` returns.
pub data Round : Type 0 where
  continues : AnthropicStream → Round
  returns : Result Error Chunk → AnthropicStream → Round

abbrev fails : AnthropicStream → Round
fails s = returns (err anthropic_failure) s

abbrev pub usage_chunk : Option Usage → Chunk
usage_chunk u = record {
  id = [];
  created = 0;
  model = [];
  role = [];
  content = [];
  finish_reason = [];
  usage = u;
}

-- `textChunk`.
unfoldable pub text_chunk : ℕ → List ℕ → AnthropicStream → Round
text_chunk now content s =
    returns
      (ok (record {
        id = s.id;
        created = now;
        model = s.model;
        role = if s.sent_role then [] else codes "assistant";
        content = content;
        finish_reason = [];
        usage = none;
      }))
      (record s { sent_role = true })

-- The cases of the events.
abbrev pub started : StreamEvent → AnthropicStream → Option (Option Usage) → Round
started d s none = fails s
started d s (some none) = continues (record s { usage = none })
started d s (some (some u)) = returns (ok (usage_chunk (some u))) (record s { usage = some u })

abbrev pub with_usage : Option AnthropicUsage → AnthropicStream → Round
with_usage none s = continues s
with_usage (some u) s = returns (ok (usage_chunk s.usage)) s

abbrev pub message_changed : ℕ → StreamEvent → AnthropicStream → Option (Option Usage) → Round
message_changed now d s none = fails s
message_changed now d s (some usage) =
    let s' = record s { usage = usage } in
    if is_empty d.stop_reason
    then with_usage d.usage s'
    else returns
        (ok (record {
          id = s.id;
          created = now;
          model = s.model;
          role = [];
          content = [];
          finish_reason = finish d.stop_reason;
          usage = usage;
        }))
        s'

abbrev pub block_started : ℕ → ContentBlock → AnthropicStream → Round
block_started now b s =
    if not (same b.kind (codes "text"))
    then fails s
    else if is_empty b.text
    then continues s
    else text_chunk now b.text s

abbrev pub block_changed : ℕ → ContentBlock → AnthropicStream → Round
block_changed now b s =
    if not (same b.kind (codes "text_delta")) then fails s else text_chunk now b.text s

-- The switch over the type of an event.
unfoldable pub see_event : ℕ → List ℕ → StreamEvent → AnthropicStream → Round
unfolding text_chunk merge_stream_usage
see_event now kind d s =
    if same kind (codes "ping") || same kind (codes "content_block_stop")
    then continues s
    else if same kind (codes "message_start")
    then (let s' = record s { id = d.message_id; model = d.message_model } in
        started d s' (merge_stream_usage s.usage d.message_usage))
    else if same kind (codes "content_block_start")
    then block_started now d.block s
    else if same kind (codes "content_block_delta")
    then block_changed now d.delta s
    else if same kind (codes "message_delta")
    then message_changed now d s (merge_stream_usage s.usage d.usage)
    else if same kind (codes "message_stop")
    then returns (err eof) (record s { done = true })
    else fails s

-- The event without data.
abbrev pub empty_event : StreamEvent
empty_event = record {
  kind = [];
  message_id = [];
  message_model = [];
  message_usage = none;
  block = record { kind = []; text = [] };
  delta = record { kind = []; text = [] };
  stop_reason = [];
  usage = none;
}

module _ (w : Wire AnthropicPayload) where
  -- `Stream`.
  unfoldable pub anthropic_stream : Request → Result Error AnthropicStream
  unfolding anthropic_payload
  anthropic_stream r = do
    p ← anthropic_payload r true
    payload ← prepared anthropic_name w p
    h ← succeeded anthropic_name w (w.send payload)
    events ← event_reader anthropic_name w h
    ok (record {
      events = events;
      id = [];
      model = [];
      sent_role = false;
      done = false;
      usage = none;
    })

module _ (decode_event : List ℕ → Option StreamEvent) (ctx_error : Option Error) (now : ℕ) where
  abbrev decoded : List ℕ → Option StreamEvent
  decoded body = if is_empty body then some empty_event else decode_event body

  abbrev pub see_decoded : SseEvent → AnthropicStream → Option StreamEvent → Round
  see_decoded e s none = fails s
  see_decoded e s (some d) = see_event now (if is_empty e.kind then d.kind else e.kind) d s

  unfoldable pub see_next : Result SseError SseEvent → AnthropicStream → Round
  unfolding see_event stream_error
  see_next (err x) s = returns (err (stream_error anthropic_name ctx_error x)) s
  see_next (ok e) s = see_decoded e s (decoded e.body)

  -- One round of the loop of `Next`.
  unfoldable pub round : AnthropicStream → Round
  unfolding next see_next
  round s = let (event, events) = next s.events in see_next event (record s { events = events })

  unfoldable pub after_round :
      Round
      → (AnthropicStream → Option (Result Error Chunk × AnthropicStream))
      → Option (Result Error Chunk × AnthropicStream)
  after_round (continues s) rest = rest s
  after_round (returns result s) rest = some (result, s)

  -- The loop, with fuel for its rounds; `none` is the lack of it.
  unfoldable pub loop : ℕ → AnthropicStream → Option (Result Error Chunk × AnthropicStream)
  unfolding round after_round
  loop zero s = none
  loop (suc fuel) s = after_round (round s) (loop fuel)

  -- `Next`.
  unfoldable pub anthropic_next :
      ℕ → AnthropicStream → Option (Result Error Chunk × AnthropicStream)
  unfolding loop
  anthropic_next fuel s = if s.done then some (err eof, s) else loop fuel s
