-- ===== src/Adapters/Openai.antt =====
-- internal/provider/openai/openai.go: the provider and its stream. `decode_reply` and `decode_event` are
-- `json.Unmarshal` into the structures of the source.
use route_forge.Base.{
  ℕ, zero, suc, ◌+◌, ◌-◌, ◌%◌, ◌^◌, Bool, true, false, not, ◌||◌, Option, none, some, List, [], ◌∷◌,
  map, ltb, ◌==◌, if◌then◌else◌,
}
use route_forge.Base.Result.{Result, ok, err, ◌>>=◌}
use route_forge.Base.Text.{codes, same}
use route_forge.Accounting.{Usage, max_uint64}
use route_forge.Accounting.Price.{is_empty}
use route_forge.Outcome.{Error, eof}
use route_forge.Service.{Message, Request, Choice, Response, Chunk}
use route_forge.Sse.{SseEvent, SseError, SseReader, next}
use route_forge.Adapters.{
  Wire, internal, max_response_size, read_response, prepared, succeeded, event_reader, stream_error,
}

pub record OpenaiUsage : Type 0 where
  pub prompt_tokens : Option ℕ
  pub completion_tokens : Option ℕ
  pub total_tokens : Option ℕ

pub record OpenaiReply : Type 0 where
  pub id : List ℕ
  pub object : List ℕ
  pub created : ℕ
  pub model : List ℕ
  pub choices : List Choice
  pub usage : Option OpenaiUsage

pub record StreamChoice : Type 0 where
  pub role : List ℕ
  pub content : List ℕ
  pub finish_reason : Option (List ℕ)

pub record StreamReply : Type 0 where
  pub id : List ℕ
  pub created : ℕ
  pub model : List ℕ
  pub choices : List StreamChoice
  pub usage : Option OpenaiUsage

-- `request`, whose `StreamOptions` ask for the usage.
pub record OpenaiPayload : Type 0 where
  pub model : List ℕ
  pub messages : List Message
  pub stream : Bool
  pub include_usage : Bool

abbrev pub openai_name : List ℕ
openai_name = codes "openai"

abbrev openai_failure : Error
openai_failure = internal openai_name

-- The result of `normalizeUsage`: none is a malformed usage.
abbrev checked_usage : Option ℕ → Option ℕ → Option ℕ → Option (Option Usage)
checked_usage none none none = some none
checked_usage (some prompt) (some completion) (some total) =
    if ltb (max_uint64 - completion) prompt || not (total == (prompt + completion) % 2 ^ 64)
    then none
    else some (
        some (record {
          input_tokens = some prompt;
          output_tokens = some completion;
          total_tokens = some total;
        }))
checked_usage _ _ _ = none

unfoldable pub normalize_usage : Option OpenaiUsage → Option (Option Usage)
normalize_usage none = some none
normalize_usage (some u) = checked_usage u.prompt_tokens u.completion_tokens u.total_tokens

abbrev pub openai_payload : Request → Bool → OpenaiPayload
openai_payload r stream = record {
  model = r.model;
  messages = map (λ (m : Message). record { role = m.role; content = m.content }) r.messages;
  stream = stream;
  include_usage = stream;
}

unfoldable pub openai_response : Option OpenaiReply → Result Error Response
unfolding normalize_usage
openai_response none = err openai_failure
openai_response (some d) = elim d.choices [
  | [] ↦ err openai_failure
  | choice ∷ others ↦ elim (normalize_usage d.usage) [
    | none ↦ err openai_failure
    | some usage ↦ ok (record {
      id = d.id;
      object = d.object;
      created = d.created;
      model = d.model;
      choices = d.choices;
      usage = usage;
    })
  ]
]

-- The chunk of an event.
abbrev given : Option (List ℕ) → List ℕ
given none = []
given (some reason) = reason

abbrev blank_chunk : Usage → Chunk
blank_chunk u = record {
  id = [];
  created = 0;
  model = [];
  role = [];
  content = [];
  finish_reason = [];
  usage = some u;
}

abbrev openai_chunk : StreamReply → Option Usage → List StreamChoice → Result Error Chunk
openai_chunk d none [] = err openai_failure
openai_chunk d (some u) [] = ok (blank_chunk u)
openai_chunk d usage (choice ∷ others) = ok (record {
  id = d.id;
  created = d.created;
  model = d.model;
  role = choice.role;
  content = choice.content;
  finish_reason = given choice.finish_reason;
  usage = usage;
})

unfoldable pub openai_event : Option StreamReply → Result Error Chunk
unfolding normalize_usage
openai_event none = err openai_failure
openai_event (some d) = elim (normalize_usage d.usage) [
  | none ↦ err openai_failure
  | some usage ↦ openai_chunk d usage d.choices
]

pub record OpenaiStream : Type 0 where
  pub events : SseReader
  pub done : Bool

module _ (w : Wire OpenaiPayload) (decode_reply : List ℕ → Option OpenaiReply) where
  -- `Complete`.
  unfoldable pub openai_complete : Request → Result Error Response
  unfolding read_response openai_response
  openai_complete r = do
    payload ← prepared openai_name w (openai_payload r false)
    h ← succeeded openai_name w (w.send payload)
    bytes ← read_response openai_name h max_response_size
    openai_response (decode_reply bytes)

module _ (w : Wire OpenaiPayload) where
  -- `Stream`.
  unfoldable pub openai_stream : Request → Result Error OpenaiStream
  openai_stream r = do
    payload ← prepared openai_name w (openai_payload r true)
    h ← succeeded openai_name w (w.send payload)
    events ← event_reader openai_name w h
    ok (record { events = events; done = false })

module _ (decode_event : List ℕ → Option StreamReply) (ctx_error : Option Error) where
  -- What is done with the next event, given what the rounds behind it return.
  unfoldable pub openai_seen :
      Result SseError SseEvent
      → OpenaiStream
      → Option (Result Error Chunk × OpenaiStream)
      → Option (Result Error Chunk × OpenaiStream)
  unfolding openai_event stream_error
  openai_seen (err x) s rest = some (err (stream_error openai_name ctx_error x), s)
  openai_seen (ok e) s rest =
      if same e.body (codes "[DONE]")
      then some (err eof, record s { done = true })
      else if is_empty e.body
      then rest
      else some (openai_event (decode_event e.body), s)

  -- The loop of `Next`, with fuel for its rounds; `none` is the lack of it.
  unfoldable pub openai_loop : ℕ → OpenaiStream → Option (Result Error Chunk × OpenaiStream)
  openai_loop zero s = none
  openai_loop (suc fuel) s =
      let (event, events) = next s.events in
      let s' = record s { events = events } in openai_seen event s' (openai_loop fuel s')

  -- `Next`.
  unfoldable pub openai_next : ℕ → OpenaiStream → Option (Result Error Chunk × OpenaiStream)
  openai_next fuel s = if s.done then some (err eof, s) else openai_loop fuel s
