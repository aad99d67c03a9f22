-- ===== src/Adapters/Anthropic.antt =====
-- internal/provider/anthropic/anthropic.go: the provider and its stream. `decode_reply` and
-- `decode_event` are `json.Unmarshal` into the structures of the source.
use route_forge.Base.{
  ℕ, ◌+◌, ◌-◌, ◌%◌, ◌^◌, Bool, false, Option, none, some, List, [], ◌∷◌, ◌++◌, ltb, if◌then◌else◌,
}
use route_forge.Base.Result.{Result, ok, err, ◌>>=◌}
use route_forge.Base.Text.{codes, same}
use route_forge.Accounting.{Usage, max_uint64}
use route_forge.Accounting.Price.{is_empty}
use route_forge.Outcome.{Error, provider_error, error_invalid_request, plain}
use route_forge.Service.{Message, Request, Response}
use route_forge.Adapters.{Wire, internal, max_response_size, read_response, prepared, succeeded}

pub record AnthropicUsage : Type 0 where
  pub input_tokens : Option ℕ
  pub output_tokens : Option ℕ

pub record ContentBlock : Type 0 where
  pub kind : List ℕ
  pub text : List ℕ

pub record AnthropicReply : Type 0 where
  pub id : List ℕ
  pub model : List ℕ
  pub content : List ContentBlock
  pub stop_reason : List ℕ
  pub usage : Option AnthropicUsage

-- `streamEvent`: its type, the message of a start, the content block, the delta, and the usage.
pub record StreamEvent : Type 0 where
  pub kind : List ℕ
  pub message_id : List ℕ
  pub message_model : List ℕ
  pub message_usage : Option AnthropicUsage
  pub block : ContentBlock
  pub delta : ContentBlock
  pub stop_reason : List ℕ
  pub usage : Option AnthropicUsage

pub record AnthropicPayload : Type 0 where
  pub model : List ℕ
  pub max_tokens : ℕ
  pub system : List ℕ
  pub messages : List Message
  pub stream : Bool

abbrev pub anthropic_name : List ℕ
anthropic_name = codes "anthropic"

abbrev pub anthropic_failure : Error
anthropic_failure = internal anthropic_name

-- The loop over the messages: the system texts and the others.
unfoldable pub split_messages : List Message → List (List ℕ) × List Message
split_messages [] = ([], [])
split_messages (m ∷ messages) =
    let (texts, others) = split_messages messages in
    if same m.role (codes "system")
    then (m.content ∷ texts, others)
    else (texts, record { role = m.role; content = m.content } ∷ others)

-- `strings.Join` by two line feeds.
unfoldable pub join_texts : List (List ℕ) → List ℕ
join_texts [] = []
join_texts (t ∷ []) = t
join_texts (t ∷ u ∷ texts) = t ++ (b'\n' ∷ (b'\n' ∷ join_texts (u ∷ texts)))

abbrev addressed : List ℕ → Bool → List (List ℕ) × List Message → Result Error AnthropicPayload
addressed model stream (texts, []) = err (provider_error error_invalid_request anthropic_name plain)
addressed model stream (texts, m ∷ messages) = ok (record {
  model = model;
  max_tokens = 1024;
  system = join_texts texts;
  messages = m ∷ messages;
  stream = stream;
})

unfoldable pub anthropic_payload : Request → Bool → Result Error AnthropicPayload
unfolding split_messages join_texts
anthropic_payload r stream = addressed r.model stream (split_messages r.messages)

-- A usage of both counts, unless their sum leaves the range; none is a malformed usage.
abbrev summed : ℕ → ℕ → Option Usage
summed input output =
    if ltb (max_uint64 - output) input
    then none
    else some (record {
      input_tokens = some input;
      output_tokens = some output;
      total_tokens = some ((input + output) % 2 ^ 64);
    })

abbrev known : Option Usage → Option (Option Usage)
known none = none
known (some u) = some (some u)

abbrev completed_usage : Option ℕ → Option ℕ → Option (Option Usage)
completed_usage none none = some none
completed_usage (some input) (some output) = known (summed input output)
completed_usage _ _ = none

-- `normalizeCompleteUsage`.
unfoldable pub normalize_complete_usage : Option AnthropicUsage → Option (Option Usage)
normalize_complete_usage none = some none
normalize_complete_usage (some u) = completed_usage u.input_tokens u.output_tokens

abbrev pub newer : Option ℕ → Option ℕ → Option ℕ
newer (some n) current = some n
newer none current = current

-- The merged counts, with the total that was known.
abbrev totaled : Option ℕ → Option ℕ → Option ℕ → Option (Option Usage)
totaled (some input) (some output) total = known (summed input output)
totaled input output total =
    some (some (record { input_tokens = input; output_tokens = output; total_tokens = total }))

abbrev no_usage : Usage
no_usage = record { input_tokens = none; output_tokens = none; total_tokens = none }

abbrev pub or_none : Option Usage → Usage
or_none none = no_usage
or_none (some u) = u

abbrev merged : Option Usage → Option ℕ → Option ℕ → Option (Option Usage)
merged current none none = some current
merged current input output =
    let u = or_none current in
    totaled (newer input u.input_tokens) (newer output u.output_tokens) u.total_tokens

-- `mergeUsage`.
unfoldable pub merge_stream_usage : Option Usage → Option AnthropicUsage → Option (Option Usage)
merge_stream_usage current none = some current
merge_stream_usage current (some u) = merged current u.input_tokens u.output_tokens

abbrev pub finish : List ℕ → List ℕ
finish stop_reason = if same stop_reason (codes "max_tokens") then codes "length" else codes "stop"

unfoldable pub text_of : List ContentBlock → List ℕ
text_of [] = []
text_of (b ∷ blocks) =
    if same b.kind (codes "text") then b.text ++ text_of blocks else text_of blocks

unfoldable pub anthropic_response : ℕ → Option AnthropicReply → Result Error Response
unfolding normalize_complete_usage text_of
anthropic_response now none = err anthropic_failure
anthropic_response now (some d) =
    if is_empty d.id then err anthropic_failure else elim (normalize_complete_usage d.usage) [
      | none ↦ err anthropic_failure
      | some usage ↦ ok (record {
        id = d.id;
        object = codes "chat.completion";
        created = now;
        model = d.model;
        choices =
            record {
              index = 0;
              message = record { role = codes "assistant"; content = text_of d.content };
              finish_reason = finish d.stop_reason;
            }
            ∷ [];
        usage = usage;
      })
    ]

module _ (w : Wire AnthropicPayload) (decode_reply : List ℕ → Option AnthropicReply) where
  -- `Complete`.
  unfoldable pub anthropic_complete : ℕ → Request → Result Error Response
  unfolding anthropic_payload read_response anthropic_response
  anthropic_complete now r = do
    p ← anthropic_payload r false
    payload ← prepared anthropic_name w p
    h ← succeeded anthropic_name w (w.send payload)
    bytes ← read_response anthropic_name h max_response_size
    anthropic_response now (decode_reply bytes)
