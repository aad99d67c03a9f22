-- ===== src/Service.antt =====
-- internal/gateway/service.go, internal/openai/types.go, internal/model/resolver.go: the requests, the
-- state of the service and its helpers. `World` holds what the service asks of the outside. Each of its
-- answers may depend on the number of questions asked so far.
pub mod Attempt
pub mod Complete
pub mod Visits
pub mod Trail
pub mod Refusals
pub mod Stream
pub mod Delivery
pub mod Passes
pub mod Course
pub mod Construct
use route_forge.Base.{
  ℕ, ◌+◌, Bool, true, false, not, ◌&&◌, ◌||◌, Option, none, some, List, [], ◌∷◌, ◌++◌, ◌==◌,
  if◌then◌else◌,
}
use route_forge.Base.Dict.{lookup, insert, text_eq}
use route_forge.Base.Result.{Result, ok, err}
use route_forge.Base.Text.{codes, same}
use route_forge.Accounting.{Key, key_eq, Rates, PriceBook, Usage}
use route_forge.Accounting.Price.{trim_space, is_empty}
use route_forge.Accounting.Tracker.{Tracker}
use route_forge.Circuit.{HealthAttempt}
use route_forge.Circuit.Tracker.{HealthTracker, eligible, success, failure, drop_attempt}
use route_forge.History.{RequestHistory, RequestRecord}
use route_forge.Outcome.{
  Error, resolution_error, error_unknown_alias, error_missing_mapping, unsupported_role_error,
  err_model_required, err_messages_required, ProviderOutcome, degrades_health, outcome_success,
}
use route_forge.Routing.{Prices}
use route_forge.Routing.Latency.{ExplorationCounts}
use route_forge.Routing.Policy.{RoutingPolicy, uses_pricing}
use route_forge.Runtime.{RoutingVersion}
use route_forge.Telemetry.{Telemetry}

pub record Message : Type 0 where
  pub role : List ℕ
  pub content : List ℕ

pub record Request : Type 0 where
  pub model : List ℕ
  pub messages : List Message
  pub stream : Bool

pub record Choice : Type 0 where
  pub index : ℕ
  pub message : Message
  pub finish_reason : List ℕ

pub record Response : Type 0 where
  pub id : List ℕ
  pub object : List ℕ
  pub created : ℕ
  pub model : List ℕ
  pub choices : List Choice
  pub usage : Option Usage

-- `provider.StreamChunk`.
pub record Chunk : Type 0 where
  pub id : List ℕ
  pub created : ℕ
  pub model : List ℕ
  pub role : List ℕ
  pub content : List ℕ
  pub finish_reason : List ℕ
  pub usage : Option Usage

-- The chunks of a stream, and the error with which `Next` ends it (`io.EOF` for a complete one).
abbrev pub Source : Type 0
Source = List Chunk × Error

-- What `Complete` of a provider returns.
pub record Reply : Type 0 where
  pub response : Response
  pub error : Option Error

pub record World : Type 0 where
  pub clock : ℕ → ℕ
  pub ctx_done : ℕ → Bool
  pub provide : ℕ → List ℕ → Request → Reply
  -- `cache.Key`, the cache's `Enabled` and `Get` with `cache.Decode`, and the request identifiers.
  pub cache_key : Request → List ℕ → List ℕ → List ℕ
  pub cache_enabled : Bool
  pub find_cached : ℕ → List ℕ → Option Response
  -- Whether a provider implements `StreamingProvider`, its `Stream`, and the callback of the client.
  pub can_stream : List ℕ → Bool
  pub open_stream : ℕ → List ℕ → Request → Result Error Source
  pub emit : ℕ → Chunk → Option Error
  pub recording : Bool
  pub new_request_id : Option (List ℕ)

pub record Config : Type 0 where
  pub providers : List (List ℕ)
  pub mappings : List (List ℕ × List (List ℕ × List ℕ))
  pub fallback : Bool
  pub pricing : PriceBook

-- A call of a provider, with its reply.
pub record Call : Type 0 where
  pub name : List ℕ
  pub request : Request
  pub reply : Reply

-- A call of a provider's `Stream`, with what it opened.
pub record Opening : Type 0 where
  pub name : List ℕ
  pub request : Request
  pub source : Result Error Source

-- `tick` counts the questions to the world; `calls` are the calls of providers, `stored` the responses
-- given to `storeCompletion`, whose `cache.Encode` drops those that are not whole, `opened` the streams, `emitted` the chunks given to the client, and `submitted` the
-- records given to the recorder.
pub record State : Type 0 where
  pub health : HealthTracker
  pub telemetry : Telemetry
  pub accounting : Tracker
  pub exploration : ExplorationCounts
  pub history : Option RequestHistory
  pub tick : ℕ
  pub calls : List Call
  pub stored : List (List ℕ × Response)
  pub opened : List Opening
  pub emitted : List Chunk
  pub submitted : List RequestRecord

-- `strings.HasPrefix`.
abbrev pub has_prefix : List ℕ → List ℕ → Bool
has_prefix s [] = true
has_prefix [] (b ∷ p) = false
has_prefix (a ∷ s) (b ∷ p) = (a == b) && has_prefix s p

unfoldable pub is_logical : List ℕ → Bool
is_logical name = has_prefix name (codes "routeforge/")

abbrev pub is_blank : List ℕ → Bool
is_blank s = is_empty (trim_space s)

-- A provider that has no mapping reads as the empty model.
abbrev pub mapped : Option (List ℕ) → List ℕ
mapped none = []
mapped (some model) = model

-- `Resolve`.
unfoldable pub resolve :
    List (List ℕ × List (List ℕ × List ℕ)) → List ℕ → List ℕ → Result Error (List ℕ)
resolve mappings alias name = elim (lookup alias mappings) [
  | none ↦ err (resolution_error error_unknown_alias)
  | some models ↦
      if is_blank (mapped (lookup name models))
      then err (resolution_error error_missing_mapping)
      else ok (mapped (lookup name models))
]

unfoldable pub validate_core : Request → Option Error
validate_core r =
    if is_blank r.model
    then some err_model_required
    else elim r.messages [ [] ↦ some err_messages_required | m ∷ ms ↦ none ]

abbrev pub is_role : List ℕ → Bool
is_role s = same s (codes "system") || (same s (codes "user") || same s (codes "assistant"))

unfoldable pub validate_roles : ℕ → List Message → Option Error
validate_roles i [] = none
validate_roles i (m ∷ messages) =
    let rest = validate_roles (i + 1) messages in
    if is_role m.role then rest else some (unsupported_role_error i m.role)

unfoldable pub record_health_outcome :
    HealthAttempt → ProviderOutcome → ℕ → HealthTracker → HealthTracker
record_health_outcome a outcome_success now t = (success a now t).0
record_health_outcome a o now t =
    if not (degrades_health o) then (drop_attempt a t).0 else (failure a now t).0

abbrev pub merge_count : Option ℕ → Option ℕ → Option ℕ
merge_count current none = current
merge_count current (some incoming) = some incoming

-- `mergeUsage`.
unfoldable pub merge_usage : Option Usage → Option Usage → Option Usage
merge_usage current none = current
merge_usage none (some u) = some u
merge_usage (some c) (some u) = some (record {
  input_tokens = merge_count c.input_tokens u.input_tokens;
  output_tokens = merge_count c.output_tokens u.output_tokens;
  total_tokens = merge_count c.total_tokens u.total_tokens;
})

-- `clientVisibleChunk`.
abbrev pub client_visible : Chunk → Bool
client_visible k =
    not (is_empty k.role) || (not (is_empty k.content) || not (is_empty k.finish_reason))

-- The model that a provider is asked for.
unfoldable pub target_model : Config → Request → List ℕ → Result Error (List ℕ)
target_model c r name = if is_logical r.model then resolve c.mappings r.model name else ok r.model

price_of : Config → Request → List ℕ → Prices → Prices
price_of c r name prices = elim (target_model c r name) [
  | err e ↦ prices
  | ok model ↦ elim (lookup (record { provider = name; model = model }) c.pricing) [
    | none ↦ prices
    | some rates ↦ insert name rates prices
  ]
]

unfoldable pub prices_from : Config → Request → List (List ℕ) → Prices → Prices
unfolding price_of
prices_from c r [] prices = prices
prices_from c r (name ∷ names) prices = prices_from c r names (price_of c r name prices)

-- `candidatePrices`.
unfoldable pub candidate_prices : Config → Request → List (List ℕ) → RoutingPolicy → Prices
unfolding prices_from
candidate_prices c r candidates policy =
    if uses_pricing policy then prices_from c r candidates [] else []

-- The split of the providers into those that are eligible and the others. Each test reads the clock.
unfoldable pub split_eligible :
    World → HealthTracker → ℕ → List (List ℕ) → List (List ℕ) × List (List ℕ)
split_eligible w t tick [] = ([], [])
split_eligible w t tick (name ∷ names) =
    let (able, others) = split_eligible w t (tick + 1) names in
    if eligible name (w.clock tick) t then (name ∷ able, others) else (able, name ∷ others)
