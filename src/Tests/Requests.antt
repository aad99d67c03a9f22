-- ===== src/Tests/Requests.antt =====
-- internal/gateway/service.go and internal/gateway/runtime_routing.go: a gateway with two providers, of
-- which the first is down.
use route_forge.Base.{
  ℕ, ◌+◌, ◌≡◌, refl, ◌⊎◌, true, false, none, some, List, [], ◌∷◌, map, if◌then◌else◌,
}
use route_forge.Base.Int.{pos}
use route_forge.Base.Result.{Result, ok, err}
use route_forge.Base.Text.{codes, same}
use route_forge.Accounting.Tracker as Ledger
use route_forge.Circuit.Tracker.{new_health_tracker, begin, failure}
use route_forge.Circuit.{begin_health}
use route_forge.Base.Dict.{lookup, insert}
use route_forge.Accounting.Price.{trim_space}
use route_forge.Outcome.{
  is_eof, Error, eof, http_status_error, eligible_for_fallback, classify_provider_outcome,
  degrades_health, err_messages_required,
}
use route_forge.Routing.Policy.{RoutingConfig, deterministic}
use route_forge.Runtime.{
  RoutingVersion, RoutingSettings, RuntimeRouting, update_routing_settings, new_runtime_routing,
}
use route_forge.Runtime.Settings.{Outcome, update_routing_settings_lem}
use route_forge.Service.{
  Request, Reply, World, Config, State, Chunk, Source, validate_core, validate_roles, is_logical,
  target_model, resolve, record_health_outcome,
}
use route_forge.Service.Complete.{complete, refuse, visit}
use route_forge.Service.Stream.{stream, deliver, deliver_chunk, see_content}
use route_forge.Telemetry.{first_content}
use route_forge.Service.{merge_usage}
use route_forge.Service.Trail.{Untouched}
use route_forge.Service.Refusals.{Fault, Acceptable, complete-Fault}
use route_forge.HttpErrors.{write_completion_error}
use route_forge.Telemetry

abbrev openai : List ℕ
openai = codes "openai"

abbrev mock : List ℕ
mock = codes "mock"

abbrev reply_of : List ℕ → Request → Reply
reply_of name request = record {
  response = record {
    id = [];
    object = [];
    created = 0;
    model = request.model;
    choices = [];
    usage = none;
  };
  error = if same name openai then some (http_status_error openai 503) else none;
}

abbrev chunk : List ℕ → List ℕ → Chunk
chunk role content = record {
  id = [];
  created = 0;
  model = codes "small";
  role = role;
  content = content;
  finish_reason = [];
  usage = none;
}

-- The first provider refuses the stream, and the second sends a chunk that is not shown to the client.
abbrev source_of : List ℕ → Result Error Source
source_of name =
    if same name openai
    then err (http_status_error openai 503)
    else ok (chunk [] [] ∷ chunk (codes "assistant") (codes "hi") ∷ [], eof)

abbrev world : World
world = record {
  clock = λ t. 100 + t;
  ctx_done = λ t. false;
  provide = λ t name request. reply_of name request;
  cache_key = λ request name model. [];
  cache_enabled = false;
  find_cached = λ t key. none;
  can_stream = λ name. true;
  open_stream = λ t name request. source_of name;
  emit = λ t chunk. none;
  recording = true;
  new_request_id = some (codes "rfreq_1");
}

abbrev fast : List ℕ
fast = codes "routeforge/fast"

abbrev gateway : Config
gateway = record {
  providers = openai ∷ mock ∷ [];
  mappings = (fast, (openai, codes "big") ∷ (mock, codes "small") ∷ []) ∷ [];
  fallback = true;
  pricing = [];
}

abbrev routing : RoutingConfig
routing = record {
  policy = [];
  min_samples = pos 0;
  sample_max_age = pos 0;
  exploration_interval = pos 0;
  max_latency_over_fastest_percent = none;
}

abbrev runtime : RuntimeRouting
runtime = new_runtime_routing routing deterministic false

abbrev version : RoutingVersion
version = record { config = routing; policy = deterministic; rank_eligible = false }

abbrev hello : Request
hello = record {
  model = fast;
  messages = record { role = codes "user"; content = codes "hello" } ∷ [];
  stream = false;
}

abbrev idle : State
idle = record {
  health =
      new_health_tracker (openai ∷ mock ∷ [])
        (record { failure_threshold = 3; open_duration = 10 });
  telemetry = Telemetry.new_tracker 5 (openai ∷ mock ∷ []) [];
  accounting = Ledger.new_tracker [] 10;
  exploration = record { non_streaming = 0; streaming = 0 };
  history = none;
  tick = 0;
  calls = [];
  stored = [];
  opened = [];
  emitted = [];
  submitted = [];
}

-- The second provider is called after the first, and answers under the model of the request.
falls_back :
    map (λ k. k.name) (complete world gateway version hello idle).0.calls ≡ openai ∷ mock ∷ []
unfolding complete validate_core trim_space validate_roles is_logical visit target_model resolve
    lookup insert begin begin_health new_health_tracker eligible_for_fallback http_status_error
    record_health_outcome classify_provider_outcome degrades_health failure
falls_back = refl

abbrev empty : Request
empty = record { model = fast; messages = []; stream = false }

complete-Fault_example :
    ((e : Error) × (status : ℕ) × Fault gateway empty e status
      × ((complete world gateway version empty idle).1 ≡ err e)
      × Untouched world gateway version empty idle (complete world gateway version empty idle).0
      × ((write_completion_error e).status ≡ status))
    ⊎ (Acceptable gateway empty × (refuse world gateway version empty ≡ none))
complete-Fault_example = complete-Fault world gateway version empty idle

empty_refused : refuse world gateway version empty ≡ some err_messages_required
unfolding refuse validate_core trim_space
empty_refused = refl

abbrev explicit : Config
explicit = record gateway { fallback = false }

abbrev settings : RoutingSettings
settings = record {
  policy = codes "latency";
  exploration_interval = pos 20;
  max_latency_over_fastest_percent = none;
}

update_routing_settings_lem_example :
    Outcome settings runtime (update_routing_settings settings runtime)
update_routing_settings_lem_example = update_routing_settings_lem settings runtime

-- The stream of the second provider is shown, without its first chunk.
shows_second :
    map (λ k. k.content) (stream world gateway version hello idle).0.emitted ≡ codes "hi" ∷ []
unfolding stream validate_core trim_space validate_roles is_logical target_model resolve lookup
    insert begin begin_health new_health_tracker eligible_for_fallback http_status_error
    record_health_outcome classify_provider_outcome degrades_health failure deliver deliver_chunk
    see_content first_content merge_usage is_eof Telemetry.begin Telemetry.finish_streaming
    Telemetry.new_tracker
shows_second = refl
