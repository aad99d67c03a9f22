-- ===== src/Tests/Answers.antt =====
-- internal/httpapi/errors.go, internal/cache/cache.go and internal/gateway/operations.go.
use route_forge.Base.{
  length, ◌≡◌, refl, true, false, not, none, some, [], ◌∷◌, ◌==◌, leb, if◌then◌else◌,
}
use route_forge.Base.Int.{pos}
use route_forge.Base.Text.{codes}
use route_forge.Circuit.{circuit_open, new_health}
use route_forge.Circuit.Tracker.{HealthTracker}
use route_forge.Outcome.{http_status_error, eligible_for_fallback}
use route_forge.Routing.Policy.{RoutingConfig, deterministic}
use route_forge.Runtime.{new_runtime_routing}
use route_forge.Service.{Chunk, Response}
use route_forge.HttpErrors.{write_completion_error}
use route_forge.HttpErrors.Statuses.{write_completion_error_lem}
use route_forge.Base.Result.{ok}
use route_forge.HttpStream.{Client, stream_chat}
use route_forge.HttpStream.Apart.{Apart, stream_chat-Apart}
use route_forge.Cache.{Json, encode, found, is_whole}
use route_forge.Cache.Whole.{IsWhole, found-encode}
use route_forge.Operations.{Gateway, operations_snapshot}
use route_forge.Operations.Rows.{AllRows, operations-AllRows}

write_completion_error_lem_example :
    let e = http_status_error (codes "openai") 503 in
    ((write_completion_error e).status
      ≡ (if 503 == 408 then 504 else if 503 == 429 then 429 else if leb 500 503 then 503 else 400))
    × (eligible_for_fallback e ≡ not ((write_completion_error e).status == 400))
write_completion_error_lem_example = write_completion_error_lem (codes "openai") 503

abbrev response : Response
response = record {
  id = codes "id";
  object = codes "chat.completion";
  created = 1;
  model = codes "m";
  choices =
      record {
        index = 0;
        message = record { role = codes "assistant"; content = codes "hi" };
        finish_reason = codes "stop";
      }
      ∷ [];
  usage = none;
}

-- A codec for this response alone.
abbrev codec : Json
codec = record { write = λ version r. r.model; read = λ bytes. some (1, response, true) }

found-encode_example :
    IsWhole (found codec (codes "k") (some (codes "?")))
    × (found codec (codes "key") (some (codes "m")) ≡ some response)
unfolding encode is_whole
found-encode_example =
    found-encode codec (codes "k") (codes "ey") b'k' (some (codes "?")) response (codes "m") refl
      refl refl

abbrev settings : RoutingConfig
settings = record {
  policy = [];
  min_samples = pos 0;
  sample_max_age = pos 0;
  exploration_interval = pos 0;
  max_latency_over_fastest_percent = none;
}

abbrev waiting : HealthTracker
waiting = record {
  providers = (codes "openai", record new_health { state = circuit_open; open_until = 9 }) ∷ [];
  config = record { failure_threshold = 3; open_duration = 5 };
}

abbrev gateway : Gateway
unfolding new_runtime_routing
gateway = record {
  fallback = true;
  names = codes "openai" ∷ codes "mock" ∷ [];
  health = waiting;
  telemetry = [];
  pricing = [];
  runtime = new_runtime_routing settings deterministic false;
}

operations-AllRows_example :
    AllRows gateway 7 gateway.names (operations_snapshot settings 7 gateway).providers
operations-AllRows_example = operations-AllRows settings 7 gateway

-- A client that takes every byte.
abbrev client : Client
client = record { marshal = λ p. ok p.content; write = λ i bytes. (length bytes, none) }

abbrev said : Chunk
said = record {
  id = [];
  created = 1;
  model = codes "m";
  role = [];
  content = codes "hi";
  finish_reason = [];
  usage = none;
}

stream_chat-Apart_example :
    Apart (stream_chat client true (said ∷ []) (some (http_status_error (codes "mock") 503)))
stream_chat-Apart_example =
    stream_chat-Apart client true (said ∷ []) (some (http_status_error (codes "mock") 503))
