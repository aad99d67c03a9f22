-- ===== src/Service/Construct.antt =====
-- internal/gateway/service.go: the constructors of the service, and the operations that configure it
-- before it serves. The clock, traces and metrics are left out: a reading of the clock is an argument
-- of each operation. A resolver that is nil is one without mappings.
use route_forge.Base.{ℕ, ◌*◌, ◌^◌, Bool, true, false, Option, none, some, List, [], ◌∷◌}
use route_forge.Base.Int.{pos}
use route_forge.Base.Result.{Result, ok, err, ◌>>=◌}
use route_forge.Accounting.{PriceBook}
use route_forge.Accounting.Tracker.{Tracker, new_tracker, set_prices}
use route_forge.Circuit.{CircuitConfig}
use route_forge.Circuit.Tracker.{HealthTracker, new_health_tracker}
use route_forge.Routing.Policy.{RoutingConfig, deterministic, ConfigError, new_routing_policy}
use route_forge.Runtime.{RuntimeRouting, new_runtime_routing, configure_routing}
use route_forge.Service.{Config, State}
use route_forge.Telemetry.{Telemetry}
use route_forge.Telemetry

abbrev pub Mappings : Type 0
Mappings = List (List ℕ × List (List ℕ × List ℕ))

-- The fields of `Service` that a constructor sets; a provider stands for itself by its name.
pub record Gateway : Type 0 where
  pub providers : List (List ℕ)
  pub resolver : Mappings
  pub fallback : Bool
  pub health : HealthTracker
  pub telemetry : Telemetry
  pub routing : RuntimeRouting
  pub accounting : Tracker
  pub pricing : PriceBook

abbrev pub default_circuit : CircuitConfig
default_circuit = record { failure_threshold = 3; open_duration = 30 * 10 ^ 9 }

abbrev pub default_model_capacity : ℕ
default_model_capacity = 128

-- `telemetryFor`, with `defaultTelemetrySampleCapacity`.
abbrev pub telemetry_for : List (List ℕ) → Telemetry
telemetry_for names = Telemetry.new_tracker 64 names []

abbrev pub no_routing : RoutingConfig
no_routing = record {
  policy = [];
  min_samples = pos 0;
  sample_max_age = pos 0;
  exploration_interval = pos 0;
  max_latency_over_fastest_percent = none;
}

unfoldable pub gateway : List (List ℕ) → Mappings → Bool → CircuitConfig → RuntimeRouting → Gateway
gateway names mappings fallback circuit routing = record {
  providers = names;
  resolver = mappings;
  fallback = fallback;
  health = new_health_tracker names circuit;
  telemetry = telemetry_for names;
  routing = routing;
  accounting = new_tracker [] default_model_capacity;
  pricing = [];
}

unfoldable pub new_with_circuit_breaker : List ℕ → Mappings → CircuitConfig → Gateway
unfolding gateway
new_with_circuit_breaker name mappings circuit =
    gateway (name ∷ []) mappings false circuit (new_runtime_routing no_routing deterministic false)

abbrev pub new : List ℕ → Mappings → Gateway
new name mappings = new_with_circuit_breaker name mappings default_circuit

unfoldable pub new_auto_with_circuit_breaker : Mappings → CircuitConfig → List (List ℕ) → Gateway
unfolding gateway
new_auto_with_circuit_breaker mappings circuit names =
    gateway names mappings true circuit (new_runtime_routing no_routing deterministic false)

abbrev pub new_auto : Mappings → List (List ℕ) → Gateway
new_auto mappings names = new_auto_with_circuit_breaker mappings default_circuit names

-- `NewAutoWithRouting` and `newAutoService`.
unfoldable pub new_auto_service :
    Mappings → CircuitConfig → RoutingConfig → List (List ℕ) → Result ConfigError Gateway
unfolding gateway
new_auto_service mappings circuit routing names = do
  policy ← new_routing_policy routing
  ok (gateway names mappings true circuit (new_runtime_routing routing policy.0 policy.1))

unfoldable pub configured :
    Gateway → RuntimeRouting × Option ConfigError → Result ConfigError Gateway
configured g (r, some e) = err e
configured g (r, none) = ok (record g { routing = r })

-- `ConfigureRouting` of the service.
unfoldable pub configure : RoutingConfig → Gateway → Result ConfigError Gateway
unfolding configured
configure routing g = configured g (configure_routing routing g.routing)

-- `SetPricing`: the service and its tracker hold a copy each.
unfoldable pub set_pricing : PriceBook → Gateway → Gateway
set_pricing prices g = record g { pricing = prices; accounting = set_prices prices g.accounting }

-- The configuration and the state with which `Complete` and `Stream` begin to serve.
abbrev pub serving : Gateway → Config
serving g = record {
  providers = g.providers;
  mappings = g.resolver;
  fallback = g.fallback;
  pricing = g.pricing;
}

abbrev pub at_start : Gateway → State
at_start g = record {
  health = g.health;
  telemetry = g.telemetry;
  accounting = g.accounting;
  exploration = g.routing.exploration;
  history = none;
  tick = 0;
  calls = [];
  stored = [];
  opened = [];
  emitted = [];
  submitted = [];
}
