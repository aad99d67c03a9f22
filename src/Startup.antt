-- ===== src/Startup.antt =====
-- cmd/routeforge/main.go: `buildService`, from the configuration to the service. The registry is
-- internal/provider/registry.go. An adapter is named by what `New` is given besides its base URL.
pub mod Policies
pub mod Registered
pub mod Built
use route_forge.Base.{
  ℕ, Bool, true, false, not, Option, none, some, List, [], ◌∷◌, ◌++◌, map, if◌then◌else◌,
}
use route_forge.Base.Dict.{lookup, insert, text_eq}
use route_forge.Base.Int.{ℤ, pos_part}
use route_forge.Base.Result.{Result, ok, err, ◌>>=◌}
use route_forge.Base.Text.{codes, same}
use route_forge.Accounting.{Key, key_eq, PriceBook, Rates}
use route_forge.Accounting.Price.{is_empty}
use route_forge.Circuit.{CircuitConfig}
use route_forge.Configuration.{Config}
use route_forge.Configuration.Checks.{has_key}
use route_forge.Routing.Policy.{RoutingConfig, ConfigError}
use route_forge.Service.Construct.{
  Mappings, Gateway, new_with_circuit_breaker, new_auto_service, configure, set_pricing,
}

-- A provider: the time limit of its client, its key and the time limit on a silent stream.
pub data Provider : Type 0 where
  mock : Provider
  openai anthropic : ℤ → List ℕ → ℤ → Provider

-- `Name`.
unfoldable pub name : Provider → List ℕ
name mock = codes "mock"
name (openai timeout key idle) = codes "openai"
name (anthropic timeout key idle) = codes "anthropic"

abbrev pub Registry : Type 0
Registry = List (List ℕ × Provider)

unfoldable pub add_providers : List Provider → Registry → Registry
unfolding name
add_providers [] r = r
add_providers (p ∷ ps) r = add_providers ps (insert (name p) p r)

unfoldable pub new_registry : List Provider → Registry
unfolding add_providers
new_registry providers = add_providers providers []

-- `Get`.
unfoldable pub get : List ℕ → Registry → Option Provider
get key r = lookup key r

pub data BuildError : Type 0 where
  provider_unavailable no_automatic_providers : BuildError
  invalid_routing : ConfigError → BuildError

abbrev pub mock_model : List ℕ
mock_model = codes "mock-model"

abbrev when_keyed : List ℕ → Provider → List Provider
when_keyed key p = if has_key key then p ∷ [] else []

abbrev pub providers_of : Config → List Provider
providers_of c =
    mock
    ∷ (when_keyed c.openai_api_key
          (openai c.durations.provider_timeout c.openai_api_key c.durations.stream_idle_timeout)
        ++ when_keyed c.anthropic_api_key (
            anthropic c.durations.provider_timeout c.anthropic_api_key
              c.durations.stream_idle_timeout))

abbrev pub mappings_of : Config → Mappings
mappings_of c =
    (
      codes "routeforge/general",
      (codes "openai", c.general_openai_model)
          ∷ (codes "anthropic", c.general_anthropic_model)
          ∷ (codes "mock", mock_model)
          ∷ [],
    )
    ∷ []

abbrev pub circuit_of : Config → CircuitConfig
circuit_of c = record {
  failure_threshold = pos_part c.counts.circuit_failure_threshold;
  open_duration = pos_part c.durations.circuit_open_duration;
}

abbrev pub routing_of : Config → RoutingConfig
routing_of c = record {
  policy = c.routing_policy;
  min_samples = c.counts.routing_min_samples;
  sample_max_age = c.durations.routing_sample_max_age;
  exploration_interval = c.counts.routing_exploration_interval;
  max_latency_over_fastest_percent = c.max_latency_percent;
}

abbrev pub key_of : List ℕ → List ℕ → Key
key_of provider model = record { provider = provider; model = model }

unless_empty : List ℕ → List ℕ → Rates → PriceBook → PriceBook
unless_empty provider model rates prices =
    if is_empty model then prices else insert (key_of provider model) rates prices

-- `configuredPrices`.
unfoldable pub configured_prices : Config → PriceBook
unfolding unless_empty
configured_prices c =
    unless_empty (codes "anthropic") c.general_anthropic_model c.pricing.anthropic_pricing (
      unless_empty (codes "openai") c.general_openai_model c.pricing.openai_pricing
        ((key_of (codes "mock") mock_model, c.pricing.mock_pricing) ∷ []))

unfoldable pub priced : Config → Result ConfigError Gateway → Result BuildError Gateway
unfolding configured_prices
priced c (err e) = err (invalid_routing e)
priced c (ok g) = ok (set_pricing (configured_prices c) g)

unfoldable pub build_one : Config → Option Provider → Result BuildError Gateway
unfolding priced
build_one c none = err provider_unavailable
build_one c (some p) =
    priced c
      (configure (routing_of c) (new_with_circuit_breaker (name p) (mappings_of c) (circuit_of c)))

abbrev held_name : Option Provider → List (List ℕ)
unfolding name
held_name none = []
held_name (some p) = name p ∷ []

-- The names of the automatic providers that the registry holds, in their order.
unfoldable pub automatic : Registry → List (List ℕ)
unfolding get name
automatic r = held_name (get (codes "openai") r) ++ held_name (get (codes "anthropic") r)

unfoldable pub build_auto : Config → List (List ℕ) → Result BuildError Gateway
unfolding priced
build_auto c [] = err no_automatic_providers
build_auto c (n ∷ ns) =
    priced c (new_auto_service (mappings_of c) (circuit_of c) (routing_of c) (n ∷ ns))

-- `buildService`.
unfoldable pub build_service : Config → Result BuildError Gateway
unfolding new_registry get automatic build_one build_auto
build_service c =
    if same c.provider (codes "auto")
    then build_auto c (automatic (new_registry (providers_of c)))
    else build_one c (get c.provider (new_registry (providers_of c)))
