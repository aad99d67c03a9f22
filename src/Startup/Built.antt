-- ===== src/Startup/Built.antt =====
-- cmd/routeforge/main.go: a configuration that `Load` returns gives a service.
use route_forge.Base.{ℕ, ◌<◌, ◌≡◌, Bool, true, List, [], ◌∷◌, ◌++◌, length, if◌then◌else◌}
use route_forge.Base.Dict.{text_eq}
use route_forge.Base.Result.{ok}
use route_forge.Base.Text.{codes, same}
use route_forge.Configuration.{Config}
use route_forge.Configuration.Checks.{has_key}
use route_forge.Routing.Policy.{RoutingPolicy, new_routing_policy}
use route_forge.Circuit.Tracker.{new_health_tracker}
use route_forge.Runtime.{publish, new_runtime_routing}
use route_forge.Runtime.Settings.{IsConsistent}
use route_forge.Startup.{circuit_of, mappings_of, configured_prices, Provider, name, routing_of}
use route_forge.Service.Construct.{Gateway, new_with_circuit_breaker, gateway, set_pricing}

-- The providers that a configuration asks for: the one it names, or in automatic mode those with a key.
abbrev pub configured_names : Config → List (List ℕ)
configured_names c =
    if same c.provider (codes "auto")
    then ((if has_key c.openai_api_key then codes "openai" ∷ [] else [])
        ++ (if has_key c.anthropic_api_key then codes "anthropic" ∷ [] else []))
    else c.provider ∷ []

-- A service that serves as it is configured: its providers are those that the configuration asks for, its
-- settings are those of the configuration and its policy is theirs, its providers have fresh circuits, and
-- the tracker holds the same prices.
pub record Started (c : Config) (g : Gateway) : Type 0 where
  pub fallback : g.fallback ≡ same c.provider (codes "auto")
  pub providers : g.providers ≡ configured_names c
  pub serves : 0 < length g.providers
  pub config : g.routing.current.config ≡ routing_of c
  pub consistent : IsConsistent g.routing
  pub pricing : (g.pricing ≡ configured_prices c) × (g.accounting.prices ≡ g.pricing)
  pub health : g.health ≡ new_health_tracker g.providers (circuit_of c)
  pub resolver : g.resolver ≡ mappings_of c

module _ (c : Config) (policy : RoutingPolicy) (rank : Bool)
    (made : new_routing_policy (routing_of c) ≡ ok (policy, rank)) where
  one : Provider → Gateway
  one p =
      let base = new_with_circuit_breaker (name p) (mappings_of c) (circuit_of c) in
      set_pricing (configured_prices c)
        (record base { routing = publish (routing_of c) (policy, rank) base.routing })

  auto : List (List ℕ) → Gateway
  auto names = set_pricing (configured_prices c) (
      gateway names (mappings_of c) true (circuit_of c)
        (new_runtime_routing (routing_of c) policy rank))
