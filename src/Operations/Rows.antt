-- ===== src/Operations/Rows.antt =====
-- internal/gateway/operations.go: what the rows of the snapshot say.
use route_forge.Base.{
  ℕ, ◌≤◌, ◌≡◌, refl, Bool, true, not, ltb, List, [], ◌∷◌, map, arith, Option-cases, inl, inr,
}
use route_forge.Base.Dict.{lookup, text_eq}
use route_forge.Accounting.{PriceBook}
use route_forge.Base.Int.{ℤ}
use route_forge.Circuit.{
  CircuitState, circuit_closed, circuit_open, circuit_half_open, ProviderHealth, eligible_health,
  eligible_in,
}
use route_forge.Circuit.Tracker.{eligible, snapshot}
use route_forge.Routing.Policy.{RoutingConfig}
use route_forge.Operations.{
  Gateway, ProviderState, count_prices, has_rate, has_rates, eligible_state, provider_state,
  operations_snapshot,
}

count_prices-le :
    (name : List ℕ) (prices : PriceBook)
    → count_prices has_rates name prices ≤ count_prices has_rate name prices
unfolding count_prices
count_prices-le name [] = omega arith
count_prices-le name ((key, rates) ∷ prices) = ground (arith, count_prices-le name prices)

-- A row of the snapshot for a provider.
abbrev pub IsRow : Gateway → ℕ → List ℕ → ProviderState → Type 0
IsRow g now name p =
    (p.provider ≡ name)
    × (p.eligible ≡ eligible name now g.health)
    × (p.complete_price_models ≤ p.priced_models)

abbrev pub AllRows : Gateway → ℕ → List (List ℕ) → List ProviderState → Type 0
AllRows g now [] [] = Unit {0}
AllRows g now (name ∷ names) (p ∷ rows) = IsRow g now name p × AllRows g now names rows
AllRows g now _ _ = ⊥

-- The test of the snapshot, by the state of the circuit, is the circuit's own.
eligible-state :
    (now : ℕ) (h : ProviderHealth) (state : CircuitState)
    → elim state as (λ x. Bool) [
      | circuit_closed ↦ true
      | circuit_open ↦ not (ltb now h.open_until)
      | circuit_half_open ↦ not h.half_open_in_flight
    ]
      ≡ eligible_in state now h
unfolding eligible_in
eligible-state now h circuit_closed = refl
eligible-state now h circuit_open = refl
eligible-state now h circuit_half_open = refl

eligible-row :
    (now : ℕ) (g : Gateway) (name : List ℕ) (min_samples max_age : ℤ)
    → (provider_state now min_samples max_age g name).eligible ≡ eligible name now g.health
unfolding provider_state snapshot eligible eligible_health eligible_state
eligible-row now g name min_samples max_age = elim (Option-cases (lookup name g.health.providers)) [
  | inl e ↦ rw (e, eligible, provider_state, snapshot) refl
  | inr (h, e) ↦ rw (e, eligible, provider_state, snapshot) (eligible-state now h h.state)
]

provider_state-IsRow :
    (now : ℕ) (min_samples max_age : ℤ) (g : Gateway) (name : List ℕ)
    → IsRow g now name (provider_state now min_samples max_age g name)
unfolding provider_state
provider_state-IsRow now min_samples max_age g name =
    (refl, eligible-row now g name min_samples max_age, count_prices-le name g.pricing)

map-AllRows :
    (now : ℕ) (min_samples max_age : ℤ) (g : Gateway) (names : List (List ℕ))
    → AllRows g now names (map (provider_state now min_samples max_age g) names)
map-AllRows now min_samples max_age g [] = tt
map-AllRows now min_samples max_age g (name ∷ names) = (
  provider_state-IsRow now min_samples max_age g name,
  map-AllRows now min_samples max_age g names,
)

-- The snapshot has one row for each provider of the gateway, in its order, whatever thresholds the
-- caller gives; a row calls its provider eligible exactly when the circuit breaker does at the same
-- reading of the clock, and counts no more models with both rates than with any.
pub operations-AllRows :
    (config : RoutingConfig) (now : ℕ) (g : Gateway)
    → AllRows g now g.names (operations_snapshot config now g).providers
unfolding operations_snapshot
operations-AllRows config now g = map-AllRows now _ _ g g.names
