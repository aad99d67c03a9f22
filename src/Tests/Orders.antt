-- ===== src/Tests/Orders.antt =====
-- internal/gateway/routing.go: candidates given by their names.
use mathlib.Core.List.{Perm}
use route_forge.Base.{
  ℕ, ◌-◌, ◌*◌, ◌≡◌, refl, ◌&&◌, ◌||◌, none, some, List, [], ◌∷◌, arith, leb, ltb, if◌then◌else◌,
}
use route_forge.Base.Text.{codes, same}
use route_forge.Base.Dict.{lookup}
use route_forge.Base.Int.{pos}
use route_forge.Accounting.{Rates}
use route_forge.Telemetry.{LatencySample}
use route_forge.Routing.{Prices, move_to_front, rates_dominate, price}
use route_forge.Routing.Dominance.{order_by_dominance}
use route_forge.Routing.Topo.{IsRanked}
use route_forge.Routing.PriceOrder.{cheaper, order_by_price_dominance, price_order-IsRanked}
use route_forge.Routing.Latency.{
  streaming_mode, ExplorationCounts, recent_latency_samples, LatencyPolicy, order_by_latency,
  within_latency_tolerance,
}
use route_forge.Routing.Policy.{RoutingPolicy, cost_latency, order}
use route_forge.Routing.Permutes.{order-perm}
use route_forge.Routing.Tolerance.{tolerance_exact}
use route_forge.Routing.Switching.{Decided, order_by_latency-Decided}

abbrev rates : ℕ → ℕ → Rates
rates input output = record { input_rate = some input; output_rate = some output }

-- `b` is cheaper than `a`, and `c` has no price.
abbrev prices : Prices
prices =
    (codes "a", rates 20 30)
    ∷ (codes "b", rates 10 30)
    ∷ (codes "c", record { input_rate = none; output_rate = some 1 })
    ∷ []

abbrev candidates : List (List ℕ)
candidates = codes "a" ∷ codes "b" ∷ codes "c" ∷ []

cheaper_first :
    order_by_price_dominance (λ s. s) prices candidates ≡ codes "b" ∷ codes "a" ∷ codes "c" ∷ []
unfolding order_by_price_dominance price rates_dominate order_by_dominance lookup
cheaper_first = refl

price_order-IsRanked_example :
    Perm (order_by_price_dominance (λ s. s) prices candidates) candidates
    × IsRanked (cheaper (λ s. s) prices) (order_by_price_dominance (λ s. s) prices candidates)
price_order-IsRanked_example = price_order-IsRanked (λ s. s) prices candidates

-- One fresh sample of each candidate but `b`.
abbrev samples : List ℕ → List LatencySample
samples s = if same s (codes "b") then [] else record { duration = pos 5; observed_at = 95 } ∷ []

abbrev tolerant : RoutingPolicy
tolerant =
    cost_latency (record { min_samples = 1; sample_max_age = 10; exploration_interval = 3 }) 20

abbrev counts : ExplorationCounts
counts = record { non_streaming = 0; streaming = 2 }

order-perm_example :
    Perm (order (λ s. s) samples prices 100 tolerant streaming_mode candidates counts).0 candidates
order-perm_example =
    order-perm (λ s. s) samples prices 100 tolerant streaming_mode candidates counts

-- The third streaming request tries the candidate that has too few samples first.
order_explores :
    (order (λ s. s) samples prices 100 tolerant streaming_mode candidates counts).0
    ≡ codes "b" ∷ codes "a" ∷ codes "c" ∷ []
unfolding order recent_latency_samples move_to_front
order_explores = refl

tolerance_exact_example :
    within_latency_tolerance (pos 120) (pos 100) 20
    ≡ (leb 120 100 || (ltb 0 100 && leb ((120 - 100) * 100) (100 * 20)))
tolerance_exact_example = tolerance_exact 120 100 20 (omega arith) (omega arith)

-- One sample is enough for `a` and `c`, and `b` has none.
abbrev policy : LatencyPolicy
policy = record { min_samples = 1; sample_max_age = 10; exploration_interval = 3 }

order_by_latency-Decided_example :
    Decided samples policy 100 streaming_mode
      (codes "a")
      (codes "b" ∷ codes "c" ∷ [])
      counts
      (order_by_latency samples policy 100 streaming_mode candidates counts)
order_by_latency-Decided_example =
    order_by_latency-Decided samples policy 100 streaming_mode (codes "a") (codes "b")
      (codes "c" ∷ []) counts
