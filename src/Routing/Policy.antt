-- ===== src/Routing/Policy.antt =====
-- internal/gateway/routing.go: the policies, their construction and their orders.
use route_forge.Base.{ℕ, Bool, true, false, Option, none, some, List, [], if◌then◌else◌}
use route_forge.Base.Result.{Result, ok, err, ◌>>=◌, ◌>>◌, require}
use route_forge.Base.Text.{codes, same}
use route_forge.Base.Int.{ℤ, pos, ltb_ℤ, pos_part}
use route_forge.Telemetry.{LatencySample}
use route_forge.Routing.{Prices}
use route_forge.Routing.PriceOrder.{order_by_price_dominance}
use route_forge.Routing.Latency.{
  RequestMode, ExplorationCounts, LatencyPolicy, order_by_latency, order_by_cost_latency,
}

pub record RoutingConfig : Type 0 where
  pub policy : List ℕ
  pub min_samples : ℤ
  pub sample_max_age : ℤ
  pub exploration_interval : ℤ
  pub max_latency_over_fastest_percent : Option ℕ

pub data RoutingPolicy : Type 0 where
  deterministic : RoutingPolicy
  latency : LatencyPolicy → RoutingPolicy
  cost : RoutingPolicy
  cost_latency : LatencyPolicy → ℕ → RoutingPolicy

pub data ConfigError : Type 0 where
  percent_required unknown_policy min_samples_not_positive : ConfigError
  max_age_not_positive interval_not_positive : ConfigError

abbrev pub is_positive : ℤ → Bool
is_positive n = ltb_ℤ (pos 0) n

unfoldable pub new_latency_policy : RoutingConfig → Result ConfigError LatencyPolicy
new_latency_policy c = do
  require (is_positive c.min_samples) min_samples_not_positive
  require (is_positive c.sample_max_age) max_age_not_positive
  require (is_positive c.exploration_interval) interval_not_positive
  ok (record {
    min_samples = pos_part c.min_samples;
    sample_max_age = pos_part c.sample_max_age;
    exploration_interval = pos_part c.exploration_interval;
  })

unfoldable pub new_cost_latency : RoutingConfig → Option ℕ → Result ConfigError RoutingPolicy
unfolding new_latency_policy
new_cost_latency c none = err percent_required
new_cost_latency c (some percent) = do p ← new_latency_policy c; ok (cost_latency p percent)

-- The policy's names, each with its policy; `""` is the first.
pub data PolicyName : Type 0 where
  named_deterministic named_latency named_cost named_cost_latency unknown : PolicyName

unfoldable pub policy_name : List ℕ → PolicyName
policy_name s =
    if same s []
    then named_deterministic
    else if same s (codes "deterministic")
    then named_deterministic
    else if same s (codes "latency")
    then named_latency
    else if same s (codes "cost")
    then named_cost
    else if same s (codes "cost_latency")
    then named_cost_latency
    else unknown

unfoldable pub policy_of : PolicyName → RoutingConfig → Result ConfigError (RoutingPolicy × Bool)
unfolding new_latency_policy new_cost_latency
policy_of named_deterministic c = ok (deterministic, false)
policy_of named_latency c = do p ← new_latency_policy c; ok (latency p, true)
policy_of named_cost c = ok (cost, true)
policy_of named_cost_latency c = do
  p ← new_cost_latency c c.max_latency_over_fastest_percent
  ok (p, true)
policy_of unknown c = err unknown_policy

-- `newRoutingPolicy`: the policy, and whether it ranks the candidates by their circuits first.
unfoldable pub new_routing_policy : RoutingConfig → Result ConfigError (RoutingPolicy × Bool)
unfolding policy_name policy_of
new_routing_policy c = policy_of (policy_name c.policy) c

-- `pricingRoutingPolicy`.
abbrev pub uses_pricing : RoutingPolicy → Bool
uses_pricing deterministic = false
uses_pricing (latency p) = false
uses_pricing cost = true
uses_pricing (cost_latency p percent) = true

module _ {A : Type 0} (name : A → List ℕ) (samples : A → List LatencySample) (prices : Prices)
    (now : ℕ) where
  -- `order`, with the exploration counts that it changes.
  unfoldable pub order :
      RoutingPolicy → RequestMode → List A → ExplorationCounts → List A × ExplorationCounts
  unfolding order_by_price_dominance order_by_latency order_by_cost_latency
  order deterministic mode candidates c = (candidates, c)
  order (latency p) mode candidates c = order_by_latency samples p now mode candidates c
  order cost mode candidates c = (order_by_price_dominance name prices candidates, c)
  order (cost_latency p percent) mode candidates c =
      order_by_cost_latency samples p now (order_by_price_dominance name prices) percent mode
        candidates c
