-- ===== src/Startup/Policies.antt =====
-- internal/gateway/routing.go: a configuration that `Load` returns has a routing policy.
use route_forge.Base.{ℕ, ◌≡◌, refl, inl, inr, Bool, true, false, Option, none, some, arith}
use route_forge.Base.Dict.{text_eq}
use route_forge.Base.Int.{pos_part}
use route_forge.Base.Result.{ok}
use route_forge.Configuration.Checks.{is_none}
use route_forge.Configuration.Settings.{KnownPolicy}
use route_forge.Configuration.Valid.{Positive}
use route_forge.Routing.Policy.{
  RoutingConfig, RoutingPolicy, new_routing_policy, policy_of, new_latency_policy, new_cost_latency,
  deterministic, latency, cost, cost_latency,
}
use route_forge.Routing.Latency.{LatencyPolicy}

-- The settings of the policies that read latencies.
abbrev settings : RoutingConfig → LatencyPolicy
settings r = record {
  min_samples = pos_part r.min_samples;
  sample_max_age = pos_part r.sample_max_age;
  exploration_interval = pos_part r.exploration_interval;
}

pub new_latency_policy-ok :
    (r : RoutingConfig)
    → Positive r.min_samples
    → Positive r.sample_max_age
    → Positive r.exploration_interval
    → new_latency_policy r ≡ ok (settings r)
unfolding new_latency_policy
new_latency_policy-ok r a b c = ground arith

new_cost_latency-ok :
    (r : RoutingConfig) (percent : Option ℕ)
    → new_latency_policy r ≡ ok (settings r)
    → is_none percent ≡ false
    → (p : RoutingPolicy) × (new_cost_latency r percent ≡ ok p)
unfolding new_cost_latency
new_cost_latency-ok r none made e = cc
new_cost_latency-ok r (some percent) made e = (cost_latency (settings r) percent, rw made refl)

pub new_routing_policy-ok :
    (r : RoutingConfig)
    → KnownPolicy r.policy r.max_latency_over_fastest_percent
    → new_latency_policy r ≡ ok (settings r)
    → (p : RoutingPolicy × Bool) × (new_routing_policy r ≡ ok p)
unfolding new_routing_policy policy_of
new_routing_policy-ok r known made = elim known [
  | inl d ↦ ((deterministic, false), rw d refl)
  | inr (inl l) ↦ ((latency (settings r), true), rw (l, made) refl)
  | inr (inr (inl d)) ↦ ((cost, true), rw d refl)
  | inr (inr (inr (d, percent))) ↦
      let (p, e) = new_cost_latency-ok r r.max_latency_over_fastest_percent made percent in
      ((p, true), rw (d, e) refl)
]
