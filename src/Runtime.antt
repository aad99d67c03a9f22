-- ===== src/Runtime.antt =====
-- internal/gateway/runtime_routing.go: the routing settings, which an operator may change while the
-- gateway runs. The exploration counts are shared by all versions, so they stand beside them.
pub mod Settings
use route_forge.Base.{
  ℕ, Bool, true, false, not, ◌&&◌, ◌||◌, Option, none, some, List, [], ltb, if◌then◌else◌,
}
use route_forge.Base.Int.{ℤ, pos, ltb_ℤ}
use route_forge.Base.Result.{Result, ok, err}
use route_forge.Base.Text.{codes, same, contains}
use route_forge.Routing.Latency.{ExplorationCounts}
use route_forge.Routing.Policy.{RoutingConfig, RoutingPolicy, ConfigError, new_routing_policy}

pub record RoutingSettings : Type 0 where
  pub policy : List ℕ
  pub exploration_interval : ℤ
  pub max_latency_over_fastest_percent : Option ℕ

pub record RoutingVersion : Type 0 where
  pub config : RoutingConfig
  pub policy : RoutingPolicy
  pub rank_eligible : Bool

pub record RuntimeRouting : Type 0 where
  pub current : RoutingVersion
  pub exploration : ExplorationCounts

pub data SettingsError : Type 0 where
  invalid_settings invalid_policy : SettingsError

abbrev pub normalized_policy_name : List ℕ → List ℕ
normalized_policy_name [] = codes "deterministic"
normalized_policy_name name = name

abbrev pub is_zero : ℤ → Bool
is_zero n = not (ltb_ℤ n (pos 0)) && not (ltb_ℤ (pos 0) n)

-- The defaults of `newRuntimeRouting`: five minutes are 300000000000 nanoseconds.
unfoldable pub with_defaults : RoutingConfig → RoutingConfig
with_defaults c = record c {
  policy = normalized_policy_name c.policy;
  min_samples = if is_zero c.min_samples then pos 5 else c.min_samples;
  sample_max_age = if is_zero c.sample_max_age then pos 300000000000 else c.sample_max_age;
  exploration_interval = if is_zero c.exploration_interval then pos 10 else c.exploration_interval;
}

unfoldable pub new_runtime_routing : RoutingConfig → RoutingPolicy → Bool → RuntimeRouting
unfolding with_defaults
new_runtime_routing c policy rank = record {
  current = record { config = with_defaults c; policy = policy; rank_eligible = rank };
  exploration = record { non_streaming = 0; streaming = 0 };
}

-- `publish`: the exploration counts go on.
unfoldable pub publish : RoutingConfig → RoutingPolicy × Bool → RuntimeRouting → RuntimeRouting
publish c (policy, rank) r = record r {
  current = record { config = c; policy = policy; rank_eligible = rank };
}

unfoldable pub configure_routing :
    RoutingConfig → RuntimeRouting → RuntimeRouting × Option ConfigError
unfolding publish
configure_routing c r = elim (new_routing_policy c) [
  | err e ↦ (r, some e)
  | ok p ↦ (publish c p r, none)
]

unfoldable pub routing_settings : RuntimeRouting → RoutingSettings
routing_settings r = record {
  policy = r.current.config.policy;
  exploration_interval = r.current.config.exploration_interval;
  max_latency_over_fastest_percent = r.current.config.max_latency_over_fastest_percent;
}

abbrev pub percent_too_large : Option ℕ → Bool
percent_too_large none = false
percent_too_large (some percent) = ltb 1000000 percent

-- The test on the numbers of an update.
abbrev pub out_of_bounds : RoutingSettings → Bool
out_of_bounds settings =
    ltb_ℤ settings.exploration_interval (pos 1)
    || (ltb_ℤ (pos 1000000) settings.exploration_interval
        || percent_too_large settings.max_latency_over_fastest_percent)

-- The test on its policy.
abbrev pub is_policy : List ℕ → Bool
is_policy s =
    same s (codes "deterministic")
    || (same s (codes "latency") || (same s (codes "cost") || same s (codes "cost_latency")))

abbrev pub updated : RoutingSettings → RoutingConfig → RoutingConfig
updated settings c = record c {
  policy = settings.policy;
  exploration_interval = settings.exploration_interval;
  max_latency_over_fastest_percent = settings.max_latency_over_fastest_percent;
}

publish_update :
    RoutingSettings
    → RuntimeRouting
    → Result ConfigError (RoutingPolicy × Bool)
    → RuntimeRouting × Result SettingsError RoutingSettings
unfolding publish
publish_update settings r (err e) = (r, err invalid_settings)
publish_update settings r (ok p) = (publish (updated settings r.current.config) p r, ok settings)

-- `UpdateRoutingSettings`.
unfoldable pub update_routing_settings :
    RoutingSettings → RuntimeRouting → RuntimeRouting × Result SettingsError RoutingSettings
unfolding publish_update
update_routing_settings settings r =
    if out_of_bounds settings
    then (r, err invalid_settings)
    else if not (is_policy settings.policy)
    then (r, err invalid_policy)
    else publish_update settings r (new_routing_policy (updated settings r.current.config))

-- `BindRouting` and `requestRouting`: a request keeps the version that its context holds already, or
-- takes the current one.
abbrev pub bind_routing : Option RoutingVersion → RuntimeRouting → RoutingVersion
bind_routing none r = r.current
bind_routing (some version) r = version
