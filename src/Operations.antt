-- ===== src/Operations.antt =====
-- internal/gateway/operations.go: the snapshot of the gateway for its operators. It reads the routing
-- version, the health, the telemetry and the prices one after another; here it reads one state.
pub mod Rows
use route_forge.Base.{
  ℕ, ◌+◌, ◌==◌, Bool, true, false, not, ◌&&◌, ◌||◌, Option, none, some, List, [], ◌∷◌, map, length,
  ltb, if◌then◌else◌,
}
use route_forge.Base.Int.{ℤ, pos, pos_part, neg_part, ltb_ℤ}
use route_forge.Base.Text.{same}
use route_forge.Accounting.{Key, Rates, PriceBook}
use route_forge.Circuit.{CircuitState, circuit_closed, circuit_open, circuit_half_open}
use route_forge.Circuit.Tracker.{HealthTracker, HealthSnapshot, snapshot}
use route_forge.Routing.Latency.{
  LatencyPolicy, ExplorationCounts, quot, median_duration, recent_latency_samples,
}
use route_forge.Routing.Policy.{
  RoutingConfig, RoutingPolicy, deterministic, latency, cost, cost_latency,
}
use route_forge.Runtime.{RuntimeRouting, is_zero}
use route_forge.Telemetry.{LatencySample, Telemetry, TelemetrySnapshot, snapshot_of}

pub record LatencyState : Type 0 where
  pub stored_samples : ℕ
  pub fresh_samples : ℕ
  pub sufficient : Bool
  pub median_us : Option ℤ

-- `circuit_state` is none for a provider that the tracker does not know.
pub record ProviderState : Type 0 where
  pub provider : List ℕ
  pub circuit_state : Option CircuitState
  pub open_until : Option ℕ
  pub eligible : Bool
  pub probe_in_flight : Bool
  pub last_success : Option ℕ
  pub last_failure : Option ℕ
  pub completion : LatencyState
  pub ttfc : LatencyState
  pub priced_models : ℕ
  pub complete_price_models : ℕ

pub record RoutingState : Type 0 where
  pub policy : List ℕ
  pub auto : Bool
  pub provider_order : List (List ℕ)
  pub latency_aware : Bool
  pub min_samples : ℤ
  pub sample_max_age_us : ℤ
  pub exploration_interval : ℤ
  pub exploration_counts : Option ExplorationCounts
  pub max_latency_over_fastest_percent : Option ℕ

pub record OperationsSnapshot : Type 0 where
  pub observed_at : ℕ
  pub routing : RoutingState
  pub providers : List ProviderState

-- What the snapshot reads of the service.
pub record Gateway : Type 0 where
  pub fallback : Bool
  pub names : List (List ℕ)
  pub health : HealthTracker
  pub telemetry : Telemetry
  pub pricing : PriceBook
  pub runtime : RuntimeRouting

abbrev pub optional_time : ℕ → Option ℕ
optional_time t = if t == 0 then none else some t

-- `latencyState`. A negative age moves the cutoff behind the reading of the clock.
unfoldable pub latency_state : List LatencySample → ℕ → ℤ → ℤ → LatencyState
latency_state samples now min_samples max_age =
    let fresh = recent_latency_samples (now + neg_part max_age) (pos_part max_age) samples in
    let sufficient = ltb_ℤ (pos 0) min_samples && not (ltb_ℤ (pos (length fresh)) min_samples) in
    record {
      stored_samples = length samples;
      fresh_samples = length fresh;
      sufficient = sufficient;
      median_us =
          if sufficient
          then some (quot (median_duration (map (λ (s : LatencySample). s.duration) fresh)) 1000)
          else none;
    }

abbrev pub is_known : Option ℕ → Bool
is_known none = false
is_known (some rate) = true

-- The number of a provider's models whose rates pass a test.
unfoldable pub count_prices : (Rates → Bool) → List ℕ → PriceBook → ℕ
count_prices test name [] = 0
count_prices test name ((key, rates) ∷ prices) =
    let rest = count_prices test name prices in
    if same key.provider name && test rates then rest + 1 else rest

abbrev pub has_rate : Rates → Bool
has_rate r = is_known r.input_rate || is_known r.output_rate

abbrev pub has_rates : Rates → Bool
has_rates r = is_known r.input_rate && is_known r.output_rate

unfoldable pub eligible_state : ℕ → HealthSnapshot → Bool
eligible_state now h = elim h.state [
  | circuit_closed ↦ true
  | circuit_open ↦ not (ltb now h.open_until)
  | circuit_half_open ↦ not h.half_open_in_flight
]

abbrev pub open_until_of : HealthSnapshot → Option ℕ
open_until_of h = elim h.state [
  | circuit_open ↦ optional_time h.open_until
  | circuit_closed ↦ none
  | circuit_half_open ↦ none
]

abbrev pub samples_of :
    (TelemetrySnapshot → List LatencySample) → Option TelemetrySnapshot → List LatencySample
samples_of f none = []
samples_of f (some t) = f t

abbrev pub time_of : (TelemetrySnapshot → ℕ) → Option TelemetrySnapshot → Option ℕ
time_of f none = none
time_of f (some t) = optional_time (f t)

-- One round of the loop over the providers, by the snapshots of its health and its telemetry.
abbrev pub row_of :
    ℕ
    → ℤ
    → ℤ
    → PriceBook
    → List ℕ
    → Option HealthSnapshot
    → Option TelemetrySnapshot
    → ProviderState
row_of now min_samples max_age prices name health telemetry = record {
  provider = name;
  circuit_state = elim health [ none ↦ none | some h ↦ some h.state ];
  open_until = elim health [ none ↦ none | some h ↦ open_until_of h ];
  eligible = elim health [ none ↦ false | some h ↦ eligible_state now h ];
  probe_in_flight = elim health [ none ↦ false | some h ↦ h.half_open_in_flight ];
  last_success = time_of (λ t. t.counters.last_success) telemetry;
  last_failure = time_of (λ t. t.counters.last_failure) telemetry;
  completion =
      latency_state (samples_of (λ t. t.non_streaming_latency_samples) telemetry) now min_samples
        max_age;
  ttfc =
      latency_state (samples_of (λ t. t.streaming_first_content_samples) telemetry) now min_samples
        max_age;
  priced_models = count_prices has_rate name prices;
  complete_price_models = count_prices has_rates name prices;
}

abbrev pub latency_policy : RoutingPolicy → Option LatencyPolicy
latency_policy deterministic = none
latency_policy (latency p) = some p
latency_policy cost = none
latency_policy (cost_latency p percent) = some p

abbrev pub percent_of : RoutingPolicy → Option ℕ
percent_of (cost_latency p percent) = some percent
percent_of _ = none

-- The thresholds in force: those of a latency policy, or else those of the caller, or else those of the
-- version.
abbrev pub in_force : ℤ → ℤ → ℤ
in_force given current = if is_zero given then current else given

abbrev pub routing_state : RoutingConfig → Gateway → RoutingState
routing_state config g =
    let version = g.runtime.current in
    let known = latency_policy version.policy in
    record {
      policy = version.config.policy;
      auto = g.fallback;
      provider_order = g.names;
      latency_aware = elim known [ none ↦ false | some p ↦ true ];
      min_samples = elim known [
        | none ↦ in_force config.min_samples version.config.min_samples
        | some p ↦ pos p.min_samples
      ];
      sample_max_age_us = elim known [
        | none ↦ quot (in_force config.sample_max_age version.config.sample_max_age) 1000
        | some p ↦ quot (pos p.sample_max_age) 1000
      ];
      exploration_interval = elim known [
        | none ↦ version.config.exploration_interval
        | some p ↦ pos p.exploration_interval
      ];
      exploration_counts = elim known [ none ↦ none | some p ↦ some g.runtime.exploration ];
      max_latency_over_fastest_percent = percent_of version.policy;
    }

abbrev pub max_age_of : RoutingConfig → Gateway → ℤ
max_age_of config g = elim (latency_policy g.runtime.current.policy) [
  | none ↦ in_force config.sample_max_age g.runtime.current.config.sample_max_age
  | some p ↦ pos p.sample_max_age
]

unfoldable pub provider_state : ℕ → ℤ → ℤ → Gateway → List ℕ → ProviderState
unfolding snapshot snapshot_of
provider_state now min_samples max_age g name =
    row_of now min_samples max_age g.pricing name (snapshot name g.health)
      (snapshot_of name g.telemetry)

-- `OperationsSnapshot`.
unfoldable pub operations_snapshot : RoutingConfig → ℕ → Gateway → OperationsSnapshot
operations_snapshot config now g =
    let routing = routing_state config g in
    record {
      observed_at = now;
      routing = routing;
      providers = map (provider_state now routing.min_samples (max_age_of config g) g) g.names;
    }
