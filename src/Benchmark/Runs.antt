-- ===== src/Benchmark/Runs.antt =====
-- internal/benchmark/fixture.go and runner.go: a fixture that decodes runs under every policy.
use Prim.Native.String.{String}
use mathlib.Core.Path.{subst}
use route_forge.Base.{
  sym, ℕ, ◌≡◌, refl, inl, inr, Bool, true, false, not, ◌||◌, Option, none, some, List, [], arith,
  ◌==◌,
}
use route_forge.Base.Int.{ℤ}
use route_forge.Base.Result.{
  Result, ok, err, require, >>=-eq-ok, >>-eq-ok, require-eq-ok, ok-injective,
}
use route_forge.Base.Text.{codes, same}
use route_forge.Accounting.Price.{is_empty, trim_space}
use route_forge.Routing.Policy.{
  is_positive, RoutingConfig, RoutingPolicy, policy_name, new_routing_policy,
}
use route_forge.Configuration.Checks.{is_none}
use route_forge.Configuration.Settings.{KnownPolicy}
use route_forge.Configuration.Valid.{Positive}
use route_forge.Startup.Policies.{new_routing_policy-ok, new_latency_policy-ok}
use route_forge.Benchmark.Scenario.{
  Scenario, ScenarioError, non_streaming, streaming, none_of, names_of, validate,
}
use route_forge.Benchmark.WellFormed.{IsWellFormed, validate-IsWellFormed}
use route_forge.Benchmark.Fixture.{
  FixtureV1, fixture_name_required, fixture_mode_wrong, fixture_providers_required,
  field_not_positive, percent_is_required, unsupported_version, is_set, required_duration,
  in_fixture,
}
use route_forge.Benchmark.Decode.{to_specs, convert_requests, to_scenario, decode_scenario}

-- What the routing of a scenario has: everything but the policy.
pub record HasSettings (r : RoutingConfig) : Type 0 where
  pub min_samples : Positive r.min_samples
  pub max_age : Positive r.sample_max_age
  pub interval : Positive r.exploration_interval
  pub percent : is_none r.max_latency_over_fastest_percent ≡ false

-- The policy that the runner sets.
abbrev pub with_policy : List ℕ → RoutingConfig → RoutingConfig
with_policy name r = record r { policy = name }

abbrev pub Builds : RoutingConfig → List ℕ → Type 0
Builds r name = (p : RoutingPolicy × Bool) × (new_routing_policy (with_policy name r) ≡ ok p)

-- `SupportedPolicies`.
abbrev pub BuildsAll : RoutingConfig → Type 0
BuildsAll r =
    Builds r (codes "deterministic")
    × Builds r (codes "latency")
    × Builds r (codes "cost")
    × Builds r (codes "cost_latency")

builds :
    (r : RoutingConfig) (name : List ℕ)
    → HasSettings r
    → KnownPolicy name r.max_latency_over_fastest_percent
    → Builds r name
builds r name s known =
    new_routing_policy-ok (with_policy name r) known
      (new_latency_policy-ok (with_policy name r) s.min_samples s.max_age s.interval)

settings-BuildsAll : (r : RoutingConfig) → HasSettings r → BuildsAll r
unfolding policy_name
settings-BuildsAll r s = (
  builds r (codes "deterministic") s (inl refl),
  builds r (codes "latency") s (inr (inl refl)),
  builds r (codes "cost") s (inr (inr (inl refl))),
  builds r (codes "cost_latency") s (inr (inr (inr (refl, s.percent)))),
)

is_set-not-none : (o : Option ℕ) → is_set o ≡ true → is_none o ≡ false
is_set-not-none none e = sym e
is_set-not-none (some n) e = refl

module _ (parse_duration : List ℕ → Option ℤ) where
  required_duration-Positive :
      (field : String) (value : Option (List ℕ)) {d : ℤ}
      → required_duration parse_duration field value false ≡ ok d
      → Positive d
  unfolding required_duration
  required_duration-Positive field none e = cc
  required_duration-Positive field (some value) e = ground arith

  to_scenario-HasSettings :
      (f : FixtureV1) {s : Scenario} → to_scenario parse_duration f ≡ ok s → HasSettings s.routing
  unfolding to_scenario
  to_scenario-HasSettings f e =
      let (a1, e1) =
        >>-eq-ok (require (not (is_empty (trim_space f.name))) fixture_name_required) _ e in
      let (a2, e2) =
        >>-eq-ok (require (same f.mode non_streaming || same f.mode streaming) fixture_mode_wrong) _
          e1 in
      let (a3, e3) =
        >>-eq-ok (require (not (none_of f.providers)) fixture_providers_required) _ e2 in
      let (gap, a4, e4) =
        >>=-eq-ok (required_duration parse_duration "inter_request_gap" f.inter_request_gap true) _
          e3 in
      let (open_duration, a5, e5) =
        >>=-eq-ok (required_duration parse_duration "circuit.open_duration" f.open_duration false) _
          e4 in
      let (max_age, a6, e6) =
        >>=-eq-ok (required_duration parse_duration "routing.sample_max_age" f.sample_max_age false)
          _ e5 in
      let (a7, e7) =
        >>-eq-ok
          (require (is_positive f.failure_threshold)
            (field_not_positive "circuit.failure_threshold"))
          _ e6 in
      let (a8, e8) =
        >>-eq-ok (require (is_positive f.min_samples) (field_not_positive "routing.min_samples")) _
          e7 in
      let (a9, e9) =
        >>-eq-ok
          (require (is_positive f.exploration_interval)
            (field_not_positive "routing.exploration_interval"))
          _ e8 in
      let (a10, e10) = >>-eq-ok (require (is_set f.max_latency_percent) percent_is_required) _ e9 in
      let (specs, a11, e11) = >>=-eq-ok (to_specs parse_duration f.providers []) _ e10 in
      let (warmup, a12, e12) =
        >>=-eq-ok (convert_requests parse_duration f.mode (names_of specs) f.warmup) _ e11 in
      let (requests, a13, e13) =
        >>=-eq-ok (convert_requests parse_duration f.mode (names_of specs) f.requests) _ e12 in
      let samples : Positive f.min_samples =
        ground (arith, require-eq-ok (is_positive f.min_samples) _ a8) in
      let interval : Positive f.exploration_interval =
        ground (arith, require-eq-ok (is_positive f.exploration_interval) _ a9) in
      subst (λ s. HasSettings s.routing) (ok-injective e13)
        (record {
          min_samples = samples;
          max_age = required_duration-Positive "routing.sample_max_age" f.sample_max_age a6;
          interval = interval;
          percent = is_set-not-none f.max_latency_percent (require-eq-ok _ _ a10);
        })

  in_fixture-ok :
      (r : Result ScenarioError (Unit {0})) → in_fixture parse_duration r ≡ ok tt → r ≡ ok tt
  unfolding in_fixture
  in_fixture-ok (ok tt) e = refl
  in_fixture-ok (err x) e = cc

  -- A fixture that is decoded is a well-formed scenario, and the gateway has its policy for it under each
  -- of the policies that the comparison supports.
  pub decode_scenario-Runs :
      (f : FixtureV1) {s : Scenario}
      → decode_scenario parse_duration f ≡ ok s
      → IsWellFormed s × BuildsAll s.routing
  unfolding decode_scenario
  decode_scenario-Runs f e =
      let (version, e1) = >>-eq-ok (require (f.version == 1) unsupported_version) _ e in
      let (made, e2, e3) = >>=-eq-ok (to_scenario parse_duration f) _ e1 in
      let (valid, e4) = >>-eq-ok (in_fixture parse_duration (validate made)) _ e3 in
      subst (λ s. IsWellFormed s × BuildsAll s.routing) (ok-injective e4)
        (
          validate-IsWellFormed made (in_fixture-ok (validate made) valid),
          settings-BuildsAll made.routing (to_scenario-HasSettings f e2),
        )
