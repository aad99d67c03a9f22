-- ===== src/Benchmark/Decode.antt =====
-- internal/benchmark/fixture.go: from a decoded fixture to a scenario.
use route_forge.Base.{ℕ, true, false, not, ◌||◌, Option, none, some, List, [], ◌∷◌, ◌==◌}
use route_forge.Base.Dict.{lookup, text_eq}
use route_forge.Base.Int.{ℤ, pos_part}
use route_forge.Base.Result.{Result, ok, err, ◌>>=◌, ◌>>◌, require}
use route_forge.Base.Text.{same, contains}
use route_forge.Accounting.{Rates}
use route_forge.Accounting.Price.{is_empty, trim_space, parse_usd_per_million}
use route_forge.Routing.Policy.{is_positive}
use route_forge.Benchmark.Scenario.{
  non_streaming, streaming, ProviderSpec, Condition, Measured, Scenario, validate, none_of,
  names_of,
}
use route_forge.Benchmark.Fixture.{
  ProviderFixture, ConditionFixture, RequestFixture, FixtureV1, FixtureError, field_not_positive,
  unsupported_version, fixture_name_required, fixture_mode_wrong, fixture_providers_required,
  percent_is_required, fixture_provider_incomplete, fixture_provider_repeated, price_invalid,
  fixture_lacks_provider, fixture_unknown_provider, is_set, required_duration, to_condition,
  in_fixture,
}

module _ (parse_duration : List ℕ → Option ℤ) where
  rate_of : Option (List ℕ) → Result FixtureError (Option ℕ)
  rate_of none = ok none
  rate_of (some value) = elim (parse_usd_per_million value) [
    | err e ↦ err price_invalid
    | ok price ↦ ok (some price)
  ]

  -- `fixtureRates`.
  unfoldable pub fixture_rates : ProviderFixture → Result FixtureError Rates
  unfolding rate_of
  fixture_rates f = do
    input ← rate_of f.input_price
    output ← rate_of f.output_price
    ok (record { input_rate = input; output_rate = output })

  unfoldable pub to_specs :
      List ProviderFixture → List (List ℕ) → Result FixtureError (List ProviderSpec)
  unfolding fixture_rates
  to_specs [] seen = ok []
  to_specs (f ∷ fs) seen = do
    require (not (is_empty f.name || is_empty f.model)) fixture_provider_incomplete
    require (not (contains f.name seen)) fixture_provider_repeated
    rates ← fixture_rates f
    specs ← to_specs fs (f.name ∷ seen)
    ok (record { name = f.name; model = f.model; rates = rates } ∷ specs)

  found_condition : List ℕ → Option ConditionFixture → Result FixtureError Condition
  unfolding to_condition
  found_condition mode none = err fixture_lacks_provider
  found_condition mode (some f) = to_condition parse_duration mode f

  unfoldable pub to_conditions :
      List ℕ
      → List (List ℕ)
      → List (List ℕ × ConditionFixture)
      → Result FixtureError (List (List ℕ × Condition))
  unfolding found_condition
  to_conditions mode [] fs = ok []
  to_conditions mode (n ∷ names) fs = do
    c ← found_condition mode (lookup n fs)
    rest ← to_conditions mode names fs
    ok ((n, c) ∷ rest)

  known_only : List (List ℕ) → List (List ℕ × ConditionFixture) → Result FixtureError (Unit {0})
  known_only names [] = ok tt
  known_only names ((n, f) ∷ fs) = do
    require (contains n names) fixture_unknown_provider
    known_only names fs

  -- `convertRequests`.
  unfoldable pub convert_requests :
      List ℕ → List (List ℕ) → List RequestFixture → Result FixtureError (List Measured)
  unfolding to_conditions known_only
  convert_requests mode names [] = ok []
  convert_requests mode names (r ∷ rs) = do
    conditions ← to_conditions mode names r.providers
    known_only names r.providers
    rest ← convert_requests mode names rs
    ok (record { id = r.id; conditions = conditions } ∷ rest)

  -- `toScenario`.
  unfoldable pub to_scenario : FixtureV1 → Result FixtureError Scenario
  unfolding required_duration to_specs convert_requests
  to_scenario f = do
    require (not (is_empty (trim_space f.name))) fixture_name_required
    require (same f.mode non_streaming || same f.mode streaming) fixture_mode_wrong
    require (not (none_of f.providers)) fixture_providers_required
    gap ← required_duration parse_duration "inter_request_gap" f.inter_request_gap true
    open_duration ← required_duration parse_duration "circuit.open_duration" f.open_duration false
    max_age ← required_duration parse_duration "routing.sample_max_age" f.sample_max_age false
    require (is_positive f.failure_threshold) (field_not_positive "circuit.failure_threshold")
    require (is_positive f.min_samples) (field_not_positive "routing.min_samples")
    require (is_positive f.exploration_interval) (field_not_positive "routing.exploration_interval")
    require (is_set f.max_latency_percent) percent_is_required
    specs ← to_specs f.providers []
    warmup ← convert_requests f.mode (names_of specs) f.warmup
    requests ← convert_requests f.mode (names_of specs) f.requests
    ok (record {
      version = f.version;
      name = f.name;
      mode = f.mode;
      providers = specs;
      warmup = warmup;
      requests = requests;
      inter_request_gap = gap;
      circuit = record {
        failure_threshold = pos_part f.failure_threshold;
        open_duration = pos_part open_duration;
      };
      routing = record {
        policy = [];
        min_samples = f.min_samples;
        sample_max_age = max_age;
        exploration_interval = f.exploration_interval;
        max_latency_over_fastest_percent = f.max_latency_percent;
      };
    })

  -- `DecodeScenario`, of the decoded fixture.
  unfoldable pub decode_scenario : FixtureV1 → Result FixtureError Scenario
  unfolding to_scenario in_fixture
  decode_scenario f = do
    require (f.version == 1) unsupported_version
    s ← to_scenario f
    in_fixture parse_duration (validate s)
    ok s
