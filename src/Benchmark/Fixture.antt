-- ===== src/Benchmark/Fixture.antt =====
-- internal/benchmark/fixture.go: the decoded fixture, and its conditions. `time.ParseDuration` is a
-- parameter; the decoder of JSON, the size limit of the file and the labels of errors are left out.
use Prim.Native.String.{String}
use route_forge.Base.{
  ℕ, ◌+◌, ◌-◌, Bool, true, false, not, ◌&&◌, ◌||◌, Option, none, some, List, ltb, if◌then◌else◌,
}
use route_forge.Base.Dict.{text_eq}
use route_forge.Base.Int.{ℤ, pos, ltb_ℤ}
use route_forge.Base.Result.{Result, ok, err, ◌>>=◌, ◌>>◌, require}
use route_forge.Base.Text.{codes, same}
use route_forge.Accounting.{Usage, max_uint64}
use route_forge.Accounting.Price.{is_empty, trim_space}
use route_forge.Outcome.{
  ErrorKind, error_invalid_request, error_unavailable, error_timeout, error_rate_limited,
  error_internal,
}
use route_forge.Routing.Policy.{is_positive}
use route_forge.Benchmark.Scenario.{
  non_streaming, before_commit, Condition, ScenarioError, validate_condition,
}

-- A field that is a pointer is an option.
pub record ProviderFixture : Type 0 where
  pub name : List ℕ
  pub model : List ℕ
  pub input_price : Option (List ℕ)
  pub output_price : Option (List ℕ)

pub record ConditionFixture : Type 0 where
  pub outcome : List ℕ
  pub completion_latency : Option (List ℕ)
  pub ttfc : Option (List ℕ)
  pub stream_duration : Option (List ℕ)
  pub stream_failure : List ℕ
  pub input_tokens : Option ℕ
  pub output_tokens : Option ℕ

pub record RequestFixture : Type 0 where
  pub id : List ℕ
  pub providers : List (List ℕ × ConditionFixture)

pub record FixtureV1 : Type 0 where
  pub version : ℕ
  pub name : List ℕ
  pub mode : List ℕ
  pub providers : List ProviderFixture
  pub warmup : List RequestFixture
  pub requests : List RequestFixture
  pub inter_request_gap : Option (List ℕ)
  pub failure_threshold : ℤ
  pub open_duration : Option (List ℕ)
  pub min_samples : ℤ
  pub sample_max_age : Option (List ℕ)
  pub exploration_interval : ℤ
  pub max_latency_percent : Option ℕ

pub data FixtureError : Type 0 where
  invalid_scenario : ScenarioError → FixtureError
  field_required field_not_duration field_not_positive : String → FixtureError
  unsupported_version fixture_name_required fixture_mode_wrong : FixtureError
  fixture_providers_required percent_is_required : FixtureError
  fixture_provider_incomplete fixture_provider_repeated price_invalid : FixtureError
  fixture_lacks_provider fixture_unknown_provider unknown_outcome : FixtureError
  streaming_fields latency_in_stream ttfc_before_commit tokens_out_of_range : FixtureError

abbrev pub is_set {ℓ} : {A : Type ℓ} → Option A → Bool
is_set none = false
is_set (some a) = true

module _ (parse_duration : List ℕ → Option ℤ) where
  duration_of : String → Bool → Option ℤ → Result FixtureError ℤ
  duration_of field allow_zero none = err (field_not_duration field)
  duration_of field allow_zero (some d) =
      if ltb_ℤ d (pos 0) || (not allow_zero && not (is_positive d))
      then err (field_not_duration field)
      else ok d

  -- `requiredDuration`.
  unfoldable pub required_duration : String → Option (List ℕ) → Bool → Result FixtureError ℤ
  unfolding duration_of
  required_duration field none allow_zero = err (field_required field)
  required_duration field (some value) allow_zero =
      if is_empty (trim_space value)
      then err (field_required field)
      else duration_of field allow_zero (parse_duration value)

  -- What an outcome says: whether the attempt is canceled, and the kind of its error.
  unfoldable pub outcome_of : List ℕ → Result FixtureError (Bool × Option ErrorKind)
  outcome_of outcome =
      if same outcome (codes "success")
      then ok (false, none)
      else if same outcome (codes "cancellation")
      then ok (true, none)
      else if same outcome (codes "timeout")
      then ok (false, some error_timeout)
      else if same outcome (codes "unavailable")
      then ok (false, some error_unavailable)
      else if same outcome (codes "rate_limited")
      then ok (false, some error_rate_limited)
      else if same outcome (codes "invalid_request")
      then ok (false, some error_invalid_request)
      else if same outcome (codes "internal")
      then ok (false, some error_internal)
      else err unknown_outcome

  -- The completion latency, the time to the first content and the duration of the stream.
  latency_times : ConditionFixture → Result FixtureError (ℤ × ℤ × ℤ)
  unfolding required_duration
  latency_times f = do
    require (not (is_set f.ttfc) && (not (is_set f.stream_duration) && is_empty f.stream_failure))
        streaming_fields
    latency ← required_duration "completion_latency" f.completion_latency true
    ok (latency, pos 0, pos 0)

  ttfc_of : ConditionFixture → Result FixtureError ℤ
  unfolding required_duration
  ttfc_of f =
      if same f.stream_failure before_commit
      then if is_set f.ttfc then err ttfc_before_commit else ok (pos 0)
      else required_duration "ttfc" f.ttfc true

  stream_times : ConditionFixture → Result FixtureError (ℤ × ℤ × ℤ)
  unfolding required_duration ttfc_of
  stream_times f = do
    require (not (is_set f.completion_latency)) latency_in_stream
    duration ← required_duration "stream_duration" f.stream_duration true
    ttfc ← ttfc_of f
    ok (pos 0, ttfc, duration)

  unfoldable pub times_of : List ℕ → ConditionFixture → Result FixtureError (ℤ × ℤ × ℤ)
  unfolding latency_times stream_times
  times_of mode f = if same mode non_streaming then latency_times f else stream_times f

  unfoldable pub usage_of : Option ℕ → Option ℕ → Result FixtureError (Option Usage)
  usage_of none none = ok none
  usage_of (some i) none =
      ok (some (record { input_tokens = some i; output_tokens = none; total_tokens = none }))
  usage_of none (some o) =
      ok (some (record { input_tokens = none; output_tokens = some o; total_tokens = none }))
  usage_of (some i) (some o) =
      if ltb (max_uint64 - o) i
      then err tokens_out_of_range
      else ok (
          some
            (record { input_tokens = some i; output_tokens = some o; total_tokens = some (i + o) }))

  unfoldable pub in_fixture : {A : Type 0} → Result ScenarioError A → Result FixtureError A
  in_fixture (err e) = err (invalid_scenario e)
  in_fixture (ok a) = ok a

  -- `toCondition`.
  unfoldable pub to_condition : List ℕ → ConditionFixture → Result FixtureError Condition
  unfolding outcome_of times_of usage_of in_fixture
  to_condition mode f = do
    outcome ← outcome_of f.outcome
    times ← times_of mode f
    usage ← usage_of f.input_tokens f.output_tokens
    let c : Condition = record {
      completion_latency = times.0;
      ttfc = times.1;
      stream_duration = times.2;
      error_kind = outcome.1;
      canceled = outcome.0;
      stream_failure = f.stream_failure;
      usage = usage;
    }
    in_fixture (validate_condition mode c)
    ok c
