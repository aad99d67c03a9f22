-- ===== src/Benchmark/Metrics.antt =====
-- internal/benchmark/metrics.go and runner.go: what the comparison counts.
use route_forge.Base.{
  ℕ, ◌+◌, ◌%◌, ◌^◌, Bool, not, ◌&&◌, Option, none, some, List, [], ◌∷◌, ◌++◌, length, if◌then◌else◌,
}
use route_forge.Base.Dict.{lookup, insert, text_eq}
use route_forge.Base.Int.{ℤ}
use route_forge.Base.Text.{same}
use route_forge.Accounting.{key_eq, PriceBook, Rates, Usage, estimate_micro_usd}
use route_forge.Accounting.Price.{is_empty}

abbrev pub Counters : Type 0
Counters = List (List ℕ × ℕ)

-- `attemptRecord`, with the usage of its condition.
pub record AttemptRecord : Type 0 where
  pub provider : List ℕ
  pub model : List ℕ
  pub usage : Option Usage

-- `metricAccumulator` with the counters of its `Result`.
pub record Accumulator : Type 0 where
  pub requests : ℕ
  pub successful_requests : ℕ
  pub failed_requests : ℕ
  pub fallback_requests : ℕ
  pub circuit_skips : ℕ
  pub post_commit_failures : ℕ
  pub fallback_input_tokens : ℕ
  pub fallback_output_tokens : ℕ
  pub fallback_cost : ℕ
  pub fallback_without_cost : ℕ
  pub initial_selections : Counters
  pub provider_attempts : Counters
  pub fallback_attempts : Counters
  pub exploration_selections : ℕ
  pub selection_switches : ℕ
  pub latencies : List ℤ
  pub ttfcs : List ℤ
  pub stream_durations : List ℤ
  pub attempts : ℕ
  pub last_selection : List ℕ

-- `newMetricAccumulator`.
abbrev pub new_metric_accumulator : Accumulator
new_metric_accumulator = record {
  requests = 0;
  successful_requests = 0;
  failed_requests = 0;
  fallback_requests = 0;
  circuit_skips = 0;
  post_commit_failures = 0;
  fallback_input_tokens = 0;
  fallback_output_tokens = 0;
  fallback_cost = 0;
  fallback_without_cost = 0;
  initial_selections = [];
  provider_attempts = [];
  fallback_attempts = [];
  exploration_selections = 0;
  selection_switches = 0;
  latencies = [];
  ttfcs = [];
  stream_durations = [];
  attempts = 0;
  last_selection = [];
}

-- `+=` on a uint64.
unfoldable pub add_u64 : ℕ → ℕ → ℕ
add_u64 a b = (a + b) % 2 ^ 64

abbrev pub count_of : Option ℕ → ℕ
count_of none = 0
count_of (some n) = n

-- `counters[name]++`.
unfoldable pub increment : List ℕ → Counters → Counters
unfolding add_u64
increment name counters = insert name (add_u64 (count_of (lookup name counters)) 1) counters

abbrev pub input_of : Option Usage → ℕ
input_of none = 0
input_of (some u) = count_of u.input_tokens

abbrev pub output_of : Option Usage → ℕ
output_of none = 0
output_of (some u) = count_of u.output_tokens

abbrev rates_or_none : Option Rates → Rates
rates_or_none none = record { input_rate = none; output_rate = none }
rates_or_none (some rates) = rates

unfoldable pub add_cost : Option ℕ → Accumulator → Accumulator
unfolding add_u64
add_cost none m = record m { fallback_without_cost = add_u64 m.fallback_without_cost 1 }
add_cost (some cost) m = record m { fallback_cost = add_u64 m.fallback_cost cost }

-- `addFallbackEconomics`.
unfoldable pub add_fallback_economics : PriceBook → AttemptRecord → Accumulator → Accumulator
unfolding add_u64 add_cost
add_fallback_economics prices r m =
    add_cost
      (estimate_micro_usd r.usage
        (rates_or_none (lookup (record { provider = r.provider; model = r.model }) prices)))
      (record m {
        fallback_input_tokens = add_u64 m.fallback_input_tokens (input_of r.usage);
        fallback_output_tokens = add_u64 m.fallback_output_tokens (output_of r.usage);
      })

-- The first attempt of a request, with the provider that was due for exploration, `""` for none.
unfoldable pub count_first : List ℕ → AttemptRecord → Accumulator → Accumulator
unfolding increment add_u64
count_first target r m =
    let switched = not (is_empty m.last_selection) && not (same m.last_selection r.provider) in
    let explored = not (is_empty target) && same r.provider target in
    record m {
      provider_attempts = increment r.provider m.provider_attempts;
      initial_selections = increment r.provider m.initial_selections;
      selection_switches =
          if switched then add_u64 m.selection_switches 1 else m.selection_switches;
      last_selection = r.provider;
      exploration_selections =
          if explored then add_u64 m.exploration_selections 1 else m.exploration_selections;
    }

-- A later attempt.
unfoldable pub count_fallback : PriceBook → AttemptRecord → Accumulator → Accumulator
unfolding increment add_fallback_economics
count_fallback prices r m = add_fallback_economics prices r (record m {
  provider_attempts = increment r.provider m.provider_attempts;
  fallback_attempts = increment r.provider m.fallback_attempts;
})

unfoldable pub count_fallbacks : PriceBook → List AttemptRecord → Accumulator → Accumulator
unfolding count_fallback
count_fallbacks prices [] m = m
count_fallbacks prices (r ∷ rs) m = count_fallbacks prices rs (count_fallback prices r m)

unfoldable pub count_attempts : PriceBook → List ℕ → List AttemptRecord → Accumulator → Accumulator
unfolding count_first count_fallbacks add_u64
count_attempts prices target [] m = m
count_attempts prices target (r ∷ []) m = count_first target r m
count_attempts prices target (r ∷ s ∷ rs) m =
    let counted = count_fallbacks prices (s ∷ rs) (count_first target r m) in
    record counted { fallback_requests = add_u64 counted.fallback_requests 1 }

-- What the execution of one measured request gave. The times stand for durations since its start.
pub record Execution : Type 0 where
  pub streaming : Bool
  pub success : Bool
  pub elapsed : ℤ
  pub first_content : Option ℤ
  pub circuit_skips : ℕ
  pub exploration_target : List ℕ
  pub records : List AttemptRecord

unfoldable pub add_ttfc : Bool → Option ℤ → Accumulator → Accumulator
unfolding add_u64
add_ttfc success none m = m
add_ttfc success (some ttfc) m = record m {
  ttfcs = m.ttfcs ++ (ttfc ∷ []);
  post_commit_failures =
      if success then m.post_commit_failures else add_u64 m.post_commit_failures 1;
}

-- The latencies of a request.
unfoldable pub add_times : Execution → Accumulator → Accumulator
unfolding add_ttfc
add_times x m =
    if x.streaming
    then add_ttfc x.success x.first_content
        (record m { stream_durations = m.stream_durations ++ (x.elapsed ∷ []) })
    else record m { latencies = m.latencies ++ (x.elapsed ∷ []) }

unfoldable pub count_request : Execution → Accumulator → Accumulator
unfolding add_u64
count_request x m = record m {
  requests = add_u64 m.requests 1;
  circuit_skips = add_u64 m.circuit_skips x.circuit_skips;
  attempts = add_u64 m.attempts (length x.records);
  successful_requests =
      if x.success then add_u64 m.successful_requests 1 else m.successful_requests;
  failed_requests = if x.success then m.failed_requests else add_u64 m.failed_requests 1;
}

-- The body of the loop of `runPolicy` over the measured requests, behind the execution.
unfoldable pub measure : PriceBook → Execution → Accumulator → Accumulator
unfolding count_request add_times count_attempts
measure prices x m =
    count_attempts prices x.exploration_target x.records (add_times x (count_request x m))

unfoldable pub measure_all : PriceBook → List Execution → Accumulator → Accumulator
unfolding measure
measure_all prices [] m = m
measure_all prices (x ∷ xs) m = measure_all prices xs (measure prices x m)
