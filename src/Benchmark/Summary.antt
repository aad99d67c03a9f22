-- ===== src/Benchmark/Summary.antt =====
-- internal/benchmark/metrics.go: percentiles and totals at the end of a run. The rates, which are
-- floating-point quotients of the counters, are left out.
use route_forge.Base.{
  ℕ, ◌+◌, ◌-◌, ◌*◌, ◌/◌, ◌%◌, ◌^◌, Option, none, some, List, [], ◌∷◌, length, get_or, leb,
  if◌then◌else◌,
}
use route_forge.Base.Dict.{text_eq}
use route_forge.Base.Int.{ℤ, pos, ltb_ℤ}
use route_forge.Base.Sort.{sort}
use route_forge.Accounting.{Key, key_eq}
use route_forge.Accounting.Tracker.{ModelAggregate}
use route_forge.Routing.Latency.{quot}
use route_forge.Benchmark.Metrics.{Accumulator, add_u64}

-- `percentileMilliseconds`. A rank beyond the values, where Go panics, reads as 0; a percentile from 1
-- to 100 has none.
unfoldable pub percentile_milliseconds : List ℤ → ℕ → Option ℤ
percentile_milliseconds [] percentile = none
percentile_milliseconds (v ∷ vs) percentile =
    let ordered = sort ltb_ℤ (v ∷ vs) in
    let rank = (percentile * length ordered + 99) / 100 in
    some (quot (get_or ordered (rank - 1) (pos 0)) 1000000)

pub record AccountingTotal : Type 0 where
  pub total_input : ℕ
  pub total_output : ℕ
  pub cost : ℕ

-- `totalAccounting`.
unfoldable pub total_accounting : List (Key × ModelAggregate) → AccountingTotal → AccountingTotal
unfolding add_u64
total_accounting [] t = t
total_accounting ((k, a) ∷ models) t = total_accounting models (record {
  total_input = add_u64 t.total_input a.input_tokens;
  total_output = add_u64 t.total_output a.output_tokens;
  cost = add_u64 t.cost a.estimated_cost_micro_usd;
})

-- `roundedQuotient` for a denominator below 2^64 - 1, whose successor does not wrap around.
unfoldable pub rounded_quotient : ℕ → ℕ → ℕ
rounded_quotient numerator denominator =
    if leb ((denominator + 1) / 2) (numerator % denominator)
    then numerator / denominator + 1
    else numerator / denominator

-- The percentiles and the totals that `finish` adds.
pub record Summary : Type 0 where
  pub p50_latency : Option ℤ
  pub p95_latency : Option ℤ
  pub p50_ttfc : Option ℤ
  pub p95_ttfc : Option ℤ
  pub p50_stream_duration : Option ℤ
  pub p95_stream_duration : Option ℤ
  pub total_input_tokens : ℕ
  pub total_output_tokens : ℕ
  pub estimated_cost : ℕ
  pub cost_per_success : Option ℕ

-- `-` on a uint64.
abbrev pub sub_u64 : ℕ → ℕ → ℕ
sub_u64 a b = (a + 2 ^ 64 - b) % 2 ^ 64

unfoldable pub finish : AccountingTotal → AccountingTotal → Accumulator → Summary
unfolding percentile_milliseconds rounded_quotient
finish before after m =
    let cost = sub_u64 after.cost before.cost in
    record {
      p50_latency = percentile_milliseconds m.latencies 50;
      p95_latency = percentile_milliseconds m.latencies 95;
      p50_ttfc = percentile_milliseconds m.ttfcs 50;
      p95_ttfc = percentile_milliseconds m.ttfcs 95;
      p50_stream_duration = percentile_milliseconds m.stream_durations 50;
      p95_stream_duration = percentile_milliseconds m.stream_durations 95;
      total_input_tokens = sub_u64 after.total_input before.total_input;
      total_output_tokens = sub_u64 after.total_output before.total_output;
      estimated_cost = cost;
      cost_per_success =
          if leb 1 m.successful_requests
          then some (rounded_quotient cost m.successful_requests)
          else none;
    }
