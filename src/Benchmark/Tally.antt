-- ===== src/Benchmark/Tally.antt =====
-- internal/benchmark/runner.go: the counters of a comparison add up.
use route_forge.Base.{
  ℕ, suc, ◌+◌, ◌%◌, ◌^◌, ◌≡◌, List, [], ◌∷◌, length, length-append, arith, inl, inr, Option-cases,
}
use route_forge.Base.Dict.{lookup, text_eq, total, total-insert-some, total-insert-none}
use route_forge.Accounting.{PriceBook}
use route_forge.Benchmark.Metrics.{
  Counters, AttemptRecord, Accumulator, add_u64, increment, count_first, count_fallback,
  count_fallbacks, count_attempts, Execution, add_times, count_request, measure, measure_all,
  add_fallback_economics, add_cost, add_ttfc, new_metric_accumulator,
}

abbrev pub sum : Counters → ℕ
sum counters = total (λ n. n) counters

sum-increment :
    (name : List ℕ) (c : Counters) → sum (increment name c) % 2 ^ 64 ≡ (sum c + 1) % 2 ^ 64
unfolding increment add_u64
sum-increment name c = elim (Option-cases (lookup name c)) [
  | inl e ↦ ground (arith, total-insert-none (λ n. n) name 1 c e)
  | inr (n, e) ↦ ground (arith, total-insert-some (λ n. n) name ((n + 1) % 2 ^ 64) n c e)
]

-- Modulo 2^64: each request succeeded or failed and has one latency, and the attempts but the last
-- `waiting` are those of each provider, and the first ones of each request with the fallbacks.
pub record Tallied (waiting : ℕ) (m : Accumulator) : Type 0 where
  pub outcomes : (m.successful_requests + m.failed_requests) % 2 ^ 64 ≡ m.requests % 2 ^ 64
  pub times : (length m.latencies + length m.stream_durations) % 2 ^ 64 ≡ m.requests % 2 ^ 64
  pub by_provider : (sum m.provider_attempts + waiting) % 2 ^ 64 ≡ m.attempts % 2 ^ 64
  pub by_turn :
      (sum m.initial_selections + sum m.fallback_attempts + waiting) % 2 ^ 64 ≡ m.attempts % 2 ^ 64

count_request-Tallied :
    (x : Execution) (m : Accumulator)
    → Tallied 0 m
    → Tallied (length x.records) (add_times x (count_request x m))
unfolding count_request add_times add_ttfc add_u64
count_request-Tallied x m t = ground (
  arith,
  length-append m.latencies (x.elapsed ∷ []),
  length-append m.stream_durations (x.elapsed ∷ []),
)

count_first-Tallied :
    (n : ℕ) (target : List ℕ) (r : AttemptRecord) (m : Accumulator)
    → Tallied (suc n) m
    → Tallied n (count_first target r m)
unfolding count_first
count_first-Tallied n target r m t = ground (
  arith,
  sum-increment r.provider m.provider_attempts,
  sum-increment r.provider m.initial_selections,
)

count_fallback-Tallied :
    (n : ℕ) (prices : PriceBook) (r : AttemptRecord) (m : Accumulator)
    → Tallied (suc n) m
    → Tallied n (count_fallback prices r m)
unfolding count_fallback add_fallback_economics
count_fallback-Tallied n prices r m t = ground (
  arith,
  add_cost,
  sum-increment r.provider m.provider_attempts,
  sum-increment r.provider m.fallback_attempts,
)

count_fallbacks-Tallied :
    (prices : PriceBook) (rs : List AttemptRecord) (m : Accumulator)
    → Tallied (length rs) m
    → Tallied 0 (count_fallbacks prices rs m)
unfolding count_fallbacks
count_fallbacks-Tallied prices [] m t = t
count_fallbacks-Tallied prices (r ∷ rs) m t =
    count_fallbacks-Tallied prices rs (count_fallback prices r m)
      (count_fallback-Tallied (length rs) prices r m t)

count_attempts-Tallied :
    (prices : PriceBook) (target : List ℕ) (rs : List AttemptRecord) (m : Accumulator)
    → Tallied (length rs) m
    → Tallied 0 (count_attempts prices target rs m)
unfolding count_attempts
count_attempts-Tallied prices target [] m t = t
count_attempts-Tallied prices target (r ∷ []) m t = count_first-Tallied 0 target r m t
count_attempts-Tallied prices target (r ∷ s ∷ rs) m t =
    let first = count_first-Tallied (suc (length rs)) target r m t in
    let all = count_fallbacks-Tallied prices (s ∷ rs) (count_first target r m) first in
    record {
      outcomes = all.outcomes;
      times = all.times;
      by_provider = all.by_provider;
      by_turn = all.by_turn;
    }

measure_all_keeps :
    (prices : PriceBook) (xs : List Execution) (m : Accumulator)
    → Tallied 0 m
    → Tallied 0 (measure_all prices xs m)
unfolding measure_all measure
measure_all_keeps prices [] m t = t
measure_all_keeps prices (x ∷ xs) m t = measure_all_keeps prices xs (measure prices x m) (
    count_attempts-Tallied prices x.exploration_target x.records (add_times x (count_request x m))
      (count_request-Tallied x m t))

-- After any measured requests the counters of a comparison add up modulo 2^64: each request succeeded
-- or failed and left one latency, and the attempts are those counted for the providers, and the first
-- ones together with the fallbacks.
pub measure_all-Tallied :
    (prices : PriceBook) (xs : List Execution)
    → Tallied 0 (measure_all prices xs new_metric_accumulator)
measure_all-Tallied prices xs = measure_all_keeps prices xs new_metric_accumulator (ground arith)
