-- ===== src/Routing/Latency.antt =====
-- internal/gateway/routing.go: medians, exploration and the policies that read latencies. Durations are
-- integers; the int64 range, 292 years of nanoseconds, is not cut off.
use route_forge.Base.{
  ℕ, suc, ◌+◌, ◌-◌, ◌*◌, ◌/◌, ◌%◌, ◌^◌, Bool, true, false, not, ◌&&◌, ◌||◌, Option, none, some,
  List, [], ◌∷◌, ◌++◌, map, length, get_or, ltb, leb, ◌==◌, if◌then◌else◌,
}
use route_forge.Base.Int.{ℤ, pos, negsuc, ◌+ℤ◌, ◌-ℤ◌, ltb_ℤ, pos_part}
use route_forge.Base.Sort.{sort}
use route_forge.Telemetry.{LatencySample}
use route_forge.Routing.{move_to_front}

-- `x / 2` and `x / 10` of Go, which round towards zero.
abbrev pub quot : ℤ → ℕ → ℤ
quot (pos n) d = pos (n / d)
quot (negsuc n) d = pos 0 -ℤ pos (suc n / d)

-- `medianDuration`. It is only called with samples; an empty list, where Go panics, reads as 0.
unfoldable pub median_of : List ℤ → ℤ
median_of values =
    let middle = length values / 2 in
    let lower = get_or values (middle - 1) (pos 0) in
    let upper = get_or values middle (pos 0) in
    if length values % 2 == 0 then lower +ℤ quot (upper -ℤ lower) 2 else upper

unfoldable pub median_duration : List ℤ → ℤ
unfolding median_of
median_duration samples = median_of (sort ltb_ℤ samples)

-- `recentLatencySamples`: no sample is older than the cutoff `now - maxAge`. A cutoff before Go's zero
-- time keeps all samples, as the subtraction that stops at zero does.
unfoldable pub recent_latency_samples : ℕ → ℕ → List LatencySample → List LatencySample
recent_latency_samples now max_age [] = []
recent_latency_samples now max_age (s ∷ samples) =
    let rest = recent_latency_samples now max_age samples in
    if ltb s.observed_at (now - max_age) then rest else s ∷ rest

pub data RequestMode : Type 0 where
  non_streaming_mode streaming_mode : RequestMode

-- `explorationState`: one count for each mode.
pub record ExplorationCounts : Type 0 where
  pub non_streaming : ℕ
  pub streaming : ℕ

-- `latencyRoutingPolicy`, whose settings `newLatencyRoutingPolicy` has found to be positive.
pub record LatencyPolicy : Type 0 where
  pub min_samples : ℕ
  pub sample_max_age : ℕ
  pub exploration_interval : ℕ

-- `explorationDue`, on the count of the request's mode.
unfoldable pub count_due : ℕ → ℕ → ℕ × Bool
count_due interval count = if ltb (count + 1) interval then (count + 1, false) else (0, true)

unfoldable pub exploration_due :
    LatencyPolicy → RequestMode → ExplorationCounts → ExplorationCounts × Bool
unfolding count_due
exploration_due p non_streaming_mode c =
    let (n, due) = count_due p.exploration_interval c.non_streaming in
    (record c { non_streaming = n }, due)
exploration_due p streaming_mode c =
    let (n, due) = count_due p.exploration_interval c.streaming in (record c { streaming = n }, due)

-- The best exploration candidate so far: its deficit of samples and its index.
pub record Exploration : Type 0 where
  pub largest_deficit : ℕ
  pub candidate : Option ℕ

-- The test of one candidate with too few samples.
unfoldable pub explore : ℕ → ℕ → Exploration → Exploration
explore deficit i e =
    if ltb e.largest_deficit deficit
    then record { largest_deficit = deficit; candidate = some i }
    else e

module _ {A : Type 0} (samples : A → List LatencySample) (p : LatencyPolicy) (now : ℕ) where
  -- The fresh samples of a candidate for the mode of the request.
  unfoldable pub fresh : A → List LatencySample
  fresh a = recent_latency_samples now p.sample_max_age (samples a)

  unfoldable pub median : A → ℤ
  unfolding fresh median_duration
  median a =
      if ltb (length (fresh a)) p.min_samples
      then pos 0
      else median_duration (map (λ s. s.duration) (fresh a))

  unfoldable pub explore_from : ℕ → List A → Exploration → Exploration
  unfolding fresh explore
  explore_from i [] e = e
  explore_from i (a ∷ candidates) e = explore_from (i + 1) candidates (
      if ltb (length (fresh a)) p.min_samples
      then explore (p.min_samples - length (fresh a)) i e
      else e)

  -- `candidateMedians`.
  unfoldable pub candidate_medians : List A → List ℤ × Option ℕ
  unfolding median explore_from
  candidate_medians candidates = (
    map median candidates,
    (explore_from 0 candidates (record { largest_deficit = 0; candidate = none })).candidate,
  )

  -- The exploration branch that both policies share.
  unfoldable pub explore_order :
      RequestMode → ℕ → List A → ExplorationCounts → List A × ExplorationCounts
  unfolding exploration_due
  explore_order mode i ordered c =
      let (c', due) = exploration_due p mode c in
      (if due then move_to_front i ordered else ordered, c')

-- `for i := 1; i < len(medians); i++`: the index and the median of the best so far.
unfoldable pub best_from : ℕ → List ℤ → ℕ → ℤ → ℕ × ℤ
best_from i [] best value = (best, value)
best_from i (m ∷ medians) best value =
    best_from (i + 1) medians (if ltb_ℤ m value then i else best)
      (if ltb_ℤ m value then m else value)

-- The best candidate moves to the front if it is not there and is faster by the switching margin.
unfoldable pub latency_order : {A : Type 0} → List ℤ → List A → List A
unfolding best_from
latency_order [] ordered = ordered
latency_order (m ∷ medians) ordered =
    let (best, value) = best_from 1 medians 0 m in
    if (best == 0) || ltb_ℤ (m -ℤ quot m 10) value then ordered else move_to_front best ordered

module _ {A : Type 0} (samples : A → List LatencySample) (p : LatencyPolicy) (now : ℕ) where
  -- `order` of `latencyRoutingPolicy`.
  unfoldable pub order_by_latency :
      RequestMode → List A → ExplorationCounts → List A × ExplorationCounts
  unfolding candidate_medians explore_order latency_order
  order_by_latency mode ordered c =
      let (medians, exploration) = candidate_medians samples p now ordered in
      if ltb (length ordered) 2 then (ordered, c) else elim exploration [
        | some i ↦ explore_order samples p now mode i ordered c
        | none ↦ (latency_order medians ordered, c)
      ]

-- `bits.Mul64`: the high and the low word of a product.
abbrev pub mul64 : ℕ → ℕ → ℕ × ℕ
mul64 a b = (a * b / 2 ^ 64, a * b % 2 ^ 64)

-- The comparison of two products by their words.
unfoldable pub le_words : ℕ × ℕ → ℕ × ℕ → Bool
le_words (high, low) (high', low') = ltb high high' || ((high == high') && leb low low')

-- `withinLatencyTolerance`. A difference of durations is converted to a uint64.
unfoldable pub within_latency_tolerance : ℤ → ℤ → ℕ → Bool
unfolding le_words
within_latency_tolerance candidate fastest percent =
    if not (ltb_ℤ fastest candidate)
    then true
    else if not (ltb_ℤ (pos 0) fastest)
    then false
    else le_words (mul64 (pos_part (candidate -ℤ fastest) % 2 ^ 64) 100)
        (mul64 (pos_part fastest % 2 ^ 64) percent)

unfoldable pub fastest_of : List ℤ → ℤ → ℤ
fastest_of [] fastest = fastest
fastest_of (m ∷ medians) fastest = fastest_of medians (if ltb_ℤ m fastest then m else fastest)

-- The loop that splits the candidates into those within the tolerance and those outside.
unfoldable pub split_by : {A : Type 0} → (ℤ → Bool) → List ℤ → List A → List A × List A
split_by ok [] ordered = ([], [])
split_by ok (m ∷ medians) [] = ([], [])
split_by ok (m ∷ medians) (a ∷ ordered) =
    let (acceptable, outside) = split_by ok medians ordered in
    if ok m then (a ∷ acceptable, outside) else (acceptable, a ∷ outside)

unfoldable pub tolerance_order : {A : Type 0} → (List A → List A) → ℕ → List ℤ → List A → List A
unfolding within_latency_tolerance fastest_of split_by
tolerance_order by_price percent [] ordered = ordered
tolerance_order by_price percent (m ∷ medians) ordered =
    let fastest = fastest_of medians m in
    let (acceptable, outside) =
      split_by (λ d. within_latency_tolerance d fastest percent) (m ∷ medians) ordered in
    by_price acceptable ++ outside

module _ {A : Type 0} (samples : A → List LatencySample) (p : LatencyPolicy) (now : ℕ) where
  -- `order` of `costLatencyRoutingPolicy`.
  unfoldable pub order_by_cost_latency :
      (List A → List A) → ℕ → RequestMode → List A → ExplorationCounts → List A × ExplorationCounts
  unfolding candidate_medians explore_order tolerance_order
  order_by_cost_latency by_price percent mode ordered c =
      let (medians, exploration) = candidate_medians samples p now ordered in
      if ltb (length ordered) 2 then (ordered, c) else elim exploration [
        | some i ↦ explore_order samples p now mode i ordered c
        | none ↦ (tolerance_order by_price percent medians ordered, c)
      ]
