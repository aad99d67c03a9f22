-- ===== src/Accounting/Tracker.antt =====
-- internal/accounting/tracker.go: the usage and cost aggregated for each provider and model.
use route_forge.Base.{
  ℕ, ◌+◌, ◌-◌, Bool, true, false, ◌&&◌, ◌||◌, Option, none, some, List, [], length, ltb, leb, ◌==◌,
  if◌then◌else◌,
}
use route_forge.Base.Text.{same, before}
use route_forge.Base.Dict.{lookup, insert}
use route_forge.Base.Sort.{sort}
use route_forge.Accounting.{max_uint64, Key, key_eq, Rates, PriceBook, Usage, estimate_micro_usd}

pub record ModelAggregate : Type 0 where
  pub attempts : ℕ
  pub attempts_with_usage : ℕ
  pub attempts_without_usage : ℕ
  pub attempts_with_partial_usage : ℕ
  pub input_tokens : ℕ
  pub output_tokens : ℕ
  pub total_tokens : ℕ
  pub attempts_with_estimated_cost : ℕ
  pub attempts_without_estimated_cost : ℕ
  pub estimated_cost_micro_usd : ℕ
  pub overflowed : Bool

pub record Tracker : Type 0 where
  pub models : List (Key × ModelAggregate)
  pub prices : PriceBook
  pub max_models : ℕ
  pub dropped : ℕ

abbrev pub zero_aggregate : ModelAggregate
zero_aggregate = record {
  attempts = 0;
  attempts_with_usage = 0;
  attempts_without_usage = 0;
  attempts_with_partial_usage = 0;
  input_tokens = 0;
  output_tokens = 0;
  total_tokens = 0;
  attempts_with_estimated_cost = 0;
  attempts_without_estimated_cost = 0;
  estimated_cost_micro_usd = 0;
  overflowed = false;
}

-- `NewTracker` and `SetPrices`. A price book is copied as a value.
unfoldable pub new_tracker : PriceBook → ℕ → Tracker
new_tracker prices max_models = record {
  models = [];
  prices = prices;
  max_models = max_models;
  dropped = 0;
}

unfoldable pub set_prices : PriceBook → Tracker → Tracker
set_prices prices t = record t { prices = prices }

-- `saturatingAdd`: the sum, and the flag that it may set.
unfoldable pub saturating_add : ℕ → ℕ → Bool → ℕ × Bool
saturating_add current value overflowed =
    if ltb (max_uint64 - value) current then (max_uint64, true) else (current + value, overflowed)

-- `saturatingAdd` of a count that a usage may lack.
unfoldable pub add_tokens : ℕ → Option ℕ → Bool → ℕ × Bool
unfolding saturating_add
add_tokens current none overflowed = (current, overflowed)
add_tokens current (some value) overflowed = saturating_add current value overflowed

abbrev pub is_some : Option ℕ → Bool
is_some none = false
is_some (some n) = true

abbrev pub is_available : Usage → Bool
is_available u = is_some u.input_tokens || (is_some u.output_tokens || is_some u.total_tokens)

-- Whether all three counts are there and agree.
unfoldable pub is_complete : Option ℕ → Option ℕ → Option ℕ → Bool
is_complete (some input) (some output) (some total) =
    leb input (max_uint64 - output) && (total == input + output)
is_complete _ _ _ = false

unfoldable pub add_usage : ModelAggregate → Usage → ModelAggregate
unfolding add_tokens
add_usage a u =
    let (input, f) = add_tokens a.input_tokens u.input_tokens a.overflowed in
    let (output, g) = add_tokens a.output_tokens u.output_tokens f in
    let (total, h) = add_tokens a.total_tokens u.total_tokens g in
    record a { input_tokens = input; output_tokens = output; total_tokens = total; overflowed = h }

-- `recordUsage`, with what it returns: whether there is a usage, and whether it is complete.
unfoldable pub record_usage : ModelAggregate → Option Usage → ModelAggregate × Bool × Bool
unfolding add_usage is_complete
record_usage a none = (a, false, false)
record_usage a (some u) =
    if is_available u
    then (add_usage a u, true, is_complete u.input_tokens u.output_tokens u.total_tokens)
    else (a, false, false)

unfoldable pub count_attempt : ModelAggregate → ModelAggregate
unfolding saturating_add
count_attempt a =
    let (n, f) = saturating_add a.attempts 1 a.overflowed in
    record a { attempts = n; overflowed = f }

unfoldable pub count_partial : Bool → ModelAggregate → ModelAggregate
unfolding saturating_add
count_partial true a = a
count_partial false a =
    let (n, f) = saturating_add a.attempts_with_partial_usage 1 a.overflowed in
    record a { attempts_with_partial_usage = n; overflowed = f }

unfoldable pub count_usage : ModelAggregate × Bool × Bool → ModelAggregate
unfolding saturating_add count_partial
count_usage (a, false, complete) =
    let (n, f) = saturating_add a.attempts_without_usage 1 a.overflowed in
    record a { attempts_without_usage = n; overflowed = f }
count_usage (a, true, complete) =
    let (n, f) = saturating_add a.attempts_with_usage 1 a.overflowed in
    count_partial complete (record a { attempts_with_usage = n; overflowed = f })

unfoldable pub count_cost : Option ℕ → ModelAggregate → ModelAggregate
unfolding saturating_add
count_cost none a =
    let (n, f) = saturating_add a.attempts_without_estimated_cost 1 a.overflowed in
    record a { attempts_without_estimated_cost = n; overflowed = f }
count_cost (some cost) a =
    let (n, f) = saturating_add a.attempts_with_estimated_cost 1 a.overflowed in
    let (total, g) = saturating_add a.estimated_cost_micro_usd cost f in
    record a { attempts_with_estimated_cost = n; estimated_cost_micro_usd = total; overflowed = g }

-- What `Record` does to the aggregate of the key, once the cost is known.
unfoldable pub record_aggregate : Option Usage → Option ℕ → ModelAggregate → ModelAggregate
unfolding count_attempt record_usage count_usage count_cost
record_aggregate u cost a = count_cost cost (count_usage (record_usage (count_attempt a) u))

abbrev pub rates_of : Option Rates → Rates
rates_of none = record { input_rate = none; output_rate = none }
rates_of (some r) = r

-- `t.prices[key]`: a missing key reads as rates that are not set.
unfoldable pub cost_for : Tracker → Key → Option Usage → Option ℕ
cost_for t k u = estimate_micro_usd u (rates_of (lookup k t.prices))

unfoldable pub new_model : Tracker → Key → Option Usage → Option ℕ → Tracker
unfolding saturating_add record_aggregate
new_model t k u cost =
    if leb t.max_models (length t.models)
    then record t { dropped = (saturating_add t.dropped 1 false).0 }
    else record t { models = insert k (record_aggregate u cost zero_aggregate) t.models }

unfoldable pub known_model :
    Option ModelAggregate → Tracker → Key → Option Usage → Option ℕ → Tracker
unfolding new_model record_aggregate
known_model none t k u cost = new_model t k u cost
known_model (some a) t k u cost = record t {
  models = insert k (record_aggregate u cost a) t.models;
}

-- `Record`, with the estimated cost that it returns.
unfoldable pub record_attempt : Key → Option Usage → Tracker → Tracker × Option ℕ
unfolding known_model cost_for
record_attempt k u t = (known_model (lookup k t.models) t k u (cost_for t k u), cost_for t k u)

pub record Snapshot : Type 0 where
  pub models : List (Key × ModelAggregate)
  pub dropped_attempts : ℕ

abbrev pub key_before : Key × ModelAggregate → Key × ModelAggregate → Bool
key_before (j, a) (k, b) =
    if same j.provider k.provider then before j.model k.model else before j.provider k.provider

-- `Snapshot`: the aggregates, sorted by provider and model.
unfoldable pub snapshot : Tracker → Snapshot
snapshot t = record { models = sort key_before t.models; dropped_attempts = t.dropped }
