-- ===== src/Tests/Costs.antt =====
-- internal/accounting: prices, usages and aggregates.
use route_forge.Base.{
  ℕ, ◌+◌, ◌*◌, ◌/◌, ◌≤◌, ◌≡◌, refl, false, Option, none, some, List, [], ◌∷◌, ◌++◌, arith, length,
  if◌then◌else◌,
}
use route_forge.Base.Text.{codes}
use route_forge.Accounting.{Key, key_eq, Rates, Usage, estimate_micro_usd}
use route_forge.Accounting.Estimate.{fits, estimate_exact}
use route_forge.Accounting.Price.{parse_usd_per_million}
use route_forge.Accounting.PriceLaws.{decimal_value, parse_decimal}
use route_forge.Accounting.Tracker.{Tracker, zero_aggregate, new_tracker, record_aggregate}
use route_forge.Accounting.History.{record_each, Exact, Conserved, record_each_lem}
use route_forge.Accounting.Ledger.{record_all, seen, record_all_accounted}

abbrev usage : ℕ → ℕ → Usage
usage input output = record {
  input_tokens = some input;
  output_tokens = some output;
  total_tokens = some (input + output);
}

abbrev rates : Rates
rates = record { input_rate = some 150000; output_rate = some 600000 }

estimate_exact_example : estimate_micro_usd (some (usage 1000 500)) rates ≡ (
    if fits 1000 500 1500 150000 600000
    then some ((1000 * 150000 + 500 * 600000 + 500000) / 1000000)
    else none)
estimate_exact_example = estimate_exact 1000 500 1500 150000 600000 (omega arith) (omega arith)

abbrev estimate : estimate_micro_usd (some (usage 1000 500)) rates ≡ some 450
unfolding estimate_micro_usd
estimate = refl

-- "12.5"
parse_decimal_example :
    (parse_usd_per_million (codes "12" ++ (b'.' ∷ codes "5"))
      ≡ decimal_value (codes "12") (codes "5"))
    × (parse_usd_per_million (codes "12") ≡ decimal_value (codes "12") [])
parse_decimal_example = parse_decimal (codes "12") (codes "5") (refl, (refl, tt)) (refl, tt)

abbrev attempts : List (Option Usage × Option ℕ)
attempts = (some (usage 1000 500), some 450) ∷ (none, none) ∷ (some (usage 3 4), none) ∷ []

no_overflow : (record_each attempts zero_aggregate).overflowed ≡ false
unfolding record_each record_aggregate
no_overflow = refl

record_each_lem_example :
    Exact attempts zero_aggregate (record_each attempts zero_aggregate)
    × Conserved (record_each attempts zero_aggregate)
record_each_lem_example = record_each_lem attempts no_overflow

abbrev small : Key
small = record { provider = codes "openai"; model = codes "small" }

abbrev mini : Key
mini = record { provider = codes "openai"; model = codes "mini" }

abbrev tracker : Tracker
tracker = new_tracker ((small, rates) ∷ []) 1

-- The second model does not fit.
abbrev history : List (Key × Option Usage)
history = (small, some (usage 1 2)) ∷ (mini, none) ∷ (small, none) ∷ []

record_all_accounted_example :
    let t = record_all history (new_tracker ((small, rates) ∷ []) 1) in
    (length t.models ≤ 1) × (seen t ≡ length history)
record_all_accounted_example = record_all_accounted ((small, rates) ∷ []) 1 history (omega arith)

abbrev two : Tracker
two = record {
  models = (small, zero_aggregate) ∷ (mini, zero_aggregate) ∷ [];
  prices = [];
  max_models = 2;
  dropped = 5;
}
