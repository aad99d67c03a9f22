-- ===== src/Accounting/Estimate.antt =====
-- internal/accounting/pricing.go: the estimated cost is the exact one, or none.
use route_forge.Base.{
  ℕ, ◌+◌, ◌*◌, ◌/◌, ◌≤◌, ◌≡◌, ◌≢◌, Bool, ◌&&◌, Option, none, some, leb, ◌==◌, if◌then◌else◌, arith,
}
use route_forge.Accounting.{
  max_uint64, Rates, Usage, checked_multiply, round_cost, cost_of, estimate_known, estimate_usage,
  estimate_micro_usd,
}

-- The division test of `checkedMultiply` is exact.
pub checked_multiply_lem :
    (left right : ℕ)
    → checked_multiply left right
      ≡ (if leb (left * right) max_uint64 then some (left * right) else none)
unfolding checked_multiply
checked_multiply_lem left right = grind arith

round_cost_lem :
    (a b : ℕ)
    → a ≤ max_uint64
    → b ≤ max_uint64
    → round_cost a b
      ≡ (if leb (a + b + 500000) max_uint64 then some ((a + b + 500000) / 1000000) else none)
unfolding round_cost
round_cost_lem a b h k = ground arith

cost_of_lem :
    (i o p q : ℕ)
    → cost_of i o p q ≡ (
        if leb (i * p + o * q + 500000) max_uint64
        then some ((i * p + o * q + 500000) / 1000000)
        else none)
unfolding cost_of
cost_of_lem i o p q =
    ground
      (arith, checked_multiply_lem i p, checked_multiply_lem o q, round_cost_lem (i * p) (o * q))

-- Whether the counts of a usage agree, and its cost plus half a unit, in exact arithmetic, stays in
-- the range of a uint64.
abbrev pub fits : ℕ → ℕ → ℕ → ℕ → ℕ → Bool
fits i o t p q = leb (i + o) max_uint64 && (t == i + o) && leb (i * p + o * q + 500000) max_uint64

estimate_known_lem :
    (i o t p q : ℕ)
    → i ≤ max_uint64
    → o ≤ max_uint64
    → estimate_known i o t p q
      ≡ (if fits i o t p q then some ((i * p + o * q + 500000) / 1000000) else none)
unfolding estimate_known
estimate_known_lem i o t p q hi ho = ground (arith, cost_of_lem i o p q)

-- For a usage with all three counts, whose input and output counts are uint64 values, and rates for both directions, the estimate is the exact cost
-- `input * input rate + output * output rate` per million tokens, rounded half up, if the counts agree
-- and no intermediate sum exceeds a uint64; otherwise there is no estimate.
pub estimate_exact :
    (i o t p q : ℕ)
    → i ≤ max_uint64
    → o ≤ max_uint64
    → estimate_micro_usd
        (some (record { input_tokens = some i; output_tokens = some o; total_tokens = some t }))
        (record { input_rate = some p; output_rate = some q })
      ≡ (if fits i o t p q then some ((i * p + o * q + 500000) / 1000000) else none)
unfolding estimate_micro_usd
estimate_exact i o t p q hi ho = estimate_known_lem i o t p q hi ho

estimate_parts :
    (i o t p q : Option ℕ) (c : ℕ)
    → estimate_usage i o t p q ≡ some c
    → (i ≢ none) × (o ≢ none) × (t ≢ none) × (p ≢ none) × (q ≢ none)
unfolding estimate_usage
estimate_parts (some i) (some o) (some t) (some p) (some q) c e =
    (λ h. cc, λ h. cc, λ h. cc, λ h. cc, λ h. cc)
estimate_parts _ _ _ _ _ c e = cc

-- An estimate is only made from a usage with all three counts, at a price for both directions.
pub estimate_needs_all :
    (u : Usage) (r : Rates) (c : ℕ)
    → estimate_micro_usd (some u) r ≡ some c
    → (u.input_tokens ≢ none)
      × (u.output_tokens ≢ none)
      × (u.total_tokens ≢ none)
      × (r.input_rate ≢ none)
      × (r.output_rate ≢ none)
unfolding estimate_micro_usd
estimate_needs_all u r c e =
    estimate_parts u.input_tokens u.output_tokens u.total_tokens r.input_rate r.output_rate c e
