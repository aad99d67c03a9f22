-- ===== src/Accounting.antt =====
-- internal/accounting/pricing.go and internal/openai/types.go: prices, usage and the estimated cost.
-- A `*uint64` is an option: the code copies the numbers and never shares the pointers.
pub mod Estimate
pub mod Price
pub mod Digits
pub mod PriceLaws
pub mod Tracker
pub mod Totals
pub mod Ledger
pub mod History
use route_forge.Base.{
  ℕ, zero, suc, ◌+◌, ◌-◌, ◌*◌, ◌/◌, ◌%◌, ◌^◌, ◌≡◌, ◌↔◌, Bool, true, false, not, ◌&&◌, ◌||◌, Option,
  none, some, List, [], ◌∷◌, ltb, leb, ◌==◌, ==_iff, if◌then◌else◌, arith,
}
use route_forge.Base.Text.{same, same_iff}
use route_forge.Base.Dict.{Eq}

abbrev pub max_uint64 : ℕ
max_uint64 = 2 ^ 64 - 1

abbrev pub tokens_per_million : ℕ
tokens_per_million = 1000000

pub record Key : Type 0 where
  pub provider : List ℕ
  pub model : List ℕ

abbrev pub same_key : Key → Key → Bool
same_key a b = same a.provider b.provider && same a.model b.model

pub same_key_iff : (a b : Key) → (same_key a b ≡ true) ↔ (a ≡ b)
same_key_iff a b = (
  λ h. ground (arith, same_iff a.provider b.provider, same_iff a.model b.model),
  λ e. ground (arith, same_iff a.provider b.provider, same_iff a.model b.model),
)

instance abbrev pub key_eq : Eq Key
key_eq = record { beq = same_key; beq_iff = same_key_iff }

pub record Rates : Type 0 where
  pub input_rate : Option ℕ
  pub output_rate : Option ℕ

abbrev pub PriceBook : Type 0
PriceBook = List (Key × Rates)

-- `openai.Usage`.
pub record Usage : Type 0 where
  pub input_tokens : Option ℕ
  pub output_tokens : Option ℕ
  pub total_tokens : Option ℕ

unfoldable pub checked_multiply : ℕ → ℕ → Option ℕ
checked_multiply left right =
    if not (left == 0) && ltb (max_uint64 / left) right then none else some (left * right % 2 ^ 64)

-- `inputCost + outputCost`, rounded to the nearest unit, if neither sum leaves the range.
round_cost : ℕ → ℕ → Option ℕ
round_cost input_cost output_cost =
    if ltb (max_uint64 - output_cost) input_cost
    then none
    else if ltb (max_uint64 - tokens_per_million / 2) ((input_cost + output_cost) % 2 ^ 64)
    then none
    else some (
        ((input_cost + output_cost) % 2 ^ 64 + tokens_per_million / 2)
        % 2 ^ 64
        / tokens_per_million)

cost_of : ℕ → ℕ → ℕ → ℕ → Option ℕ
unfolding checked_multiply round_cost
cost_of input output input_rate output_rate = elim (checked_multiply input input_rate) [
  | none ↦ none
  | some input_cost ↦ elim (checked_multiply output output_rate) [
    | none ↦ none
    | some output_cost ↦ round_cost input_cost output_cost
  ]
]

estimate_known : ℕ → ℕ → ℕ → ℕ → ℕ → Option ℕ
unfolding cost_of
estimate_known input output total input_rate output_rate =
    if ltb (max_uint64 - output) input || not (total == (input + output) % 2 ^ 64)
    then none
    else cost_of input output input_rate output_rate

estimate_usage : Option ℕ → Option ℕ → Option ℕ → Option ℕ → Option ℕ → Option ℕ
unfolding estimate_known
estimate_usage (some i) (some o) (some t) (some p) (some q) = estimate_known i o t p q
estimate_usage _ _ _ _ _ = none

-- `EstimateMicroUSD`: `none` stands for the result `0, false`.
unfoldable pub estimate_micro_usd : Option Usage → Rates → Option ℕ
unfolding estimate_usage
estimate_micro_usd none r = none
estimate_micro_usd (some u) r =
    estimate_usage u.input_tokens u.output_tokens u.total_tokens r.input_rate r.output_rate
