-- ===== src/Accounting/Totals.antt =====
-- internal/accounting/tracker.go: an aggregate that has not overflowed is the exact sum of what was
-- recorded.
use route_forge.Base.{ℕ, ◌+◌, ◌≡◌, Bool, true, false, not, ◌&&◌, Option, none, some, arith}
use route_forge.Accounting.{Usage}
use route_forge.Accounting.Tracker.{
  ModelAggregate, saturating_add, add_tokens, is_some, is_available, is_complete, record_usage,
  record_aggregate, count_attempt, count_usage, count_partial, count_cost, add_usage,
}

abbrev pub bit : Bool → ℕ
bit true = 1
bit false = 0

abbrev pub value : Option ℕ → ℕ
value none = 0
value (some n) = n

-- The contribution of one attempt to the counts: whether it has a usage, and whether that is complete.
abbrev pub has_usage : Option Usage → Bool
has_usage none = false
has_usage (some u) = is_available u

abbrev pub whole_usage : Option Usage → Bool
whole_usage none = false
whole_usage (some u) = is_complete u.input_tokens u.output_tokens u.total_tokens

abbrev pub tokens : (Usage → Option ℕ) → Option Usage → ℕ
tokens f none = 0
tokens f (some u) = value (f u)

-- `b` is `a` with the exact contribution of an attempt added.
pub record Added (u : Option Usage) (cost : Option ℕ) (a b : ModelAggregate) : Type 0 where
  pub attempts : b.attempts ≡ a.attempts + 1
  pub with_usage : b.attempts_with_usage ≡ a.attempts_with_usage + bit (has_usage u)
  pub without_usage : b.attempts_without_usage ≡ a.attempts_without_usage + bit (not (has_usage u))
  pub partial :
      b.attempts_with_partial_usage
      ≡ a.attempts_with_partial_usage + bit (has_usage u && not (whole_usage u))
  pub input : b.input_tokens ≡ a.input_tokens + tokens (λ v. v.input_tokens) u
  pub output : b.output_tokens ≡ a.output_tokens + tokens (λ v. v.output_tokens) u
  pub total : b.total_tokens ≡ a.total_tokens + tokens (λ v. v.total_tokens) u
  pub with_cost :
      b.attempts_with_estimated_cost ≡ a.attempts_with_estimated_cost + bit (is_some cost)
  pub without_cost :
      b.attempts_without_estimated_cost
      ≡ a.attempts_without_estimated_cost + bit (not (is_some cost))
  pub cost_sum : b.estimated_cost_micro_usd ≡ a.estimated_cost_micro_usd + value cost

-- A sum that sets no flag is exact, and the flag is never taken back.
saturating_add-exact :
    (c v : ℕ) (o : Bool)
    → (saturating_add c v o).1 ≡ false
    → ((saturating_add c v o).0 ≡ c + v) × (o ≡ false)
unfolding saturating_add
saturating_add-exact c v o h = ground arith

add_tokens-exact :
    (c : ℕ) (v : Option ℕ) (o : Bool)
    → (add_tokens c v o).1 ≡ false
    → ((add_tokens c v o).0 ≡ c + value v) × (o ≡ false)
unfolding add_tokens
add_tokens-exact c none o h = ground arith
add_tokens-exact c (some v) o h = saturating_add-exact c v o h

-- Each stage of `Record`, if it leaves the flag unset.
module _ (a : ModelAggregate) where
  count_attempt-exact :
      (count_attempt a).overflowed ≡ false
      → (count_attempt a ≡ record a { attempts = a.attempts + 1 }) × (a.overflowed ≡ false)
  unfolding count_attempt
  count_attempt-exact h = ground arith

  abbrev with_tokens : Usage → ModelAggregate
  with_tokens u = record a {
    input_tokens = a.input_tokens + value u.input_tokens;
    output_tokens = a.output_tokens + value u.output_tokens;
    total_tokens = a.total_tokens + value u.total_tokens;
  }

  add_usage-exact :
      (u : Usage)
      → (add_usage a u).overflowed ≡ false
      → (add_usage a u ≡ with_tokens u) × (a.overflowed ≡ false)
  unfolding add_usage
  add_usage-exact u h =
      let (input, f) = add_tokens a.input_tokens u.input_tokens a.overflowed in
      let (output, g) = add_tokens a.output_tokens u.output_tokens f in
      ground (
        arith,
        add_tokens-exact a.input_tokens u.input_tokens a.overflowed,
        add_tokens-exact a.output_tokens u.output_tokens f,
        add_tokens-exact a.total_tokens u.total_tokens g,
      )

  count_partial-exact :
      (complete : Bool)
      → (count_partial complete a).overflowed ≡ false
      → (count_partial complete a ≡ record a {
        attempts_with_partial_usage = a.attempts_with_partial_usage + bit (not complete);
      })
        × (a.overflowed ≡ false)
  unfolding count_partial
  count_partial-exact complete h = ground arith

  count_cost-exact :
      (cost : Option ℕ)
      → (count_cost cost a).overflowed ≡ false
      → (count_cost cost a ≡ record a {
        attempts_with_estimated_cost = a.attempts_with_estimated_cost + bit (is_some cost);
        attempts_without_estimated_cost =
            a.attempts_without_estimated_cost + bit (not (is_some cost));
        estimated_cost_micro_usd = a.estimated_cost_micro_usd + value cost;
      })
        × (a.overflowed ≡ false)
  unfolding count_cost
  count_cost-exact cost h = ground arith

  count_usage-exact :
      (available complete : Bool)
      → (count_usage (a, available, complete)).overflowed ≡ false
      → (count_usage (a, available, complete) ≡ record a {
        attempts_with_usage = a.attempts_with_usage + bit available;
        attempts_without_usage = a.attempts_without_usage + bit (not available);
        attempts_with_partial_usage =
            a.attempts_with_partial_usage + bit (available && not complete);
      })
        × (a.overflowed ≡ false)
  unfolding count_usage count_partial
  count_usage-exact available complete h = ground arith

  record_usage-exact :
      (u : Option Usage)
      → (record_usage a u).0.overflowed ≡ false
      → ((record_usage a u).0 ≡ record a {
        input_tokens = a.input_tokens + tokens (λ v. v.input_tokens) u;
        output_tokens = a.output_tokens + tokens (λ v. v.output_tokens) u;
        total_tokens = a.total_tokens + tokens (λ v. v.total_tokens) u;
      })
        × (a.overflowed ≡ false)
        × ((record_usage a u).1 ≡ has_usage u)
        × (has_usage u && not (record_usage a u).2 ≡ has_usage u && not (whole_usage u))
  unfolding record_usage
  record_usage-exact none h = ground arith
  record_usage-exact (some u) h = ground (arith, add_usage-exact u)

-- An attempt that leaves the flag unset adds exactly its contribution, and the flag was unset before.
pub record_aggregate-Added :
    (u : Option Usage) (cost : Option ℕ) (a : ModelAggregate)
    → (record_aggregate u cost a).overflowed ≡ false
    → Added u cost a (record_aggregate u cost a) × (a.overflowed ≡ false)
unfolding record_aggregate
record_aggregate-Added u cost a h =
    let b : ModelAggregate = count_attempt a in
    let r : ModelAggregate × Bool × Bool = record_usage b u in
    let d : ModelAggregate = count_usage r in
    let last = count_cost-exact d cost h in
    let mid = count_usage-exact r.0 r.1 r.2 last.1 in
    let early = record_usage-exact b u mid.1 in
    let first = count_attempt-exact a early.1 in (ground arith, first.1)
