-- ===== src/Accounting/History.antt =====
-- internal/accounting/tracker.go: one key's aggregate over a history, and the other keys'.
use route_forge.Base.{
  ℕ, ◌+◌, ◌≤◌, ◌≡◌, refl, inl, inr, false, Option, none, some, List, [], ◌∷◌, length, leb,
  if◌then◌else◌, arith, Option-cases, Bool-cases,
}
use route_forge.Base.Dict.{lookup, lookup-insert_self, lookup-insert_ne}
use route_forge.Accounting.{Key, key_eq, same_key, Usage}
use route_forge.Accounting.Tracker.{
  Tracker, ModelAggregate, zero_aggregate, record_aggregate, record_attempt, known_model, new_model,
  cost_for,
}
use route_forge.Accounting.Totals.{Added, record_aggregate-Added, value, tokens}

-- Attempts of one key, each with its estimated cost.
unfoldable pub record_each : List (Option Usage × Option ℕ) → ModelAggregate → ModelAggregate
record_each [] a = a
record_each ((u, cost) ∷ es) a = record_each es (record_aggregate u cost a)

abbrev pub sum_tokens : (Usage → Option ℕ) → List (Option Usage × Option ℕ) → ℕ
sum_tokens f [] = 0
sum_tokens f ((u, cost) ∷ es) = tokens f u + sum_tokens f es

abbrev pub sum_costs : List (Option Usage × Option ℕ) → ℕ
sum_costs [] = 0
sum_costs ((u, cost) ∷ es) = value cost + sum_costs es

-- `b` is `a` after the attempts `es`, with nothing lost.
pub record Exact (es : List (Option Usage × Option ℕ)) (a b : ModelAggregate) : Type 0 where
  pub attempts : b.attempts ≡ a.attempts + length es
  pub input : b.input_tokens ≡ a.input_tokens + sum_tokens (λ u. u.input_tokens) es
  pub output : b.output_tokens ≡ a.output_tokens + sum_tokens (λ u. u.output_tokens) es
  pub total : b.total_tokens ≡ a.total_tokens + sum_tokens (λ u. u.total_tokens) es
  pub cost : b.estimated_cost_micro_usd ≡ a.estimated_cost_micro_usd + sum_costs es

-- Every attempt is counted once by its usage and once by its cost.
pub record Conserved (a : ModelAggregate) : Type 0 where
  pub usage : a.attempts_with_usage + a.attempts_without_usage ≡ a.attempts
  pub costs : a.attempts_with_estimated_cost + a.attempts_without_estimated_cost ≡ a.attempts
  pub partial : a.attempts_with_partial_usage ≤ a.attempts_with_usage

Added-Conserved :
    (u : Option Usage) (cost : Option ℕ) (a b : ModelAggregate)
    → Added u cost a b
    → Conserved a
    → Conserved b
Added-Conserved u cost a b d c = ground arith

-- The flag is never taken back.
record_each-flag :
    (es : List (Option Usage × Option ℕ)) (a : ModelAggregate)
    → (record_each es a).overflowed ≡ false
    → a.overflowed ≡ false
unfolding record_each
record_each-flag [] a h = h
record_each-flag ((u, cost) ∷ es) a h =
    (record_aggregate-Added u cost a (record_each-flag es (record_aggregate u cost a) h)).1

record_each-Exact :
    (es : List (Option Usage × Option ℕ)) (a : ModelAggregate)
    → Conserved a
    → (record_each es a).overflowed ≡ false
    → Exact es a (record_each es a) × Conserved (record_each es a)
unfolding record_each
record_each-Exact [] a c h = (omega arith, c)
record_each-Exact ((u, cost) ∷ es) a c h =
    let flag = record_each-flag es (record_aggregate u cost a) h in
    let d = (record_aggregate-Added u cost a flag).0 in
    let r =
      record_each-Exact es (record_aggregate u cost a)
        (Added-Conserved u cost a (record_aggregate u cost a) d c) h in
    (omega arith, r.1)

-- As long as a model's overflow flag is not set, its aggregate after any history of attempts is exact:
-- its token counts and its cost are the sums over the attempts, every attempt is counted, once with or
-- without usage and once with or without an estimated cost, and partial usages are among those with
-- usage.
pub record_each_lem :
    (es : List (Option Usage × Option ℕ))
    → (record_each es zero_aggregate).overflowed ≡ false
    → Exact es zero_aggregate (record_each es zero_aggregate)
      × Conserved (record_each es zero_aggregate)
record_each_lem es h = record_each-Exact es zero_aggregate (omega arith) h

-- `Record` on one key: if the key is new and the map is full, the models stay as they are; otherwise the
-- key's aggregate, or an empty one if it is new, gets the attempt. Other keys keep their aggregates.
pub record_attempt_lem :
    (k j : Key) (u : Option Usage) (t : Tracker)
    → same_key k j ≡ false
    → let t' = (record_attempt k u t).0 in
      let add = record_aggregate u (cost_for t k u) in
      (lookup k t'.models ≡ elim (lookup k t.models) [
        | some a ↦ some (add a)
        | none ↦ if leb t.max_models (length t.models) then none else some (add zero_aggregate)
      ])
      × (lookup j t'.models ≡ lookup j t.models)
unfolding record_attempt known_model new_model
record_attempt_lem k j u t ne = elim (Option-cases (lookup k t.models)) [
  | inl e ↦ rw e (elim (Bool-cases (leb t.max_models (length t.models))) [
    | inl full ↦ rw full (e, refl)
    | inr room ↦ rw room (lookup-insert_self k _ t.models, lookup-insert_ne k j _ t.models ne)
  ])
  | inr (a, e) ↦ rw e (lookup-insert_self k _ t.models, lookup-insert_ne k j _ t.models ne)
]
