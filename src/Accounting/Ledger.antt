-- ===== src/Accounting/Ledger.antt =====
-- internal/accounting/tracker.go: the tracker's map stays within its capacity and loses no attempt.
use route_forge.Base.{
  ℕ, ◌+◌, ◌≤◌, ◌<◌, ◌≡◌, refl, ◌∙◌, inl, inr, Bool, true, false, Option, none, some, List, [], ◌∷◌,
  length, arith, Option-cases,
}
use mathlib.Core.List.{Perm}
use route_forge.Base.Dict.{lookup, total, total-insert-some, total-insert-none, le-total}
use route_forge.Accounting.{max_uint64, Key, key_eq, PriceBook, Usage}
use route_forge.Accounting.Tracker.{
  Tracker, ModelAggregate, zero_aggregate, new_tracker, record_aggregate, record_attempt, new_model,
  known_model, cost_for, count_attempt, count_usage, count_partial, count_cost, record_usage,
  add_usage, snapshot, key_before,
}
use route_forge.Base.Text.{same_iff, before_asym}
use route_forge.Base.Sort.{IsSorted, sort-perm, sort-IsSorted}

-- The attempts of a history, one after another.
unfoldable pub record_all : List (Key × Option Usage) → Tracker → Tracker
record_all [] t = t
record_all ((k, u) ∷ es) t = record_all es (record_attempt k u t).0

-- All attempts of which the tracker knows.
abbrev pub seen : Tracker → ℕ
seen t = total (λ (a : ModelAggregate). a.attempts) t.models + t.dropped

attempts-count_cost :
    (cost : Option ℕ) (a : ModelAggregate) → (count_cost cost a).attempts ≡ a.attempts
unfolding count_cost
attempts-count_cost none a = ground arith
attempts-count_cost (some c) a = ground arith

attempts-count_usage :
    (a : ModelAggregate) (available complete : Bool)
    → (count_usage (a, available, complete)).attempts ≡ a.attempts
unfolding count_usage count_partial
attempts-count_usage a available complete = ground arith

attempts-record_usage :
    (a : ModelAggregate) (u : Option Usage) → (record_usage a u).0.attempts ≡ a.attempts
unfolding record_usage add_usage
attempts-record_usage a none = refl
attempts-record_usage a (some u) = ground arith

attempts-record_aggregate :
    (u : Option Usage) (cost : Option ℕ) (a : ModelAggregate)
    → a.attempts < max_uint64
    → (record_aggregate u cost a).attempts ≡ a.attempts + 1
unfolding record_aggregate count_attempt
attempts-record_aggregate u cost a h =
    let b : ModelAggregate = count_attempt a in
    let r : ModelAggregate × Bool × Bool = record_usage b u in
    attempts-count_cost cost (count_usage r)
    ∙ attempts-count_usage r.0 r.1 r.2
    ∙ attempts-record_usage b u
    ∙ ground arith

-- The tracker after an attempt: within its capacity, and with one attempt more.
abbrev pub Within : ℕ → ℕ → Tracker → Type 0
Within capacity n t = (t.max_models ≡ capacity) × (length t.models ≤ capacity) × (seen t ≡ n)

record_attempt-Within :
    (capacity n : ℕ) (k : Key) (u : Option Usage) (t : Tracker)
    → n < max_uint64
    → Within capacity n t
    → Within capacity (n + 1) (record_attempt k u t).0
unfolding record_attempt known_model new_model
record_attempt-Within capacity n k u t b w = elim (Option-cases (lookup k t.models)) [
  | inl e ↦ rw e (
      ground (
        arith,
        total-insert-none (λ (a : ModelAggregate). a.attempts) k
            (record_aggregate u (cost_for t k u) zero_aggregate) t.models e,
        attempts-record_aggregate u (cost_for t k u) zero_aggregate,
      ))
  | inr (a, e) ↦ rw e (
      ground (
        arith,
        total-insert-some (λ (c : ModelAggregate). c.attempts) k
            (record_aggregate u (cost_for t k u) a) a t.models e,
        attempts-record_aggregate u (cost_for t k u) a,
        le-total (λ (c : ModelAggregate). c.attempts) k a t.models e,
      ))
]

record_all-Within :
    (es : List (Key × Option Usage)) (capacity n : ℕ) (t : Tracker)
    → n + length es ≤ max_uint64
    → Within capacity n t
    → Within capacity (n + length es) (record_all es t)
unfolding record_all
record_all-Within [] capacity n t b w = ground arith
record_all-Within ((k, u) ∷ es) capacity n t b w =
    let r =
      record_all-Within es capacity (n + 1) (record_attempt k u t).0 (omega arith)
        (record_attempt-Within capacity n k u t (omega arith) w) in
    (r.0, r.1, r.2 ∙ omega arith)

-- After any history of fewer than 2^64 attempts, a new tracker holds no more models than its capacity,
-- and the attempts of its models together with the dropped ones are exactly those recorded.
pub record_all_accounted :
    (prices : PriceBook) (capacity : ℕ) (es : List (Key × Option Usage))
    → length es ≤ max_uint64
    → let t = record_all es (new_tracker prices capacity) in
      (length t.models ≤ capacity) × (seen t ≡ length es)
unfolding new_tracker
record_all_accounted prices capacity es b =
    let r =
      record_all-Within es capacity 0 (new_tracker prices capacity) (omega arith)
        (refl, omega arith, refl) in
    (r.1, r.2 ∙ omega arith)

key_before_asym : (a b : Key × ModelAggregate) → key_before a b ≡ true → key_before b a ≡ false
key_before_asym (j, a) (k, b) h = ground (
  arith,
  same_iff j.provider k.provider,
  same_iff k.provider j.provider,
  before_asym j.model k.model,
  before_asym j.provider k.provider,
)

-- A snapshot lists each model of the tracker once, no more and no less, in the order of provider and
-- model, with the tracker's count of dropped attempts.
pub snapshot_lem :
    (t : Tracker)
    → Perm (snapshot t).models t.models
      × IsSorted key_before (snapshot t).models
      × ((snapshot t).dropped_attempts ≡ t.dropped)
unfolding snapshot
snapshot_lem t =
    (sort-perm key_before t.models, sort-IsSorted key_before key_before_asym t.models, refl)
