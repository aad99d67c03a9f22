-- ===== src/Storage/Attempts.antt =====
-- internal/gateway/persistence.go: the attempts of a history are as the store takes them.
use mathlib.Core.Path.{subst}
use route_forge.Base.{
  ℕ, zero, suc, ◌+◌, ◌^◌, ◌≤◌, ◌<◌, ◌≡◌, refl, ap, true, false, Option, none, some, List, [], ◌∷◌,
  ◌++◌, length, take, drop, set, length-take, arith,
}
use route_forge.Base.Int.{ℤ}
use route_forge.Accounting.{Usage}
use route_forge.Accounting.Price.{is_empty}
use route_forge.Outcome.{
  ProviderOutcome, outcome_success, outcome_canceled, outcome_timeout, outcome_unavailable,
  outcome_rate_limited, outcome_invalid_request, outcome_internal, outcome_other_failure,
  outcome_text,
}
use route_forge.History.{
  AttemptRecord, RequestHistory, new_attempt, start_attempt, end_attempt, add_tokens,
  finish_attempt, later,
}
use route_forge.Storage.{within, valid_attempt}

-- An attempt of a request: what it is started and what it is finished with.
pub record Tried : Type 0 where
  pub name : List ℕ
  pub model : List ℕ
  pub started : ℕ
  pub outcome : ProviderOutcome
  pub duration : ℤ
  pub ttfc : Option ℤ
  pub usage : Option Usage
  pub cost : Option ℕ
  pub finished : ℕ

-- The attempts, each finished before the next is started.
unfoldable pub try_all : List Tried → RequestHistory → RequestHistory
try_all [] h = h
try_all (t ∷ ts) h = try_all ts (
    finish_attempt (length h.entry.attempts) t.outcome t.duration t.ttfc t.usage t.cost t.finished
      (start_attempt t.name t.model t.started h))

abbrev pub Fits : Option ℕ → Type 0
Fits none = Unit {0}
Fits (some n) = n < 2 ^ 63

abbrev pub UsageFits : Option Usage → Type 0
UsageFits none = Unit {0}
UsageFits (some u) = Fits u.input_tokens × Fits u.output_tokens × Fits u.total_tokens

-- An attempt whose names are not empty and whose numbers are BIGINTs.
abbrev pub Storable : List Tried → Type 0
Storable [] = Unit {0}
Storable (t ∷ ts) =
    ((is_empty t.name ≡ false) × (is_empty t.model ≡ false) × UsageFits t.usage × Fits t.cost)
    × Storable ts

module _ {A : Type 0} where
  pub take-drop-last : (xs : List A) (a : A) → take 1 (drop (length xs) (xs ++ (a ∷ []))) ≡ a ∷ []
  take-drop-last [] a = refl
  take-drop-last (x ∷ xs) a = take-drop-last xs a

  pub set-last : (xs : List A) (a b : A) → set (xs ++ (a ∷ [])) (length xs) b ≡ xs ++ (b ∷ [])
  set-last [] a b = refl
  set-last (x ∷ xs) a b = ap (λ l. x ∷ l) (set-last xs a b)

pub within-take :
    (n : ℕ) (text : List ℕ) → 0 < n → is_empty text ≡ false → within n (take n text) ≡ true
within-take zero text h e = absurd (omega arith)
within-take (suc n) [] h e = cc
within-take (suc n) (c ∷ text) h e = ground (arith, length-take (suc n) (c ∷ text))

pub within-outcome_text : (o : ProviderOutcome) → within 32 (outcome_text o) ≡ true
unfolding outcome_text
within-outcome_text outcome_success = refl
within-outcome_text outcome_canceled = refl
within-outcome_text outcome_timeout = refl
within-outcome_text outcome_unavailable = refl
within-outcome_text outcome_rate_limited = refl
within-outcome_text outcome_invalid_request = refl
within-outcome_text outcome_internal = refl
within-outcome_text outcome_other_failure = refl

-- A recorded attempt that the store takes.
abbrev pub Ready : ℕ → AttemptRecord → Type 0
Ready i a =
    (valid_attempt i a ≡ true)
    × Fits a.input_tokens
    × Fits a.output_tokens
    × Fits a.total_tokens
    × Fits a.estimated_cost_micro_usd

abbrev pub AllReady : ℕ → List AttemptRecord → Type 0
AllReady i [] = Unit {0}
AllReady i (a ∷ attempts) = Ready i a × AllReady (i + 1) attempts

pub AllReady-snoc :
    (i : ℕ) (xs : List AttemptRecord) (b : AttemptRecord)
    → AllReady i xs
    → Ready (i + length xs) b
    → AllReady i (xs ++ (b ∷ []))
AllReady-snoc i [] b all last = (subst (λ j. Ready j b) (omega arith) last, tt)
AllReady-snoc i (x ∷ xs) b (first, all) last =
    (first, AllReady-snoc (i + 1) xs b all (subst (λ j. Ready j b) (omega arith) last))

unfoldable pub ended : Tried → ℕ → AttemptRecord
ended t i =
    end_attempt t.outcome t.duration t.ttfc t.usage t.cost t.finished
      (new_attempt t.name t.model i t.started)

add_tokens-Ready :
    (i : ℕ) (usage : Option Usage) (a : AttemptRecord)
    → UsageFits usage
    → Ready i a
    → Ready i (add_tokens usage a)
unfolding valid_attempt add_tokens
add_tokens-Ready i none a fits ready = ready
add_tokens-Ready i (some u) a (input, output, total) (valid, i', o', t', cost) =
    (valid, input, output, total, cost)

-- A record whose texts and times are as an attempt's.
valid-ended :
    (t : Tried) (i : ℕ) (a : AttemptRecord)
    → is_empty t.name ≡ false
    → is_empty t.model ≡ false
    → a.attempt_number ≡ i + 1
    → a.provider ≡ take 64 t.name
    → a.resolved_provider_model ≡ take 256 t.model
    → a.outcome ≡ outcome_text t.outcome
    → a.started_at ≤ a.completed_at
    → valid_attempt i a ≡ true
unfolding valid_attempt
valid-ended t i a name model number provider resolved outcome times =
    rw
      (
        provider,
        resolved,
        outcome,
        within-take 64 t.name (omega arith) name,
        within-take 256 t.model (omega arith) model,
        within-outcome_text t.outcome,
      )
      (ground arith)

pub le-later : (completed started : ℕ) → started ≤ later completed started
le-later completed started = ground arith

cost-Fits :
    (cost : Option ℕ)
    → Fits cost
    → Fits (elim cost as (λ x. Option ℕ) [ none ↦ none | some c ↦ some c ])
cost-Fits none f = tt
cost-Fits (some c) f = f

pub ended-Ready :
    (t : Tried) (i : ℕ)
    → is_empty t.name ≡ false
    → is_empty t.model ≡ false
    → UsageFits t.usage
    → Fits t.cost
    → Ready i (ended t i)
unfolding ended end_attempt new_attempt
ended-Ready t i name model usage cost = add_tokens-Ready i t.usage _ usage (
  valid-ended t i _ name model refl refl refl refl (le-later t.finished t.started),
  tt,
  tt,
  tt,
  cost-Fits t.cost cost,
)
