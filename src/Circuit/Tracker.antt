-- ===== src/Circuit/Tracker.antt =====
-- circuit.go: the tracker's map of providers.
use route_forge.Base.{
  ℕ, ◌≡◌, ◌∙◌, ◌⊎◌, inl, inr, Bool, true, false, Option, none, some, List, [], ◌∷◌, arith,
  Bool-cases, Option-cases,
}
use route_forge.Base.Dict.{lookup, insert, lookup-insert_self, lookup-insert_ne, text_eq}
use route_forge.Base.Text.{same, same→eq, contains}
use route_forge.Circuit.{
  CircuitState, CircuitConfig, ProviderHealth, HealthAttempt, Transition, new_health, begin_health,
  eligible_health, succeed, fail, ignore,
}

pub record HealthTracker : Type 0 where
  pub providers : List (List ℕ × ProviderHealth)
  pub config : CircuitConfig

add_names : List (List ℕ) → List (List ℕ × ProviderHealth) → List (List ℕ × ProviderHealth)
add_names [] m = m
add_names (name ∷ names) m = add_names names (insert name new_health m)

unfoldable pub new_health_tracker : List (List ℕ) → CircuitConfig → HealthTracker
unfolding add_names
new_health_tracker names config = record { providers = add_names names []; config = config }

-- What an operation on one entry makes of the tracker.
put : HealthTracker → List ℕ → ProviderHealth → HealthTracker
put t name h = record t { providers = insert name h t.providers }

unfoldable pub begin :
    List ℕ → ℕ → HealthTracker → HealthTracker × Option HealthAttempt × List Transition
unfolding put
begin name now t = elim (lookup name t.providers) [
  | none ↦ (t, none, [])
  | some h ↦ let (h', attempt, seen) = begin_health name now h in (put t name h', attempt, seen)
]

unfoldable pub eligible : List ℕ → ℕ → HealthTracker → Bool
eligible name now t = elim (lookup name t.providers) [
  | none ↦ false
  | some h ↦ eligible_health now h
]

on_entry :
    (ProviderHealth → ProviderHealth × List Transition)
    → List ℕ
    → HealthTracker
    → HealthTracker × List Transition
unfolding put
on_entry f name t = elim (lookup name t.providers) [
  | none ↦ (t, [])
  | some h ↦ let (h', seen) = f h in (put t name h', seen)
]

unfoldable pub success : HealthAttempt → ℕ → HealthTracker → HealthTracker × List Transition
unfolding on_entry
success a now t = on_entry (succeed a now) a.name t

unfoldable pub failure : HealthAttempt → ℕ → HealthTracker → HealthTracker × List Transition
unfolding on_entry
failure a now t = on_entry (fail t.config a now) a.name t

unfoldable pub drop_attempt : HealthAttempt → HealthTracker → HealthTracker × List Transition
unfolding on_entry
drop_attempt a t = on_entry (λ h. (ignore a h, [])) a.name t

pub record HealthSnapshot : Type 0 where
  pub state : CircuitState
  pub consecutive_failures : ℕ
  pub last_success : ℕ
  pub last_failure : ℕ
  pub open_until : ℕ
  pub half_open_in_flight : Bool

unfoldable pub snapshot : List ℕ → HealthTracker → Option HealthSnapshot
snapshot name t = elim (lookup name t.providers) [
  | none ↦ none
  | some h ↦ some (record {
    state = h.state;
    consecutive_failures = h.consecutive_failures;
    last_success = h.last_success;
    last_failure = h.last_failure;
    open_until = h.open_until;
    half_open_in_flight = h.half_open_in_flight;
  })
]

-- The map as a function of the name.
abbrev pub entry : HealthTracker → List ℕ → Option ProviderHealth
entry t name = lookup name t.providers

put-entry :
    (t : HealthTracker) (name j : List ℕ) (h : ProviderHealth)
    → same name j ≡ false
    → entry (put t name h) j ≡ entry t j
unfolding put
put-entry t name j h ne = lookup-insert_ne name j h t.providers ne

on_entry-entry :
    (f : ProviderHealth → ProviderHealth × List Transition) (t : HealthTracker) (name j : List ℕ)
    → same name j ≡ false
    → entry (on_entry f name t).0 j ≡ entry t j
unfolding on_entry
on_entry-entry f t name j ne = elim (Option-cases (lookup name t.providers)) [
  | inl e ↦ rw (e, on_entry)
  | inr (h, e) ↦ rw (e, on_entry) (put-entry t name j (f h).0 ne)
]

-- Providers are isolated: `begin`, `success`, `failure` and `ignore` on one provider leave the health
-- of every other provider of the tracker as it was.
pub providers_isolated :
    (t : HealthTracker) (name j : List ℕ) (a : HealthAttempt) (now : ℕ)
    → same name j ≡ false
    → a.name ≡ name
    → (entry (begin name now t).0 j ≡ entry t j)
      × (entry (success a now t).0 j ≡ entry t j)
      × (entry (failure a now t).0 j ≡ entry t j)
      × (entry (drop_attempt a t).0 j ≡ entry t j)
unfolding begin success failure drop_attempt
providers_isolated t name j a now ne e = (
  elim (Option-cases (lookup name t.providers)) [
    | inl m ↦ rw (m, begin)
    | inr (h, m) ↦ rw (m, begin) (put-entry t name j (begin_health name now h).0 ne)
  ],
  on_entry-entry (succeed a now) t a.name j (rw e ne),
  on_entry-entry (fail t.config a now) t a.name j (rw e ne),
  on_entry-entry (λ h. (ignore a h, [])) t a.name j (rw e ne),
)

add_names-lookup :
    (names : List (List ℕ)) (name : List ℕ) (m : List (List ℕ × ProviderHealth))
    → (lookup name m ≡ some new_health) ⊎ (contains name names ≡ true)
    → lookup name (add_names names m) ≡ some new_health
unfolding add_names
add_names-lookup [] name m (inl e) = e
add_names-lookup [] name m (inr e) = cc
add_names-lookup (n ∷ names) name m h = elim (Bool-cases (same n name)) [
  | inl e ↦
      add_names-lookup names name (insert n new_health m)
        (inl (rw (same→eq n name e) (lookup-insert_self name new_health m)))
  | inr e ↦ add_names-lookup names name (insert n new_health m) (elim h [
    | inl p ↦ inl (lookup-insert_ne n name new_health m e ∙ p)
    | inr p ↦ inr (ground arith)
  ])
]

-- A new tracker holds, for each of the names it was made for, a provider that is closed, has no failure
-- counted and is eligible, and `begin` admits its first attempt, which is no half-open trial.
pub new_tracker_admits :
    (names : List (List ℕ)) (config : CircuitConfig) (name : List ℕ) (now : ℕ)
    → contains name names ≡ true
    → let t = new_health_tracker names config in
      (entry t name ≡ some new_health)
      × (eligible name now t ≡ true)
      × ((begin name now t).1 ≡ some (record { name = name; half_open = false; generation = 0 }))
unfolding new_health_tracker eligible begin begin_health eligible_health
new_tracker_admits names config name now h =
    let e = add_names-lookup names name [] (inr h) in (e, rw (e, eligible), rw (e, begin))
