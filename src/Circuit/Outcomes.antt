-- ===== src/Circuit/Outcomes.antt =====
-- circuit.go: what `begin`, `eligible` and the outcomes of an attempt do to one provider.
use route_forge.Base.{ℕ, ◌≡◌, refl, ◌≢◌, Bool, true, false, none, some, List, [], ◌∷◌, arith}
use route_forge.Circuit.{
  CircuitState, circuit_closed, circuit_open, circuit_half_open, CircuitConfig, ProviderHealth,
  HealthAttempt, Transition, Admission, begin_health, eligible_health, succeed, fail, ignore,
}

pub is_admitted : Admission → Bool
is_admitted (h, none, seen) = false
is_admitted (h, some a, seen) = true

begin-in_eligible :
    (s : CircuitState) (name : List ℕ) (now : ℕ) (h : ProviderHealth)
    → h.state ≡ s
    → eligible_health now h ≡ is_admitted (begin_health name now h)
unfolding begin_health eligible_health is_admitted
begin-in_eligible circuit_closed name now h e = ground arith
begin-in_eligible circuit_open name now h e = ground arith
begin-in_eligible circuit_half_open name now h e = ground arith

-- `eligible` answers true exactly when `begin`, called at the same clock reading on the same
-- provider, would admit the attempt.
pub eligible-begin :
    (name : List ℕ) (now : ℕ) (h : ProviderHealth)
    → eligible_health now h ≡ is_admitted (begin_health name now h)
eligible-begin name now h = begin-in_eligible h.state name now h refl

-- The report of one operation: one transition if the state changed, and none otherwise.
pub change : List ℕ → CircuitState → CircuitState → List Transition
change name circuit_closed circuit_closed = []
change name circuit_open circuit_open = []
change name circuit_half_open circuit_half_open = []
change name from to = record { provider = name; from = from; to = to } ∷ []

-- An outcome that belongs to an earlier generation leaves the provider as it was and reports
-- nothing, whether it is a success, a failure or a cancellation.
pub stale_outcome :
    (c : CircuitConfig) (a : HealthAttempt) (now : ℕ) (h : ProviderHealth)
    → a.generation ≢ h.generation
    → (succeed a now h ≡ (h, [])) × (fail c a now h ≡ (h, [])) × (ignore a h ≡ h)
unfolding succeed fail ignore
stale_outcome c a now h stale = ground arith

begin-change :
    (s : CircuitState) (name : List ℕ) (now : ℕ) (h : ProviderHealth)
    → h.state ≡ s
    → (begin_health name now h).2 ≡ change name h.state (begin_health name now h).0.state
unfolding begin_health change
begin-change circuit_closed name now h e = ground arith
begin-change circuit_open name now h e = ground arith
begin-change circuit_half_open name now h e = ground arith

succeed-change :
    (s : CircuitState) (a : HealthAttempt) (now : ℕ) (h : ProviderHealth)
    → h.state ≡ s
    → (succeed a now h).1 ≡ change a.name h.state (succeed a now h).0.state
unfolding succeed change
succeed-change circuit_closed a now h e = ground arith
succeed-change circuit_open a now h e = ground arith
succeed-change circuit_half_open a now h e = ground arith

fail-change :
    (s : CircuitState) (c : CircuitConfig) (a : HealthAttempt) (now : ℕ) (h : ProviderHealth)
    → h.state ≡ s
    → (fail c a now h).1 ≡ change a.name h.state (fail c a now h).0.state
unfolding fail change
fail-change circuit_closed c a now h e = ground arith
fail-change circuit_open c a now h e = ground arith
fail-change circuit_half_open c a now h e = ground arith

-- The observer hears of every change of a circuit's state and of nothing else: what `begin`, `success`
-- and `failure` report is the one transition between the states before and after, or nothing if
-- these are equal, and `ignore`, which reports nothing, keeps the state.
pub reports_changes :
    (c : CircuitConfig) (name : List ℕ) (a : HealthAttempt) (now : ℕ) (h : ProviderHealth)
    → ((begin_health name now h).2 ≡ change name h.state (begin_health name now h).0.state)
      × ((succeed a now h).1 ≡ change a.name h.state (succeed a now h).0.state)
      × ((fail c a now h).1 ≡ change a.name h.state (fail c a now h).0.state)
      × ((ignore a h).state ≡ h.state)
unfolding ignore
reports_changes c name a now h = (
  begin-change h.state name now h refl,
  succeed-change h.state a now h refl,
  fail-change h.state c a now h refl,
  ground arith,
)
