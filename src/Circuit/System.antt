-- ===== src/Circuit/System.antt =====
-- circuit.go: one provider's circuit under any interleaving of the requests that use it. A mutex
-- makes each operation atomic, so a history is a sequence of them. An attempt is resolved once: the
-- gateway calls one of `success`, `failure` and `ignore` for each attempt that `begin` admitted.
use route_forge.Base.{ℕ, zero, suc, Option, none, some, List, [], ◌∷◌}
use route_forge.Circuit.{
  CircuitConfig, ProviderHealth, HealthAttempt, Admission, new_health, begin_health, succeed, fail,
  ignore,
}

-- The provider's health, with the attempts that are still running.
pub record System : Type 0 where
  pub health : ProviderHealth
  pub running : List HealthAttempt

-- The number says which running attempt is resolved, then comes the clock's reading.
pub data Event : Type 0 where
  begins : ℕ → Event
  succeeds fails : ℕ → ℕ → Event
  ignores : ℕ → Event

-- The element at an index, and the others.
unfoldable pub pick {ℓ} : {A : Type ℓ} → ℕ → List A → Option (A × List A)
pick i [] = none
pick zero (x ∷ xs) = some (x, xs)
pick (suc i) (x ∷ xs) = elim (pick i xs) [ none ↦ none | some (y, ys) ↦ some (y, x ∷ ys) ]

unfoldable pub started : List HealthAttempt → Admission → System
started running (h, none, seen) = record { health = h; running = running }
started running (h, some a, seen) = record { health = h; running = a ∷ running }

abbrev pub resolve :
    (HealthAttempt → ProviderHealth) → System → Option (HealthAttempt × List HealthAttempt) → System
resolve f s none = s
resolve f s (some (a, rest)) = record { health = f a; running = rest }

module _ (c : CircuitConfig) (name : List ℕ) where
  unfoldable pub step : System → Event → System
  step s (begins now) = started s.running (begin_health name now s.health)
  step s (succeeds i now) = resolve (λ a. (succeed a now s.health).0) s (pick i s.running)
  step s (fails i now) = resolve (λ a. (fail c a now s.health).0) s (pick i s.running)
  step s (ignores i) = resolve (λ a. ignore a s.health) s (pick i s.running)

  unfoldable pub run : System → List Event → System
  run s [] = s
  run s (e ∷ es) = run (step s e) es

abbrev pub idle : System
idle = record { health = new_health; running = [] }
