-- ===== src/Circuit/Trip.antt =====
-- circuit.go: when failures open the circuit, and how long it stays open.
use route_forge.Base.{
  ℕ, zero, suc, ◌+◌, ◌≤◌, ◌<◌, ◌^◌, ◌≡◌, refl, true, false, some, List, [], ◌∷◌, arith, length,
  Option-cases, ◌≢◌, inl, inr, ap, ◌∙◌,
}
use route_forge.Circuit.{
  circuit_closed, circuit_open, CircuitConfig, ProviderHealth, HealthAttempt, bump, begin_health,
  succeed, fail, ignore,
}
use route_forge.Circuit.System.{
  System, Event, begins, succeeds, fails, ignores, pick, started, resolve, step, run, idle,
}
use route_forge.Circuit.Outcomes.{stale_outcome}
use route_forge.Circuit.Live.{live, bit, is_live, live-pick}
use route_forge.Circuit.Probes.{single_probe}

-- Failures, one after another, of attempts that `begin` admitted while the circuit was closed.
unfoldable pub fail_all : CircuitConfig → List ℕ → ℕ → List ℕ → ProviderHealth → ProviderHealth
fail_all c name g [] h = h
fail_all c name g (now ∷ times) h =
    fail_all c name g times
      (fail c (record { name = name; half_open = false; generation = g }) now h).0

abbrev pub Closed : ℕ → ℕ → ProviderHealth → Type 0
Closed g k h = (h.state ≡ circuit_closed) × (h.generation ≡ g) × (h.consecutive_failures ≡ k)

-- As long as the failures do not reach the threshold, the circuit stays closed and counts them.
pub fail_all-Closed :
    (c : CircuitConfig) (name : List ℕ) (g k : ℕ) (times : List ℕ) (h : ProviderHealth)
    → Closed g k h
    → k + length times < c.failure_threshold
    → Closed g (k + length times) (fail_all c name g times h)
unfolding fail_all fail
fail_all-Closed c name g k [] h w b = ground arith
fail_all-Closed c name g k (now ∷ times) h w b = ground (
  arith,
  fail_all-Closed c name g (k + 1) times
      (record h { last_failure = now; consecutive_failures = h.consecutive_failures + 1 }),
)

-- From a closed circuit with no failures counted, failures of attempts of its generation, one fewer
-- than the threshold, leave it closed; the next failure opens it until the open duration after that
-- failure, and starts a new generation.
pub trips_at_threshold :
    (c : CircuitConfig) (name : List ℕ) (times : List ℕ) (now : ℕ) (h : ProviderHealth)
    → Closed h.generation 0 h
    → length times + 1 ≡ c.failure_threshold
    → let before = fail_all c name h.generation times h in
      let after =
        (fail c
          (record { name = name; half_open = false; generation = h.generation })
          now
          before).0 in
      (before.state ≡ circuit_closed)
      × (after.state ≡ circuit_open)
      × (after.open_until ≡ now + c.open_duration)
      × (after.generation ≡ bump h.generation)
unfolding fail
trips_at_threshold c name times now h w e =
    ground (arith, fail_all-Closed c name h.generation 0 times h w (omega arith))

-- The clock reading of an event, if it has one, is before the deadline.
abbrev pub Early : ℕ → Event → Type 0
Early deadline (begins now) = now < deadline
Early deadline (succeeds i now) = now < deadline
Early deadline (fails i now) = now < deadline
Early deadline (ignores i) = Unit {0}

abbrev pub AllEarly : ℕ → List Event → Type 0
AllEarly deadline [] = Unit {0}
AllEarly deadline (e ∷ es) = Early deadline e × AllEarly deadline es

-- An open circuit that no running attempt belongs to.
abbrev OpenUntil : ℕ → ProviderHealth → List HealthAttempt → Type 0
OpenUntil deadline h running =
    (h.state ≡ circuit_open)
    × (h.open_until ≡ deadline)
    × (live h.generation true running ≡ 0)
    × (live h.generation false running ≡ 0)

-- What becomes of it: its health stays, and no attempt is added.
abbrev pub Unmoved : System → System → Type 0
Unmoved s t = (t.health ≡ s.health) × (length t.running ≤ length s.running)

length-pick :
    (i : ℕ) (xs : List HealthAttempt) (a : HealthAttempt) (rest : List HealthAttempt)
    → pick i xs ≡ some (a, rest)
    → length rest ≤ length xs
unfolding pick
length-pick i [] a rest e = cc
length-pick zero (x ∷ xs) a rest e = ground arith
length-pick (suc i) (x ∷ xs) a rest e = elim (Option-cases (pick i xs)) [
  | inl p ↦ ground arith
  | inr ((y, ys), p) ↦ ground (arith, length-pick i xs y ys p)
]

-- A counted attempt that does not count is of another generation.
dead_attempt :
    (g : ℕ) (a : HealthAttempt)
    → bit (is_live g true a) ≡ 0
    → bit (is_live g false a) ≡ 0
    → a.generation ≢ g
dead_attempt g a t f = ground arith

module _ (deadline : ℕ) (s : System) where
  abbrev Kept : System → Type 0
  Kept t = Unmoved s t × OpenUntil deadline t.health t.running

  resolved-Kept :
      (f : HealthAttempt → ProviderHealth) (i : ℕ)
      → OpenUntil deadline s.health s.running
      → ((a : HealthAttempt) → a.generation ≢ s.health.generation → f a ≡ s.health)
      → Kept (resolve f s (pick i s.running))
  resolved-Kept f i o same = elim (Option-cases (pick i s.running)) [
    | inl e ↦ rw e ((refl, omega arith), o)
    | inr ((a, rest), e) ↦
        let trials = live-pick s.health.generation true i s.running a rest e in
        let others = live-pick s.health.generation false i s.running a rest e in
        let stale = dead_attempt s.health.generation a (omega arith) (omega arith) in
        rw (e, same a stale)
          ((refl, length-pick i s.running a rest e), (o.0, o.1, omega arith, omega arith))
  ]

  step-Kept :
      (c : CircuitConfig) (name : List ℕ) (e : Event)
      → Early deadline e
      → OpenUntil deadline s.health s.running
      → Kept (step c name s e)
  unfolding step
  step-Kept c name (begins now) early o = unfold begin_health started in ground arith
  step-Kept c name (succeeds i now) early o =
      resolved-Kept (λ a. (succeed a now s.health).0) i o
        λ a stale. ap (λ r. r.0) (stale_outcome c a now s.health stale).0
  step-Kept c name (fails i now) early o =
      resolved-Kept (λ a. (fail c a now s.health).0) i o
        λ a stale. ap (λ r. r.0) (stale_outcome c a now s.health stale).1
  step-Kept c name (ignores i) early o =
      resolved-Kept (λ a. ignore a s.health) i o λ a stale. (stale_outcome c a 0 s.health stale).2

run-Unmoved :
    (c : CircuitConfig) (name : List ℕ) (deadline : ℕ) (s : System) (es : List Event)
    → AllEarly deadline es
    → OpenUntil deadline s.health s.running
    → Unmoved s (run c name s es)
unfolding run
run-Unmoved c name deadline s [] early o = (refl, omega arith)
run-Unmoved c name deadline s (e ∷ es) early o =
    let k = step-Kept deadline s c name e early.0 o in
    let r = run-Unmoved c name deadline (step c name s e) es early.1 k.1 in
    (r.0 ∙ k.0.0, omega arith)

-- Once a history of fewer than 2^64 operations on a fresh provider has left its circuit open, any
-- further operations whose clock readings come before `open_until` leave its health exactly as it is,
-- and no attempt is admitted: the number of running attempts does not grow.
pub stays_open :
    (c : CircuitConfig) (name : List ℕ) (es later : List Event)
    → length es < 2 ^ 64
    → (run c name idle es).health.state ≡ circuit_open
    → AllEarly (run c name idle es).health.open_until later
    → Unmoved (run c name idle es) (run c name (run c name idle es) later)
stays_open c name es later b o early =
    let s = run c name idle es in
    let w = single_probe c name es b in
    run-Unmoved c name s.health.open_until s later early
      (o, refl, rw (w.0, o) refl, elim w.1 [ inl e ↦ cc | inr e ↦ e ])
