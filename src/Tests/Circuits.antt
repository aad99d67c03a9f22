-- ===== src/Tests/Circuits.antt =====
-- circuit.go: a provider with a threshold of two failures and an open duration of ten.
use route_forge.Base.{ℕ, ◌≡◌, refl, ◌⊎◌, true, false, List, [], ◌∷◌, arith, length}
use route_forge.Base.Text.{codes}
use route_forge.Circuit.{
  circuit_closed, circuit_open, circuit_half_open, CircuitConfig, bump, begin_health, fail,
  new_health,
}
use route_forge.Circuit.System.{Event, begins, fails, step, run, idle, started, pick}
use route_forge.Circuit.Live.{live}
use route_forge.Circuit.Probes.{trials_in, single_probe}
use route_forge.Circuit.Trip.{fail_all, AllEarly, Unmoved, stays_open, trips_at_threshold}

abbrev config : CircuitConfig
config = record { failure_threshold = 2; open_duration = 10 }

abbrev openai : List ℕ
openai = codes "openai"

abbrev mock : List ℕ
mock = codes "mock"

-- Two failures, the second at 4, open the circuit until 14.
abbrev failures : List Event
failures = begins 1 ∷ begins 2 ∷ fails 0 3 ∷ fails 0 4 ∷ []

-- A request before 14 is turned away, one at 14 is the trial, and one at 15 is turned away.
abbrev trial : List Event
trial = begins 1 ∷ begins 2 ∷ fails 0 3 ∷ fails 0 4 ∷ begins 13 ∷ begins 14 ∷ begins 15 ∷ []

trial_state : (run config openai idle trial).health.state ≡ circuit_half_open
unfolding run step started pick fail begin_health
trial_state = refl

trial_running : length (run config openai idle trial).running ≡ 1
unfolding run step started pick fail begin_health
trial_running = refl

single_probe_example :
    let s = run config openai idle trial in
    (live s.health.generation true s.running
      ≡ trials_in s.health.state s.health.half_open_in_flight)
    × ((s.health.state ≡ circuit_closed) ⊎ (live s.health.generation false s.running ≡ 0))
single_probe_example = single_probe config openai trial (omega arith)

failures_state : (run config openai idle failures).health.state ≡ circuit_open
unfolding run step started pick fail begin_health
failures_state = refl

abbrev later : List Event
later = begins 5 ∷ begins 13 ∷ []

later_AllEarly : AllEarly (run config openai idle failures).health.open_until later
unfolding run step started pick fail begin_health
later_AllEarly = (omega arith, (omega arith, tt))

stays_open_example :
    Unmoved
      (run config openai idle failures)
      (run config openai (run config openai idle failures) later)
stays_open_example =
    stays_open config openai failures later (omega arith) failures_state later_AllEarly

-- The failure at 4 after the one at 3.
trips_at_threshold_example :
    let before = fail_all config openai 0 (3 ∷ []) new_health in
    let after =
      (fail config (record { name = openai; half_open = false; generation = 0 }) 4 before).0 in
    (before.state ≡ circuit_closed)
    × (after.state ≡ circuit_open)
    × (after.open_until ≡ 14)
    × (after.generation ≡ bump 0)
trips_at_threshold_example =
    trips_at_threshold config openai (3 ∷ []) 4 new_health (refl, refl, refl) refl
