-- ===== src/Circuit.antt =====
-- internal/gateway/circuit.go: the circuit breaker of each provider. Times are nanoseconds since
-- Go's zero time. Every operation takes the reading of the tracker's clock, and returns the
-- transitions that it reports to the observer. A `healthAttempt` points into the tracker's map by the
-- provider's name, whose entry is never replaced.
pub mod Tracker
pub mod Outcomes
pub mod System
pub mod Live
pub mod Probes
pub mod Trip
use route_forge.Base.{
  ℕ, ◌+◌, ◌%◌, ◌^◌, Bool, true, false, not, ◌||◌, Option, none, some, List, [], ◌∷◌, ltb, leb, ◌==◌,
  if◌then◌else◌,
}

pub data CircuitState : Type 0 where
  circuit_closed circuit_open circuit_half_open : CircuitState

pub record CircuitConfig : Type 0 where
  pub failure_threshold : ℕ
  pub open_duration : ℕ

pub record ProviderHealth : Type 0 where
  pub state : CircuitState
  pub generation : ℕ
  pub consecutive_failures : ℕ
  pub last_success : ℕ
  pub last_failure : ℕ
  pub open_until : ℕ
  pub half_open_in_flight : Bool

pub record HealthAttempt : Type 0 where
  pub name : List ℕ
  pub half_open : Bool
  pub generation : ℕ

-- What `notifyTransition` is called with.
pub record Transition : Type 0 where
  pub provider : List ℕ
  pub from : CircuitState
  pub to : CircuitState

-- `generation++` on a uint64.
abbrev pub bump : ℕ → ℕ
bump g = (g + 1) % 2 ^ 64

abbrev pub new_health : ProviderHealth
new_health = record {
  state = circuit_closed;
  generation = 0;
  consecutive_failures = 0;
  last_success = 0;
  last_failure = 0;
  open_until = 0;
  half_open_in_flight = false;
}

abbrev pub Admission : Type 0
Admission = ProviderHealth × Option HealthAttempt × List Transition

admit : List ℕ → Bool → ProviderHealth → List Transition → Admission
admit name trial h seen =
    (h, some (record { name = name; half_open = trial; generation = h.generation }), seen)

begin_open : List ℕ → ℕ → ProviderHealth → Admission
unfolding admit
begin_open name now h =
    if ltb now h.open_until
    then (h, none, [])
    else admit name true
        (record h {
          state = circuit_half_open;
          generation = bump h.generation;
          half_open_in_flight = true;
        })
        (record { provider = name; from = circuit_open; to = circuit_half_open } ∷ [])

begin_half_open : List ℕ → ProviderHealth → Admission
unfolding admit
begin_half_open name h =
    if h.half_open_in_flight
    then (h, none, [])
    else admit name true (record h { half_open_in_flight = true }) []

begin_in : CircuitState → List ℕ → ℕ → ProviderHealth → Admission
unfolding begin_open begin_half_open admit
begin_in circuit_open name now h = begin_open name now h
begin_in circuit_half_open name now h = begin_half_open name h
begin_in circuit_closed name now h = admit name false h []

-- `begin`, once the provider is found.
unfoldable pub begin_health : List ℕ → ℕ → ProviderHealth → Admission
unfolding begin_in
begin_health name now h = begin_in h.state name now h

unfoldable pub eligible_in : CircuitState → ℕ → ProviderHealth → Bool
eligible_in circuit_open now h = not (ltb now h.open_until)
eligible_in circuit_half_open now h = not h.half_open_in_flight
eligible_in circuit_closed now h = true

-- `eligible`, once the provider is found.
unfoldable pub eligible_health : ℕ → ProviderHealth → Bool
unfolding eligible_in
eligible_health now h = eligible_in h.state now h

abbrev pub is_closed : CircuitState → Bool
is_closed circuit_closed = true
is_closed circuit_open = false
is_closed circuit_half_open = false

-- `success`.
pub succeed : HealthAttempt → ℕ → ProviderHealth → ProviderHealth × List Transition
succeed a now h =
    if a.generation == h.generation
    then (
      record h {
        state = circuit_closed;
        generation = if is_closed h.state then h.generation else bump h.generation;
        consecutive_failures = 0;
        last_success = now;
        open_until = 0;
        half_open_in_flight = false;
      },
      if is_closed h.state
          then []
          else record { provider = a.name; from = h.state; to = circuit_closed } ∷ [],
    )
    else (h, [])

-- The report of a failure that opens the circuit: `current != previous`.
opened : List ℕ → CircuitState → List Transition
opened name circuit_open = []
opened name circuit_closed =
    record { provider = name; from = circuit_closed; to = circuit_open } ∷ []
opened name circuit_half_open =
    record { provider = name; from = circuit_half_open; to = circuit_open } ∷ []

-- `failure`.
unfoldable pub fail :
    CircuitConfig → HealthAttempt → ℕ → ProviderHealth → ProviderHealth × List Transition
unfolding opened
fail c a now h =
    if a.generation == h.generation
    then if a.half_open || leb c.failure_threshold (h.consecutive_failures + 1)
      then (
        record h {
          last_failure = now;
          consecutive_failures = h.consecutive_failures + 1;
          state = circuit_open;
          generation = bump h.generation;
          open_until = now + c.open_duration;
          half_open_in_flight = false;
        },
        opened a.name h.state,
      )
      else (record h { last_failure = now; consecutive_failures = h.consecutive_failures + 1 }, [])
    else (h, [])

-- `ignore`.
pub ignore : HealthAttempt → ProviderHealth → ProviderHealth
ignore a h =
    if not a.half_open
    then h
    else if a.generation == h.generation
    then record h { half_open_in_flight = false; generation = bump h.generation }
    else h
