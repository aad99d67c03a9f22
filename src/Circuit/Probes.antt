-- ===== src/Circuit/Probes.antt =====
-- circuit.go: at most one half-open trial is in flight, in every history.
use route_forge.Base.{
  ℕ, ◌+◌, ◌≤◌, ◌<◌, ◌^◌, ◌≡◌, refl, ◌⊎◌, inl, inr, Bool, true, false, none, some, List, [], ◌∷◌,
  arith, length, Option-cases,
}
use route_forge.Circuit.{
  CircuitState, circuit_closed, circuit_open, circuit_half_open, CircuitConfig, ProviderHealth,
  HealthAttempt, Admission, bump, begin_health, succeed, fail, ignore,
}
use route_forge.Circuit.Live.{
  bit, is_live, live, Known, Known-mono, live_next, live-pick, Known-pick,
}
use route_forge.Circuit.System.{
  System, Event, begins, succeeds, fails, ignores, pick, started, resolve, step, run, idle,
}

-- The trials and the other attempts that may still change the circuit, in each state.
abbrev pub Counts : CircuitState → Bool → ℕ → ℕ → Type 0
Counts circuit_closed flight trials others = (flight ≡ false) × (trials ≡ 0)
Counts circuit_open flight trials others = (flight ≡ false) × (trials ≡ 0) × (others ≡ 0)
Counts circuit_half_open flight trials others = (trials ≡ bit flight) × (others ≡ 0)

pub record Inv (s : System) : Type 0 where
  pub known : Known s.health.generation s.running
  pub counts :
      Counts s.health.state s.health.half_open_in_flight
        (live s.health.generation true s.running)
        (live s.health.generation false s.running)

begin-Inv :
    (name : List ℕ) (now : ℕ) (t : CircuitState) (s : System)
    → s.health.state ≡ t
    → s.health.generation + 1 < 2 ^ 64
    → Inv s
    → Inv (started s.running (begin_health name now s.health))
unfolding begin_health started live
begin-Inv name now circuit_closed s e b v = ground arith
begin-Inv name now circuit_open s e b v = ground (
  arith,
  live_next s.health.generation (bump s.health.generation) true s.running,
  live_next s.health.generation (bump s.health.generation) false s.running,
  Known-mono s.health.generation (bump s.health.generation) s.running,
)
begin-Inv name now circuit_half_open s e b v = ground arith

-- What is known of the attempts that remain when `a` is resolved: of their share in the counts of the
-- generation `g`, and that none of them is of a later generation `k`.
record Rest (g k : ℕ) (running : List HealthAttempt) (a : HealthAttempt) (rest : List HealthAttempt)
    : Type 0 where
  known : Known g rest
  trials : live g true running ≡ bit (is_live g true a) + live g true rest
  others : live g false running ≡ bit (is_live g false a) + live g false rest
  later : Known k rest
  no_trials : live k true rest ≡ 0
  no_others : live k false rest ≡ 0

pick-Rest :
    (g k i : ℕ) (running : List HealthAttempt) (a : HealthAttempt) (rest : List HealthAttempt)
    → pick i running ≡ some (a, rest)
    → g < k
    → Known g running
    → Rest g k running a rest
pick-Rest g k i running a rest p h w =
    let left = (Known-pick g i running a rest p w).1 in
    record {
      known = left;
      trials = live-pick g true i running a rest p;
      others = live-pick g false i running a rest p;
      later = Known-mono g k rest (omega arith) left;
      no_trials = live_next g k true rest h left;
      no_others = live_next g k false rest h left;
    }

module _ (s : System) (a : HealthAttempt) (rest : List HealthAttempt) where
  abbrev Before : Type 0
  Before =
      Rest s.health.generation (bump s.health.generation) s.running a rest
      × (s.health.generation + 1 < 2 ^ 64)
      × Inv s

  succeed-Inv :
      (t : CircuitState) (now : ℕ)
      → s.health.state ≡ t
      → Before
      → Inv (record { health = (succeed a now s.health).0; running = rest })
  unfolding succeed
  succeed-Inv circuit_closed now e b = ground arith
  succeed-Inv circuit_open now e b = ground arith
  succeed-Inv circuit_half_open now e b = ground arith

  fail-Inv :
      (t : CircuitState) (c : CircuitConfig) (now : ℕ)
      → s.health.state ≡ t
      → Before
      → Inv (record { health = (fail c a now s.health).0; running = rest })
  unfolding fail
  fail-Inv circuit_closed c now e b = ground arith
  fail-Inv circuit_open c now e b = ground arith
  fail-Inv circuit_half_open c now e b = ground arith

  ignore-Inv :
      (t : CircuitState)
      → s.health.state ≡ t
      → Before
      → Inv (record { health = ignore a s.health; running = rest })
  unfolding ignore
  ignore-Inv circuit_closed e b = ground arith
  ignore-Inv circuit_open e b = ground arith
  ignore-Inv circuit_half_open e b = ground arith

module _ (c : CircuitConfig) (name : List ℕ) where
  resolved-Inv :
      (f : HealthAttempt → ProviderHealth) (i : ℕ) (s : System)
      → s.health.generation + 1 < 2 ^ 64
      → Inv s
      → ((a : HealthAttempt) (rest : List HealthAttempt)
          → Before s a rest
          → Inv (record { health = f a; running = rest }))
      → Inv (resolve f s (pick i s.running))
  resolved-Inv f i s b v keep = elim (Option-cases (pick i s.running)) [
    | inl e ↦ rw e v
    | inr ((a, rest), e) ↦ rw e (
        keep a rest (
          pick-Rest s.health.generation (bump s.health.generation) i s.running a rest e
              (omega arith) v.known,
          b,
          v,
        ))
  ]

  pub step-Inv :
      (s : System) (e : Event) → s.health.generation + 1 < 2 ^ 64 → Inv s → Inv (step c name s e)
  unfolding step
  step-Inv s (begins now) b v = begin-Inv name now s.health.state s refl b v
  step-Inv s (succeeds i now) b v =
      resolved-Inv (λ a. (succeed a now s.health).0) i s b v
        λ a rest w. succeed-Inv s a rest s.health.state now refl w
  step-Inv s (fails i now) b v =
      resolved-Inv (λ a. (fail c a now s.health).0) i s b v
        λ a rest w. fail-Inv s a rest s.health.state c now refl w
  step-Inv s (ignores i) b v =
      resolved-Inv (λ a. ignore a s.health) i s b v
        λ a rest w. ignore-Inv s a rest s.health.state refl w

  begin-generation :
      (t : CircuitState) (now : ℕ) (h : ProviderHealth)
      → h.state ≡ t
      → (begin_health name now h).0.generation ≤ h.generation + 1
  unfolding begin_health
  begin-generation circuit_closed now h e = ground arith
  begin-generation circuit_open now h e = ground arith
  begin-generation circuit_half_open now h e = ground arith

  started-generation :
      (running : List HealthAttempt) (r : Admission)
      → (started running r).health.generation ≡ r.0.generation
  unfolding started
  started-generation running (h, none, seen) = refl
  started-generation running (h, some a, seen) = refl

  step-generation :
      (s : System) (e : Event) → (step c name s e).health.generation ≤ s.health.generation + 1
  unfolding step succeed fail ignore
  step-generation s (begins now) = omega (
    arith,
    started-generation s.running (begin_health name now s.health),
    begin-generation s.health.state now s.health refl,
  )
  step-generation s (succeeds i now) = ground arith
  step-generation s (fails i now) = ground arith
  step-generation s (ignores i) = ground arith

  run_from-Inv :
      (s : System) (es : List Event)
      → s.health.generation + length es < 2 ^ 64
      → Inv s
      → Inv (run c name s es)
  unfolding run
  run_from-Inv s [] b v = v
  run_from-Inv s (e ∷ es) b v =
      run_from-Inv (step c name s e) es (omega (arith, step-generation s e))
        (step-Inv s e (omega arith) v)

  pub run-Inv : (es : List Event) → length es < 2 ^ 64 → Inv (run c name idle es)
  run-Inv es b =
      run_from-Inv idle es (omega arith)
        (record { known = tt; counts = (refl, unfold live in refl) })

abbrev pub trials_in : CircuitState → Bool → ℕ
trials_in circuit_closed flight = 0
trials_in circuit_open flight = 0
trials_in circuit_half_open flight = bit flight

Counts-trials_in :
    (t : CircuitState) (flight : Bool) (trials others : ℕ)
    → Counts t flight trials others
    → (trials ≡ trials_in t flight) × ((t ≡ circuit_closed) ⊎ (others ≡ 0))
Counts-trials_in circuit_closed flight trials others w = (w.1, inl refl)
Counts-trials_in circuit_open flight trials others w = (w.1, inr w.2)
Counts-trials_in circuit_half_open flight trials others w = (w.0, inr w.1)

-- After fewer than 2^64 operations on a fresh provider, in any order and at any clock readings, the
-- running attempts hold at most one half-open trial of the current generation: one if the provider is
-- half open with its in-flight flag set, and none otherwise. Unless the circuit is closed, no other
-- running attempt is of the current generation.
pub single_probe :
    (c : CircuitConfig) (name : List ℕ) (es : List Event)
    → length es < 2 ^ 64
    → let s = run c name idle es in
      (live s.health.generation true s.running
        ≡ trials_in s.health.state s.health.half_open_in_flight)
      × ((s.health.state ≡ circuit_closed) ⊎ (live s.health.generation false s.running ≡ 0))
single_probe c name es b = Counts-trials_in _ _ _ _ (run-Inv c name es b).counts
