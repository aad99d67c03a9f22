-- ===== src/Service/Attempt.antt =====
-- internal/gateway/service.go: `orderedProviders`, and the attempt at one provider. Traces and metrics
-- are left out.
use route_forge.Base.{
  ℕ, ◌+◌, Bool, true, false, not, ◌&&◌, ◌||◌, Option, none, some, List, [], ◌∷◌, ◌++◌, length,
  if◌then◌else◌,
}
use route_forge.Base.Result.{Result, ok, err}
use route_forge.Accounting.Price.{is_empty}
use route_forge.Accounting.Tracker.{record_attempt}
use route_forge.Circuit.{HealthAttempt}
use route_forge.Circuit.Tracker.{begin}
use route_forge.History.{RequestHistory, start_attempt, finish_attempt}
use route_forge.Outcome.{
  Error, classify_provider_outcome, eligible_for_fallback, circuit_open_error,
}
use route_forge.Routing.Latency.{RequestMode, streaming_mode, non_streaming_mode}
use route_forge.Routing.Policy.{order}
use route_forge.Runtime.{RoutingVersion}
use route_forge.Service.{
  Request, Response, Reply, World, Config, State, is_logical, record_health_outcome,
  candidate_prices, split_eligible,
}
use route_forge.Telemetry.{
  LatencySample, Telemetry, TelemetrySnapshot, snapshot_of, finish_non_streaming,
}
use route_forge.Telemetry

-- `relevantLatency`, of the snapshots by name; a missing one reads as no samples.
unfoldable pub relevant_latency : RequestMode → Telemetry → List ℕ → List LatencySample
relevant_latency mode t name = elim (snapshot_of name t) [
  | none ↦ []
  | some s ↦ elim mode [
    | streaming_mode ↦ s.streaming_first_content_samples
    | non_streaming_mode ↦ s.non_streaming_latency_samples
  ]
]

-- What `Complete` returns: an error, or a response.
abbrev pub Answer : Type 0
Answer = Result Error Response

-- What the loop does with one provider: return, or go on with `lastErr` and `usableMapping`.
pub data Visit : Type 0 where
  returns : State → Answer → Visit
  continues : State → Option Error → Bool → Visit

abbrev pub rename : Bool → List ℕ → Response → Response
rename false model r = r
rename true model r = record r { model = model }

abbrev pub on_history :
    (RequestHistory → RequestHistory) → Option RequestHistory → Option RequestHistory
on_history f none = none
on_history f (some h) = some (f h)

abbrev pub attempt_index : Option RequestHistory → ℕ
attempt_index none = 0
attempt_index (some h) = length h.entry.attempts

module _ (w : World) (c : Config) (version : RoutingVersion) (r : Request) where
  -- `orderedProviders`.
  unfoldable pub ordered_providers : RequestMode → State → List (List ℕ) × State
  ordered_providers mode s =
      let (candidates, others) = split_eligible w s.health s.tick c.providers in
      let (ordered, exploration) =
        order (λ name. name) (relevant_latency mode s.telemetry)
          (candidate_prices c r candidates version.policy) (w.clock (s.tick + length c.providers))
          version.policy mode candidates s.exploration in
      if not c.fallback || not version.rank_eligible then (c.providers, s) else (
        ordered ++ others,
        record s { exploration = exploration; tick = s.tick + length c.providers + 1 },
      )

  -- An admitted attempt: the call, and what is recorded of it. The clock is read when the history and the
  -- telemetry begin, when the health takes the outcome, and when the telemetry and the history end.
  unfoldable pub run_attempt : List ℕ → List ℕ → HealthAttempt → State → State × Reply
  run_attempt name model a s =
      let t = s.tick in
      let request = record r { model = model } in
      let index = attempt_index s.history in
      let started = on_history (start_attempt name model (w.clock t)) s.history in
      let (telemetry, measured) = Telemetry.begin name (w.clock (t + 1)) s.telemetry in
      let reply = w.provide (t + 2) name request in
      let (accounting, cost) =
        record_attempt (record { provider = name; model = model }) reply.response.usage
          s.accounting in
      let outcome = classify_provider_outcome (w.ctx_done (t + 3)) reply.error in
      let (telemetry', duration) =
        finish_non_streaming measured outcome (w.clock (t + 5)) telemetry in
      (
        record s {
          health = record_health_outcome a outcome (w.clock (t + 4)) s.health;
          telemetry = telemetry';
          accounting = accounting;
          history =
              on_history
                (finish_attempt index outcome duration none reply.response.usage cost
                  (w.clock (t + 6)))
                started;
          tick = t + 7;
          calls = s.calls ++ (record { name = name; request = request; reply = reply } ∷ []);
        },
        reply,
      )

  -- The end of an attempt: return the response or the error, or fall back.
  unfoldable pub settle : List ℕ → State × Reply → Visit
  settle key (s, reply) = elim reply.error [
    | none ↦
        let response = rename (is_logical r.model) r.model reply.response in
        returns
          (if not (is_empty key) && not (w.ctx_done s.tick)
            then record s { stored = s.stored ++ ((key, response) ∷ []); tick = s.tick + 1 }
            else record s { tick = s.tick + 1 })
          (ok response)
    | some e ↦
        if not c.fallback || (w.ctx_done s.tick || not (eligible_for_fallback e))
        then returns (record s { tick = s.tick + 1 }) (err e)
        else continues (record s { tick = s.tick + 1 }) (some e) true
  ]

  -- What follows `begin` of the health tracker.
  unfoldable pub begun : List ℕ → List ℕ → List ℕ → Option HealthAttempt → State → Visit
  unfolding run_attempt settle
  begun name model key (some a) s = settle key (run_attempt name model a s)
  begun name model key none s =
      if not c.fallback
      then returns s (err (circuit_open_error name))
      else continues s (some (circuit_open_error name)) true

  -- The attempt at a provider, once the cache has not answered.
  unfoldable pub attempt : List ℕ → List ℕ → List ℕ → State → Visit
  unfolding begun
  attempt name model key s =
      let (health, admitted, seen) = begin name (w.clock s.tick) s.health in
      begun name model key admitted (record s { health = health; tick = s.tick + 1 })
