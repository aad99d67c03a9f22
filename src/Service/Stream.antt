-- ===== src/Service/Stream.antt =====
-- internal/gateway/service.go: `Stream`. A stream is given by its chunks and the error that ends it.
-- Traces and metrics are left out, and `Close` of a stream, which changes nothing here.
use route_forge.Base.{
  ℕ, ◌+◌, Bool, true, false, not, ◌&&◌, Option, none, some, List, [], ◌∷◌, ◌++◌, if◌then◌else◌,
}
use route_forge.Base.Int.{ℤ}
use route_forge.Base.Result.{Result, ok, err}
use route_forge.Accounting.{Usage}
use route_forge.Accounting.Price.{is_empty}
use route_forge.Accounting.Tracker.{record_attempt}
use route_forge.Circuit.{HealthAttempt}
use route_forge.Circuit.Tracker.{HealthTracker, begin, drop_attempt}
use route_forge.History.{start_attempt, finish_attempt}
use route_forge.Outcome.{
  Error, provider_error, error_internal, plain, err_no_providers, err_native_model_in_auto,
  err_no_usable_model_mapping, ProviderOutcome, outcome_success, outcome_canceled,
  classify_provider_outcome, eligible_for_fallback, is_missing_mapping, circuit_open_error, is_eof,
}
use route_forge.Routing.Latency.{streaming_mode}
use route_forge.Runtime.{RoutingVersion}
use route_forge.Service.{
  Request, Chunk, Source, World, Config, State, is_logical, target_model, validate_core,
  validate_roles, record_health_outcome, merge_usage, client_visible,
}
use route_forge.Service.Attempt.{on_history, attempt_index, ordered_providers}
use route_forge.Service.Complete.{begin_history, end_history}
use route_forge.Telemetry.{TelemetryAttempt, first_content, finish_streaming}
use route_forge.Telemetry

-- The variables of one attempt: what it was begun with, and `attemptUsage`, `attemptTTFC` and
-- `committed`.
pub record Flow : Type 0 where
  pub name : List ℕ
  pub model : List ℕ
  pub admitted : HealthAttempt
  pub index : ℕ
  pub measured : Option TelemetryAttempt
  pub usage : Option Usage
  pub ttfc : Option ℤ
  pub committed : Bool
  pub state : State

-- How the loop over the chunks ends: `Next` returns an error, or `emit` does.
pub data Delivery : Type 0 where
  drained : Flow → Delivery
  broken : Flow → Error → Delivery

-- What the loop over the providers does with one: return, or go on.
pub data Pass : Type 0 where
  stops : State → Option Error → Pass
  moves : State → Option Error → Bool → Pass

abbrev pub rename_chunk : Bool → List ℕ → Chunk → Chunk
rename_chunk false model k = k
rename_chunk true model k = record k { model = model }

-- The time to the first content, if it is the first.
abbrev pub measure : Option TelemetryAttempt × Option ℤ → Flow → Flow
measure (measured, none) f = record f { measured = measured }
measure (measured, some d) f = record f { measured = measured; ttfc = some d }

module _ (w : World) (c : Config) (version : RoutingVersion) (r : Request) where
  -- What the end of an attempt records, once the health is known.
  unfoldable pub end_stream : ProviderOutcome → HealthTracker → Flow → State
  end_stream outcome health f =
      let s = f.state in
      let (accounting, cost) =
        record_attempt (record { provider = f.name; model = f.model }) f.usage s.accounting in
      let (telemetry, duration) =
        finish_streaming f.measured outcome (w.clock s.tick) s.telemetry in
      record s {
        health = health;
        telemetry = telemetry;
        accounting = accounting;
        history =
            on_history
              (finish_attempt f.index outcome duration f.ttfc f.usage cost (w.clock (s.tick + 1)))
              s.history;
        tick = s.tick + 2;
      }

  -- The end by an error of `Stream` or of `Next`; `completed` is the test for `io.EOF`.
  unfoldable pub end_attempt : Bool → Error → Flow → Pass
  unfolding end_stream
  end_attempt completed e f =
      let s = f.state in
      let outcome =
        if completed
        then outcome_success
        else classify_provider_outcome (w.ctx_done s.tick) (some e) in
      let health = record_health_outcome f.admitted outcome (w.clock (s.tick + 1)) s.health in
      let s' = end_stream outcome health (record f { state = record s { tick = s.tick + 2 } }) in
      if completed
      then stops s' none
      else if not f.committed
          && (c.fallback && (not (w.ctx_done s'.tick) && eligible_for_fallback e))
      then moves (record s' { tick = s'.tick + 1 }) (some e) true
      else stops (record s' { tick = s'.tick + 1 }) (some e)

  -- The end by an error of `emit`.
  unfoldable pub end_broken : Error → Flow → Pass
  unfolding end_stream
  end_broken e f =
      stops (end_stream outcome_canceled (drop_attempt f.admitted f.state.health).0 f) (some e)

  -- `firstContent`, for a chunk with content.
  unfoldable pub see_content : Chunk → Flow → Flow
  see_content k f =
      let s = f.state in
      let (telemetry, measured, d) = first_content f.measured (w.clock s.tick) s.telemetry in
      if is_empty k.content
      then f
      else measure (measured, d)
          (record f { state = record s { telemetry = telemetry; tick = s.tick + 1 } })

  -- A chunk as the client is given it.
  abbrev pub shown_chunk : Chunk → Chunk
  shown_chunk k = record (rename_chunk (is_logical r.model) r.model k) { usage = none }

  abbrev pub give : Chunk → Flow → Flow
  give k f = record f {
    state = record f.state { emitted = f.state.emitted ++ (k ∷ []); tick = f.state.tick + 1 };
  }

  -- What follows `emit`.
  abbrev pub emitted_to : Option Error → Chunk → Flow → Delivery
  emitted_to (some e) k f = broken (give k f) e
  emitted_to none k f = drained (record (give k f) { committed = true })

  -- One round of the loop over the chunks.
  unfoldable pub deliver_chunk : Chunk → Flow → Delivery
  deliver_chunk k f =
      let merged = record f { usage = merge_usage f.usage k.usage } in
      let seen = see_content k merged in
      if client_visible k
      then emitted_to (w.emit seen.state.tick (shown_chunk k)) (shown_chunk k) seen
      else drained merged

  -- The loop over the chunks.
  unfoldable pub deliver : List Chunk → Flow → Delivery
  deliver [] f = drained f
  deliver (k ∷ chunks) f = elim (deliver_chunk k f) [
    | drained g ↦ deliver chunks g
    | broken g e ↦ broken g e
  ]

  unfoldable pub ended : Error → Delivery → Pass
  unfolding end_attempt end_broken
  ended last (drained f) = end_attempt (is_eof last) last f
  ended last (broken f e) = end_broken e f

  -- What follows `Stream` of the provider.
  unfoldable pub sourced : Result Error Source → Flow → Pass
  unfolding end_attempt deliver ended
  sourced (err e) f = end_attempt false e f
  sourced (ok (chunks, last)) f = ended last (deliver chunks f)

  -- The attempt, up to the call of `Stream`.
  unfoldable pub open_attempt : List ℕ → List ℕ → HealthAttempt → State → Flow × Result Error Source
  open_attempt name model a s =
      let t = s.tick in
      let request = record r { model = model } in
      let (telemetry, measured) = Telemetry.begin name (w.clock (t + 1)) s.telemetry in
      let source = w.open_stream (t + 2) name request in
      (
        record {
          name = name;
          model = model;
          admitted = a;
          index = attempt_index s.history;
          measured = measured;
          usage = none;
          ttfc = none;
          committed = false;
          state = record s {
            telemetry = telemetry;
            history = on_history (start_attempt name model (w.clock t)) s.history;
            tick = t + 3;
            opened = s.opened ++ (record { name = name; request = request; source = source } ∷ []);
          };
        },
        source,
      )

  unfoldable pub stream_begun : List ℕ → List ℕ → Option HealthAttempt → State → Pass
  unfolding open_attempt sourced
  stream_begun name model none s =
      if not c.fallback
      then stops s (some (circuit_open_error name))
      else moves s (some (circuit_open_error name)) true
  stream_begun name model (some a) s =
      let (f, source) = open_attempt name model a s in sourced source f

  unfoldable pub stream_model : List ℕ → List ℕ → State → Pass
  unfolding stream_begun
  stream_model name model s =
      let (health, admitted, seen) = begin name (w.clock s.tick) s.health in
      if not (w.can_stream name)
      then stops s (some (provider_error error_internal name plain))
      else stream_begun name model admitted (record s { health = health; tick = s.tick + 1 })

  unfoldable pub stream_target : List ℕ → Result Error (List ℕ) → State → Option Error → Bool → Pass
  unfolding stream_model
  stream_target name (err e) s last usable =
      if c.fallback && is_missing_mapping e then moves s last usable else stops s (some e)
  stream_target name (ok model) s last usable = stream_model name model s

  abbrev pub give_up_stream : Option Error → Bool → Option Error
  give_up_stream last true = last
  give_up_stream last false = some err_no_usable_model_mapping

  -- The loop over the providers.
  unfoldable pub stream_all : List (List ℕ) → State → Option Error → Bool → State × Option Error
  unfolding stream_target
  stream_all [] s last usable = (s, give_up_stream last usable)
  stream_all (name ∷ names) s last usable =
      elim (stream_target name (target_model c r name) s last usable) [
        | stops s' e ↦ (s', e)
        | moves s' last' usable' ↦ stream_all names s' last' usable'
      ]

  -- The checks before the loop.
  unfoldable pub refuse_stream : Option Error
  refuse_stream = elim (validate_core r) [
    | some e ↦ some e
    | none ↦ elim (validate_roles 0 r.messages) [
      | some e ↦ some e
      | none ↦ elim c.providers [
        | [] ↦ some err_no_providers
        | name ∷ names ↦
            if c.fallback && not (is_logical r.model) then some err_native_model_in_auto else none
      ]
    ]
  ]

  unfoldable pub stream_checked : Option Error → State → State × Option Error
  unfolding ordered_providers stream_all
  stream_checked (some e) s = (s, some e)
  stream_checked none s =
      let (names, s') = ordered_providers w c version r streaming_mode s in
      stream_all names s' none false

  -- `Stream`, with the routing version that `BindRouting` has pinned.
  unfoldable pub stream : State → State × Option Error
  unfolding refuse_stream stream_checked
  stream s =
      let (s', e) = stream_checked refuse_stream (begin_history w c version r s) in
      (end_history w c version r s' e, e)
