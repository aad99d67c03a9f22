-- ===== src/Service/Complete.antt =====
-- internal/gateway/service.go: `Complete`: the checks, the cache, the loop over the providers, and the
-- history of the request.
use route_forge.Base.{
  ℕ, ◌+◌, Bool, true, false, not, ◌&&◌, ◌||◌, Option, none, some, List, [], ◌∷◌, ◌++◌,
  if◌then◌else◌,
}
use route_forge.Base.Result.{Result, ok, err}
use route_forge.Accounting.Price.{is_empty}
use route_forge.Circuit.Tracker.{eligible}
use route_forge.History.{begin_request_history, cache_hit, finish}
use route_forge.Outcome.{
  Error, is_missing_mapping, err_streaming_unsupported, err_no_providers, err_native_model_in_auto,
  err_no_usable_model_mapping,
}
use route_forge.Routing.Latency.{non_streaming_mode}
use route_forge.Runtime.{RoutingVersion}
use route_forge.Service.{
  Request, Response, World, Config, State, is_logical, target_model, validate_core, validate_roles,
}
use route_forge.Service.Attempt.{
  Answer, Visit, returns, continues, on_history, ordered_providers, attempt,
}

module _ (w : World) (c : Config) (version : RoutingVersion) (r : Request) where
  -- The test before a look-up, and again after it.
  abbrev pub cacheable : List ℕ → State → Bool
  cacheable name s = eligible name (w.clock s.tick) s.health && not (w.ctx_done (s.tick + 1))

  unfoldable pub find_response : List ℕ → List ℕ → State → Option Response
  find_response name key s =
      if is_empty key || not (cacheable name (record s { tick = s.tick + 3 }))
      then none
      else w.find_cached (s.tick + 2) key

  -- What follows the look-up.
  unfoldable pub looked_up : List ℕ → List ℕ → List ℕ → Option Response → State → Visit
  unfolding attempt
  looked_up name model key (some response) s =
      returns (record s { history = on_history (cache_hit name) s.history }) (ok response)
  looked_up name model key none s = attempt w c version r name model key s

  -- One round of the loop, for a provider whose model is known.
  unfoldable pub visit_model : List ℕ → List ℕ → State → Visit
  unfolding find_response attempt looked_up
  visit_model name model s =
      let key = w.cache_key r name model in
      if w.cache_enabled && cacheable name s
      then looked_up name model key (find_response name key s) (record s { tick = s.tick + 5 })
      else attempt w c version r name model [] (record s { tick = s.tick + 2 })

  unfoldable pub visit_target : List ℕ → Result Error (List ℕ) → State → Option Error → Bool → Visit
  unfolding visit_model
  visit_target name (err e) s last usable =
      if c.fallback && is_missing_mapping e then continues s last usable else returns s (err e)
  visit_target name (ok model) s last usable = visit_model name model s

  unfoldable pub visit : List ℕ → State → Option Error → Bool → Visit
  unfolding visit_target
  visit name s last usable = visit_target name (target_model c r name) s last usable

  -- After the loop. There is a last error whenever a mapping was usable; `nil` would be no error.
  abbrev pub give_up : Option Error → Bool → Response → Answer
  give_up last false zero = err err_no_usable_model_mapping
  give_up none true zero = ok zero
  give_up (some e) true zero = err e

  abbrev pub zero_response : Response
  zero_response = record {
    id = [];
    object = [];
    created = 0;
    model = [];
    choices = [];
    usage = none;
  }

  unfoldable pub visit_all : List (List ℕ) → State → Option Error → Bool → State × Answer
  visit_all [] s last usable = (s, give_up last usable zero_response)
  visit_all (name ∷ names) s last usable = elim (visit name s last usable) [
    | returns s' answer ↦ (s', answer)
    | continues s' last' usable' ↦ visit_all names s' last' usable'
  ]

  -- The checks before the loop.
  unfoldable pub refuse : Option Error
  refuse = elim (validate_core r) [
    | some e ↦ some e
    | none ↦
        if r.stream then some err_streaming_unsupported else elim (validate_roles 0 r.messages) [
          | some e ↦ some e
          | none ↦ elim c.providers [
            | [] ↦ some err_no_providers
            | name ∷ names ↦
                if c.fallback && not (is_logical r.model)
                then some err_native_model_in_auto
                else none
          ]
        ]
  ]

  -- The loop, unless a check has refused the request.
  unfoldable pub checked : Option Error → State → State × Answer
  unfolding ordered_providers visit_all
  checked (some e) s = (s, err e)
  checked none s =
      let (names, s') = ordered_providers w c version r non_streaming_mode s in
      visit_all names s' none false

  unfoldable pub answer : State → State × Answer
  unfolding refuse checked
  answer s = checked refuse s

  abbrev pub begin_history : State → State
  begin_history s =
      if w.recording
      then elim w.new_request_id [
        | none ↦ record s { history = none }
        | some id ↦ record s {
          history =
              some
                (begin_request_history id (w.clock s.tick) version.config.policy r.stream r.model);
          tick = s.tick + 1;
        }
      ]
      else record s { history = none }

  abbrev pub error_of : Answer → Option Error
  error_of (err e) = some e
  error_of (ok response) = none

  -- `history.finish`, which runs when `Complete` or `Stream` returns.
  abbrev pub end_history : State → Option Error → State
  end_history s e = elim s.history [
    | none ↦ s
    | some h ↦ record s {
      history = none;
      tick = s.tick + 2;
      submitted = s.submitted ++ (finish (w.ctx_done (s.tick + 1)) e (w.clock s.tick) h ∷ []);
    }
  ]

  -- `Complete`, with the routing version that `BindRouting` has pinned.
  unfoldable pub complete : State → State × Answer
  unfolding answer
  complete s = let (s', a) = answer (begin_history s) in (end_history s' (error_of a), a)
