-- ===== src/Service/Visits.antt =====
-- internal/gateway/service.go: what one round of the loop of `Complete` may do.
use route_forge.Base.{
  ℕ, ◌+◌, ◌≡◌, refl, ap, ◌⊎◌, inl, inr, Bool, true, false, not, ◌&&◌, ◌||◌, Option, none, some,
  List, [], ◌∷◌, ◌++◌, arith, Bool-cases, Option-cases,
}
use route_forge.Base.Result.{Result, ok, err}
use route_forge.Accounting.Price.{is_empty}
use route_forge.Circuit.{HealthAttempt}
use route_forge.Circuit.Tracker.{begin}
use route_forge.Outcome.{
  Error, eligible_for_fallback, is_missing_mapping, circuit_open_error, err_no_usable_model_mapping,
}
use route_forge.Runtime.{RoutingVersion}
use route_forge.Service.{
  Request, Response, Reply, World, Config, Call, State, is_logical, target_model,
}
use route_forge.Service.Attempt.{
  Answer, Visit, returns, continues, rename, run_attempt, settle, begun, attempt,
}
use route_forge.Service.Complete.{find_response, looked_up, visit_model, visit_target, cacheable}

unless-both : (a b : Bool) → (a && b) ≡ false → (a ≡ false) ⊎ (b ≡ false)
unless-both false b h = inl refl
unless-both true b h = inr h

module _ (w : World) (c : Config) (version : RoutingVersion) (r : Request) where
  -- A call asks a provider for the model that it is to be asked for, and for nothing else than the request.
  abbrev pub IsAsked : List ℕ → Call → Type 0
  IsAsked name k =
      (k.name ≡ name)
      × (model : List ℕ) × (target_model c r name ≡ ok model)
      × (k.request ≡ record r { model = model })

  -- An error that ends the request: without fallback, not eligible for it, or for a request that is done.
  abbrev pub IsFinal : Error → Type 0
  IsFinal e =
      (c.fallback ≡ false)
      ⊎ (eligible_for_fallback e ≡ false)
      ⊎ ((tick : ℕ) × (w.ctx_done tick ≡ true))

  -- A call that is answered decides: its error is returned, or its response under the model of the request.
  abbrev pub Decides : Call → Answer → Type 0
  Decides k a =
      ((k.reply.error ≡ none) × (a ≡ ok (rename (is_logical r.model) r.model k.reply.response)))
      ⊎ ((e : Error) × (k.reply.error ≡ some e) × IsFinal e × (a ≡ err e))

  -- A call after which the gateway falls back, with the error that it leaves.
  abbrev pub FallsBack : Call → Error → Type 0
  FallsBack k e = (c.fallback ≡ true) × (k.reply.error ≡ some e) × (eligible_for_fallback e ≡ true)

  -- A provider for which the model is missing, and one that is mapped to a model.
  abbrev pub IsUnmapped : List ℕ → Type 0
  IsUnmapped name = (e : Error) × (target_model c r name ≡ err e) × (is_missing_mapping e ≡ true)

  abbrev pub IsMapped : List ℕ → Type 0
  IsMapped name = (model : List ℕ) × (target_model c r name ≡ ok model)

  -- What the cache holds for a provider, under the key of the request.
  abbrev pub IsCached : List ℕ → Response → Type 0
  IsCached name response =
      (model : List ℕ) × (target_model c r name ≡ ok model)
      × (tick : ℕ) × (w.find_cached tick (w.cache_key r name model) ≡ some response)

  -- A visit that answers without a call: the response is cached; or there is no model, and the gateway
  -- does not go on; or the circuit is open, and it does not fall back.
  abbrev pub Stops : List ℕ → Answer → Type 0
  Stops name a =
      ((response : Response) × IsCached name response × (a ≡ ok response))
      ⊎ ((e : Error) × (target_model c r name ≡ err e)
          × ((c.fallback ≡ false) ⊎ (is_missing_mapping e ≡ false))
          × (a ≡ err e))
      ⊎ ((c.fallback ≡ false) × IsMapped name × (a ≡ err (circuit_open_error name)))

  -- The calls made and the answer given when the providers are visited in this order, from the error that
  -- the visits so far have left.
  pub data Trail : Option Error → List (List ℕ) → List Call → Answer → Type 0 where
    unmapped : Trail none [] [] (err err_no_usable_model_mapping)
    exhausted : (e : Error) → Trail (some e) [] [] (err e)
    stops :
        (last : Option Error) (name : List ℕ) (names : List (List ℕ)) (a : Answer)
        → Stops name a
        → Trail last (name ∷ names) [] a
    skips :
        (last : Option Error) (name : List ℕ) (names : List (List ℕ)) (calls : List Call)
        (a : Answer)
        → c.fallback ≡ true
        → IsUnmapped name
        → Trail last names calls a
        → Trail last (name ∷ names) calls a
    is_open :
        (last : Option Error) (name : List ℕ) (names : List (List ℕ)) (calls : List Call)
        (a : Answer)
        → c.fallback ≡ true
        → IsMapped name
        → Trail (some (circuit_open_error name)) names calls a
        → Trail last (name ∷ names) calls a
    decides :
        (last : Option Error) (name : List ℕ) (names : List (List ℕ)) (k : Call) (a : Answer)
        → IsAsked name k
        → Decides k a
        → Trail last (name ∷ names) (k ∷ []) a
    falls :
        (last : Option Error) (name : List ℕ) (names : List (List ℕ)) (k : Call) (calls : List Call)
        (a : Answer) (e : Error)
        → IsAsked name k
        → FallsBack k e
        → Trail (some e) names calls a
        → Trail last (name ∷ names) (k ∷ calls) a

  -- A usable mapping, and only that, has left an error.
  abbrev pub Known : Option Error → Bool → Type 0
  Known none usable = usable ≡ false
  Known (some e) usable = usable ≡ true

  abbrev pub Called : List ℕ → State → State → (Call → Type 0) → Type 0
  Called name s s' P = (k : Call) × (s'.calls ≡ s.calls ++ (k ∷ [])) × IsAsked name k × P k

  -- What one visit may do, after the others have left an error.
  abbrev pub Fair : List ℕ → State → Option Error → Visit → Type 0
  Fair name s last (returns s' a) =
      ((s'.calls ≡ s.calls) × Stops name a) ⊎ Called name s s' (λ k. Decides k a)
  Fair name s last (continues s' left usable) =
      Known left usable
      × (((s'.calls ≡ s.calls) × (c.fallback ≡ true) × IsUnmapped name × (left ≡ last))
          ⊎ (((s'.calls ≡ s.calls)
                × (c.fallback ≡ true)
                × IsMapped name
                × (left ≡ some (circuit_open_error name)))
              ⊎ ((e : Error) × (left ≡ some e) × Called name s s' (λ k. FallsBack k e))))

  -- The calls that a run adds to those of a state, and its answer.
  abbrev pub FromHere : Option Error → List (List ℕ) → State → State × Answer → Type 0
  FromHere last names s result =
      (calls : List Call) × (result.0.calls ≡ s.calls ++ calls) × Trail last names calls result.1

  final-cases :
      (fallback canceled eligible : Bool)
      → (not fallback || (canceled || not eligible)) ≡ true
      → (fallback ≡ false) ⊎ ((eligible ≡ false) ⊎ (canceled ≡ true))
  final-cases false canceled eligible h = inl refl
  final-cases true true eligible h = inr (inr refl)
  final-cases true false false h = inr (inl refl)
  final-cases true false true h = cc

  final :
      (e : Error) (tick : ℕ)
      → (not c.fallback || (w.ctx_done tick || not (eligible_for_fallback e))) ≡ true
      → IsFinal e
  final e tick h = elim (final-cases c.fallback (w.ctx_done tick) (eligible_for_fallback e) h) [
    | inl f ↦ inl f
    | inr (inl f) ↦ inr (inl f)
    | inr (inr f) ↦ inr (inr (tick, f))
  ]

  settle-Fair :
      (name model key : List ℕ) (s t : State) (last : Option Error) (reply : Reply)
      → target_model c r name ≡ ok model
      → t.calls
        ≡ s.calls
          ++ (record { name = name; request = record r { model = model }; reply = reply } ∷ [])
      → Fair name s last (settle w c version r key (t, reply))
  unfolding settle
  settle-Fair name model key s t last reply m e =
      let k : Call = record { name = name; request = record r { model = model }; reply = reply } in
      elim (Option-cases reply.error) [
        | inl n ↦ elim (Bool-cases (not (is_empty key) && not (w.ctx_done t.tick))) [
          | inl b ↦ rw (n, b) (inr (k, e, (refl, model, m, refl), inl (n, refl)))
          | inr b ↦ rw (n, b) (inr (k, e, (refl, model, m, refl), inl (n, refl)))
        ]
        | inr (x, n) ↦
            elim (Bool-cases
              (not c.fallback || (w.ctx_done t.tick || not (eligible_for_fallback x)))) [
                | inl b ↦
                    rw (n, b)
                      (inr (k, e, (refl, model, m, refl), inr (x, n, final x t.tick b, refl)))
                | inr b ↦
                    rw (n, b)
                      (
                        refl,
                        inr (
                            inr (
                              x,
                              refl,
                              (k, e, (refl, model, m, refl), (ground arith, n, ground arith)),
                            )),
                      )
              ]
      ]

  begun-Fair :
      (name model key : List ℕ) (a : Option HealthAttempt) (s t : State) (last : Option Error)
      → target_model c r name ≡ ok model
      → t.calls ≡ s.calls
      → Fair name s last (begun w c version r name model key a t)
  unfolding begun run_attempt
  begun-Fair name model key none s t last m e = elim (Bool-cases (not c.fallback)) [
    | inl b ↦ rw b (inl (e, inr (inr (ground arith, (model, m), refl))))
    | inr b ↦ rw b (refl, inr (inl (e, ground arith, (model, m), refl)))
  ]
  begun-Fair name model key (some a) s t last m e =
      let run = run_attempt w c version r name model a t in
      let k : Call = record { name = name; request = record r { model = model }; reply = run.1 } in
      settle-Fair name model key s run.0 last run.1 m (ap (λ calls. calls ++ (k ∷ [])) e)

  attempt-Fair :
      (name model key : List ℕ) (s t : State) (last : Option Error)
      → target_model c r name ≡ ok model
      → t.calls ≡ s.calls
      → Fair name s last (attempt w c version r name model key t)
  unfolding attempt
  attempt-Fair name model key s t last m e =
      begun-Fair name model key (begin name (w.clock t.tick) t.health).1 s _ last m e

  looked_up-Fair :
      (name model key : List ℕ) (found : Option Response) (s t : State) (last : Option Error)
      → target_model c r name ≡ ok model
      → t.calls ≡ s.calls
      → ((response : Response) → found ≡ some response → IsCached name response)
      → Fair name s last (looked_up w c version r name model key found t)
  unfolding looked_up
  looked_up-Fair name model key none s t last m e h = attempt-Fair name model key s t last m e
  looked_up-Fair name model key (some response) s t last m e h =
      inl (e, inl (response, h response refl, refl))

  found-IsCached :
      (name model : List ℕ) (s : State) (response : Response)
      → target_model c r name ≡ ok model
      → find_response w c version r name (w.cache_key r name model) s ≡ some response
      → IsCached name response
  unfolding find_response
  found-IsCached name model s response m e = (model, m, s.tick + 2, ground arith)

  visit_model-Fair :
      (name model : List ℕ) (s : State) (last : Option Error)
      → target_model c r name ≡ ok model
      → Fair name s last (visit_model w c version r name model s)
  unfolding visit_model
  visit_model-Fair name model s last m =
      let key = w.cache_key r name model in
      elim (Bool-cases (w.cache_enabled && cacheable w c version r name s)) [
        | inl b ↦ rw b (
            looked_up-Fair name model key (find_response w c version r name key s) s _ last m refl
              (λ response e. found-IsCached name model s response m e))
        | inr b ↦ rw b (attempt-Fair name model [] s _ last m refl)
      ]

  pub visit_target-Fair :
      (name : List ℕ) (t : Result Error (List ℕ)) (s : State) (last : Option Error) (usable : Bool)
      → target_model c r name ≡ t
      → Known last usable
      → Fair name s last (visit_target w c version r name t s last usable)
  unfolding visit_target
  visit_target-Fair name (err e) s last usable m k =
      elim (Bool-cases (c.fallback && is_missing_mapping e)) [
        | inl b ↦ rw b (k, inl (refl, ground arith, (e, m, ground arith), refl))
        | inr b ↦ rw b (inl (refl, inr (inl (e, m, unless-both c.fallback _ b, refl))))
      ]
  visit_target-Fair name (ok model) s last usable m k = visit_model-Fair name model s last m
