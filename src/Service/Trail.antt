-- ===== src/Service/Trail.antt =====
-- internal/gateway/service.go: which providers `Complete` calls, and what its answer comes from.
use mathlib.Core.List.{Perm, perm_middle}
use mathlib.Core.List.Perm
use route_forge.Base.{
  ℕ, ◌+◌, ◌≡◌, refl, ◌∙◌, ◌⊎◌, inl, inr, not, ◌||◌, Option, none, some, List, [], ◌∷◌, ◌++◌, arith,
  length, Bool-cases, Option-cases,
}
use route_forge.Base.Result.{err}
use route_forge.Circuit.Tracker.{HealthTracker, eligible}
use route_forge.Outcome.{Error}
use route_forge.Routing.Latency.{RequestMode}
use route_forge.Routing.Permutes.{order-perm}
use route_forge.Runtime.{RoutingVersion}
use route_forge.Service.{Request, World, Config, Call, State, split_eligible, candidate_prices}
use route_forge.Service.Attempt.{Answer, ordered_providers, relevant_latency}
use route_forge.Service.Complete.{
  checked, refuse, answer, complete, begin_history, end_history, error_of,
}
use route_forge.Service.Visits.{Trail}

module _ (w : World) (c : Config) (version : RoutingVersion) (r : Request) where
  split_eligible-perm :
      (t : HealthTracker) (tick : ℕ) (names : List (List ℕ))
      → let (able, others) = split_eligible w t tick names in Perm (able ++ others) names
  unfolding split_eligible
  split_eligible-perm t tick [] = Perm.nil
  split_eligible-perm t tick (name ∷ names) = elim (Bool-cases (eligible name (w.clock tick) t)) [
    | inl e ↦ rw e (Perm.cons name (split_eligible-perm t (tick + 1) names))
    | inr e ↦ rw e (
        Perm.trans
          (perm_middle (split_eligible w t (tick + 1) names).0
            (split_eligible w t (tick + 1) names).1)
          (Perm.cons name (split_eligible-perm t (tick + 1) names)))
  ]

  pub ordered_providers-perm :
      (mode : RequestMode) (s : State)
      → Perm (ordered_providers w c version r mode s).0 c.providers
        × ((ordered_providers w c version r mode s).1.calls ≡ s.calls)
        × ((ordered_providers w c version r mode s).1.opened ≡ s.opened)
        × ((ordered_providers w c version r mode s).1.emitted ≡ s.emitted)
  unfolding ordered_providers
  ordered_providers-perm mode s =
      let parts = split_eligible w s.health s.tick c.providers in
      elim (Bool-cases (not c.fallback || not version.rank_eligible)) [
        | inl b ↦ rw b (Perm.refl c.providers, refl, refl, refl)
        | inr b ↦ rw b (
          Perm.trans
              (Perm.append
                (order-perm (λ name. name) (relevant_latency mode s.telemetry)
                  (candidate_prices c r parts.0 version.policy)
                  (w.clock (s.tick + length c.providers)) version.policy mode parts.0 s.exploration)
                (Perm.refl parts.1))
              (split_eligible-perm s.health s.tick c.providers),
          refl,
          refl,
          refl,
        )
      ]

  -- A request that a check refuses makes no call; any other visits the providers in some order, with the
  -- calls and the answer of a trail.
  abbrev pub Run : State → State × Answer → Type 0
  Run s result =
      ((e : Error) × (refuse w c version r ≡ some e)
        × (result.0.calls ≡ s.calls)
        × (result.1 ≡ err e))
      ⊎ ((refuse w c version r ≡ none)
          × (names : List (List ℕ)) × (calls : List Call) × Perm names c.providers
          × (result.0.calls ≡ s.calls ++ calls)
          × Trail w c version r none names calls result.1)

  -- All of the state but the history, its records and the count of questions.
  abbrev pub Untouched : State → State → Type 0
  Untouched s t =
      (t.calls ≡ s.calls)
      × (t.health ≡ s.health)
      × (t.telemetry ≡ s.telemetry)
      × (t.accounting ≡ s.accounting)
      × (t.exploration ≡ s.exploration)
      × (t.stored ≡ s.stored)
      × (t.opened ≡ s.opened)
      × (t.emitted ≡ s.emitted)

  Untouched-refl : (s : State) → Untouched s s
  Untouched-refl s = (refl, refl, refl, refl, refl, refl, refl, refl)

  pub begin_history-Untouched : (s : State) → Untouched s (begin_history w c version r s)
  begin_history-Untouched s = elim (Bool-cases w.recording) [
    | inl b ↦ elim (Option-cases w.new_request_id) [
      | inl n ↦ rw (b, n) (Untouched-refl s)
      | inr (id, n) ↦ rw (b, n) (Untouched-refl s)
    ]
    | inr b ↦ rw b (Untouched-refl s)
  ]

  pub end_history-Untouched :
      (s : State) (e : Option Error) → Untouched s (end_history w c version r s e)
  end_history-Untouched s e = elim (Option-cases s.history) [
    | inl n ↦ rw n (Untouched-refl s)
    | inr (h, n) ↦ rw n (Untouched-refl s)
  ]

  checked-Untouched :
      (o : Option Error) (s t : State) (e : Error)
      → o ≡ some e
      → Untouched s t
      → let (t', a) = checked w c version r o t in
        (a ≡ err e) × Untouched s (end_history w c version r t' (error_of w c version r a))
  unfolding checked
  checked-Untouched none s t e h u = cc
  checked-Untouched (some x) s t e h u =
      let v = end_history-Untouched t (some x) in
      (
        ground arith,
        (v.0 ∙ u.0, v.1 ∙ u.1, v.2 ∙ u.2, v.3 ∙ u.3, v.4 ∙ u.4, v.5 ∙ u.5, v.6 ∙ u.6, v.7 ∙ u.7),
      )

  -- A request that one of the checks refuses is answered with its error and changes nothing else.
  pub complete-refuse :
      (s : State) (e : Error)
      → refuse w c version r ≡ some e
      → ((complete w c version r s).1 ≡ err e) × Untouched s (complete w c version r s).0
  unfolding complete answer
  complete-refuse s e h =
      checked-Untouched (refuse w c version r) s (begin_history w c version r s) e h
        (begin_history-Untouched s)
