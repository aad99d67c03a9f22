-- ===== src/Service/Passes.antt =====
-- internal/gateway/service.go: what `Stream` may do with one provider.
use mathlib.Core.List.{append-nil}
use route_forge.Base.{
  ℕ, ◌+◌, ◌≡◌, refl, sym, ap, ◌∙◌, ◌⊎◌, inl, inr, Bool, true, false, not, ◌&&◌, Option, none, some,
  List, [], ◌∷◌, ◌++◌, arith, Bool-cases, if◌then◌else◌,
}
use route_forge.Base.Result.{Result, ok, err}
use route_forge.Circuit.{HealthAttempt}
use route_forge.Circuit.Tracker.{begin}
use route_forge.Outcome.{
  Error, is_eof, eligible_for_fallback, is_missing_mapping, circuit_open_error, provider_error,
  error_internal, plain,
}
use route_forge.Runtime.{RoutingVersion}
use route_forge.Service.{Request, Chunk, Source, World, Config, State, Opening, target_model}
use route_forge.Service.Stream.{
  Flow, Delivery, drained, broken, Pass, stops, moves, deliver, end_stream, end_attempt, end_broken,
  ended, sourced, open_attempt, stream_begun, stream_model, stream_target,
}
use route_forge.Service.Delivery.{shown, Delivers, deliver-Delivers}

fallback_test :
    (committed fallback canceled eligible : Bool)
    → (not committed && (fallback && (not canceled && eligible))) ≡ true
    → (committed ≡ false) × (fallback ≡ true) × (eligible ≡ true)
fallback_test committed fallback canceled eligible h = ground arith

module _ (w : World) (c : Config) (version : RoutingVersion) (r : Request) where
  -- The call of a provider's `Stream`, for the model that it is mapped to.
  abbrev pub IsOpened : List ℕ → Opening → Type 0
  IsOpened name o =
      (o.name ≡ name)
      × (model : List ℕ) × (target_model c r name ≡ ok model)
      × (o.request ≡ record r { model = model })

  abbrev pub result_of : Bool → Error → Option Error
  result_of completed e = if completed then none else some e

  -- A stream that decides. It is not opened; or all that it shows is emitted, and its last error is the
  -- result, or none if it is the end of the stream; or the client breaks off, and what it shows first is
  -- emitted.
  abbrev pub Settles : Opening → List Chunk → Option Error → Type 0
  Settles o ks a =
      ((e : Error) × (o.source ≡ err e) × (ks ≡ []) × (a ≡ some e))
      ⊎ (((chunks : List Chunk) × (last : Error) × (o.source ≡ ok (chunks, last))
            × (ks ≡ shown w c version r chunks)
            × (a ≡ result_of (is_eof last) last))
          ⊎ ((chunks : List Chunk) × (last : Error) × (o.source ≡ ok (chunks, last))
              × (rest : List Chunk) × (ks ++ rest ≡ shown w c version r chunks)
              × (e : Error) × (a ≡ some e)))

  -- A stream after which the gateway falls back: nothing of it was shown, and the error is eligible.
  abbrev pub FallsOver : Opening → Type 0
  FallsOver o =
      (c.fallback ≡ true)
      × (e : Error) × (eligible_for_fallback e ≡ true)
      × ((o.source ≡ err e)
          ⊎ ((chunks : List Chunk) × (o.source ≡ ok (chunks, e))
              × (shown w c version r chunks ≡ [])))

  -- The streams opened, the chunks shown, and the result, when the providers are visited in this order.
  pub data Course : List (List ℕ) → List Opening → List Chunk → Option Error → Type 0 where
    ends : (names : List (List ℕ)) (e : Error) → Course names [] [] (some e)
    skips :
        (name : List ℕ) (names : List (List ℕ)) (os : List Opening) (ks : List Chunk)
        (a : Option Error)
        → Course names os ks a
        → Course (name ∷ names) os ks a
    settles :
        (name : List ℕ) (names : List (List ℕ)) (o : Opening) (ks : List Chunk) (a : Option Error)
        → IsOpened name o
        → Settles o ks a
        → Course (name ∷ names) (o ∷ []) ks a
    falls :
        (name : List ℕ) (names : List (List ℕ)) (o : Opening) (os : List Opening) (ks : List Chunk)
        (a : Option Error)
        → IsOpened name o
        → FallsOver o
        → Course names os ks a
        → Course (name ∷ names) (o ∷ os) ks a

  abbrev pub Known : Option Error → Bool → Type 0
  Known none usable = usable ≡ false
  Known (some e) usable = Unit {0}

  -- What a pass may do: it opens no stream and shows nothing, or it opens one.
  abbrev pub Still : State → State → Type 0
  Still s t = (t.opened ≡ s.opened) × (t.emitted ≡ s.emitted)

  abbrev pub Opened : List ℕ → State → Opening → State → Type 0
  Opened name s o t = (t.opened ≡ s.opened ++ (o ∷ [])) × IsOpened name o

  abbrev pub Fair : List ℕ → State → Pass → Type 0
  Fair name s (stops t a) =
      ((e : Error) × (a ≡ some e) × Still s t)
      ⊎ ((o : Opening) × (ks : List Chunk) × Opened name s o t
          × (t.emitted ≡ s.emitted ++ ks)
          × Settles o ks a)
  Fair name s (moves t last usable) =
      Known last usable
      × (Still s t ⊎ ((o : Opening) × Opened name s o t × (t.emitted ≡ s.emitted) × FallsOver o))

  -- The end of an attempt opens and shows nothing.
  end_attempt-Fair :
      (name : List ℕ) (s : State) (f : Flow) (o : Opening) (ks : List Chunk) (completed : Bool)
      (e : Error)
      → Opened name s o f.state
      → f.state.emitted ≡ s.emitted ++ ks
      → Settles o ks (result_of completed e)
      → ((f.committed ≡ true) ⊎ (ks ≡ []))
      → ((o.source ≡ err e)
          ⊎ ((chunks : List Chunk) × (o.source ≡ ok (chunks, e))
              × (shown w c version r chunks ≡ ks)))
      → Fair name s (end_attempt w c version r completed e f)
  unfolding end_attempt end_stream
  end_attempt-Fair name s f o ks true e op em st cm src = inr (o, ks, op, em, st)
  end_attempt-Fair name s f o ks false e op em st cm src =
      let canceled = w.ctx_done (f.state.tick + 2 + 2) in
      elim (Bool-cases
        (not f.committed && (c.fallback && (not canceled && eligible_for_fallback e)))) [
          | inr b ↦ rw b (inr (o, ks, op, em, st))
          | inl b ↦
              let t = fallback_test f.committed c.fallback canceled (eligible_for_fallback e) b in
              let n : ks ≡ [] = elim cm [ inl h ↦ cc | inr h ↦ h ] in
              rw b (
                tt,
                inr (
                  o,
                  op,
                  em ∙ ap (λ xs. s.emitted ++ xs) n ∙ append-nil s.emitted,
                  (t.1, e, t.2, elim src [ inl h ↦ inl h | inr h ↦ inr (h.0, h.1, h.2 ∙ n) ]),
                ),
              )
        ]

  ended-Fair :
      (name : List ℕ) (s : State) (f : Flow) (o : Opening) (chunks : List Chunk) (last : Error)
      (d : Delivery)
      → Opened name s o f.state
      → f.state.emitted ≡ s.emitted
      → f.committed ≡ false
      → o.source ≡ ok (chunks, last)
      → Delivers w c version r f (shown w c version r chunks) d
      → Fair name s (ended w c version r last d)
  unfolding ended
  ended-Fair name s f o chunks last (drained g) op em cm src d =
      end_attempt-Fair name s g o (shown w c version r chunks) (is_eof last) last
        (d.0.1 ∙ op.0, op.1) (d.0.0 ∙ ap (λ xs. xs ++ shown w c version r chunks) em)
        (inr (inl (chunks, last, src, refl, refl))) (elim d.1 [ inl h ↦ inl h | inr h ↦ inr h.0 ])
        (inr (chunks, src, refl))
  ended-Fair name s f o chunks last (broken g e) op em cm src d =
      unfold end_broken end_stream in
      inr (
        o,
        d.0,
        (d.3.1 ∙ op.0, op.1),
        d.3.0 ∙ ap (λ xs. xs ++ d.0) em,
        inr (inr (chunks, last, src, d.1, d.2, e, refl)),
      )

  sourced-Fair :
      (name : List ℕ) (s : State) (f : Flow) (o : Opening) (source : Result Error Source)
      → Opened name s o f.state
      → f.state.emitted ≡ s.emitted
      → f.committed ≡ false
      → o.source ≡ source
      → Fair name s (sourced w c version r source f)
  unfolding sourced
  sourced-Fair name s f o (err e) op em cm src =
      end_attempt-Fair name s f o [] false e op (em ∙ sym (append-nil s.emitted))
        (inl (e, src, refl, refl)) (inr refl) (inl src)
  sourced-Fair name s f o (ok (chunks, last)) op em cm src =
      ended-Fair name s f o chunks last (deliver w c version r chunks f) op em cm src
        (deliver-Delivers w c version r chunks f)

  stream_begun-Fair :
      (name model : List ℕ) (a : Option HealthAttempt) (s t : State)
      → target_model c r name ≡ ok model
      → Still s t
      → Fair name s (stream_begun w c version r name model a t)
  unfolding stream_begun
  stream_begun-Fair name model none s t m e = elim (Bool-cases (not c.fallback)) [
    | inl b ↦ rw b (inl (circuit_open_error name, refl, e))
    | inr b ↦ rw b (tt, inl e)
  ]
  stream_begun-Fair name model (some a) s t m e =
      let request = record r { model = model } in
      let source = w.open_stream (t.tick + 2) name request in
      let o : Opening = record { name = name; request = request; source = source } in
      let f = (open_attempt w c version r name model a t).0 in
      unfold open_attempt in
      sourced-Fair name s f o source (ap (λ xs. xs ++ (o ∷ [])) e.0, (refl, model, m, refl)) e.1
        refl refl

  pub stream_target-Fair :
      (name : List ℕ) (t : Result Error (List ℕ)) (s : State) (last : Option Error) (usable : Bool)
      → target_model c r name ≡ t
      → Known last usable
      → Fair name s (stream_target w c version r name t s last usable)
  unfolding stream_target stream_model
  stream_target-Fair name (err e) s last usable m k =
      elim (Bool-cases (c.fallback && is_missing_mapping e)) [
        | inl b ↦ rw b (k, inl (refl, refl))
        | inr b ↦ rw b (inl (e, refl, (refl, refl)))
      ]
  stream_target-Fair name (ok model) s last usable m k =
      elim (Bool-cases (not (w.can_stream name))) [
        | inl b ↦ rw b (inl (provider_error error_internal name plain, refl, (refl, refl)))
        | inr b ↦ rw b (
            stream_begun-Fair name model (begin name (w.clock s.tick) s.health).1 s _ m
              (refl, refl))
      ]
