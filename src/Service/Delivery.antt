-- ===== src/Service/Delivery.antt =====
-- internal/gateway/service.go: which chunks of a stream reach the client.
use mathlib.Core.List.{append-nil, append_assoc}
use route_forge.Base.{
  ◌+◌, ◌≡◌, refl, sym, ap, ap₂, ◌∙◌, ◌⊎◌, inl, inr, true, Option, none, some, List, [], ◌∷◌, ◌++◌,
  Bool-cases, if◌then◌else◌,
}
use route_forge.Accounting.Price.{is_empty}
use route_forge.Base.Int.{ℤ}
use route_forge.Telemetry.{TelemetryAttempt, first_content}
use route_forge.Outcome.{Error}
use route_forge.Runtime.{RoutingVersion}
use route_forge.Service.{Request, Chunk, World, Config, client_visible, merge_usage}
use route_forge.Service.Stream.{
  Flow, Delivery, drained, broken, measure, see_content, shown_chunk, emitted_to, deliver_chunk,
  deliver,
}

module _ (w : World) (c : Config) (version : RoutingVersion) (r : Request) where
  -- The chunks that the client is shown: those with a role, content or an end, under the model of the
  -- request and without usage.
  abbrev pub shown_one : Chunk → List Chunk
  shown_one k = if client_visible k then shown_chunk w c version r k ∷ [] else []

  abbrev pub shown : List Chunk → List Chunk
  shown [] = []
  shown (k ∷ chunks) = shown_one k ++ shown chunks

  -- Two flows that differ in what is measured and counted.
  abbrev Quiet : Flow → Flow → Type 0
  Quiet f g =
      (g.state.emitted ≡ f.state.emitted)
      × (g.state.opened ≡ f.state.opened)
      × (g.committed ≡ f.committed)

  measure-Quiet :
      (m : Option TelemetryAttempt) (d : Option ℤ) (f : Flow) → Quiet f (measure (m, d) f)
  measure-Quiet m none f = (refl, refl, refl)
  measure-Quiet m (some d) f = (refl, refl, refl)

  see_content-Quiet : (k : Chunk) (f : Flow) → Quiet f (see_content w c version r k f)
  unfolding see_content
  see_content-Quiet k f = elim (Bool-cases (is_empty k.content)) [
    | inl b ↦ rw b (refl, refl, refl)
    | inr b ↦
        let s = f.state in
        let (telemetry, measured, d) = first_content f.measured (w.clock s.tick) s.telemetry in
        rw b (
          measure-Quiet measured d
            (record f { state = record s { telemetry = telemetry; tick = s.tick + 1 } }))
  ]

  -- Chunks emitted after those of a flow, to no newly opened stream.
  abbrev pub Emits : Flow → List Chunk → Flow → Type 0
  Emits f ks g = (g.state.emitted ≡ f.state.emitted ++ ks) × (g.state.opened ≡ f.state.opened)

  -- The loop either shows all chunks, and has committed if there was one, or shows the first of them.
  abbrev pub Delivers : Flow → List Chunk → Delivery → Type 0
  Delivers f ks (drained g) =
      Emits f ks g × ((g.committed ≡ true) ⊎ ((ks ≡ []) × (g.committed ≡ f.committed)))
  Delivers f ks (broken g e) =
      (front : List Chunk) × (back : List Chunk) × (front ++ back ≡ ks) × Emits f front g

  -- What is delivered after a first part.
  Delivers-append :
      (f g : Flow) (ks ls : List Chunk) (d : Delivery)
      → Delivers f ks (drained g)
      → Delivers g ls d
      → Delivers f (ks ++ ls) d
  Delivers-append f g ks ls (drained h) p q = (
    (q.0.0 ∙ ap (λ xs. xs ++ ls) p.0.0 ∙ append_assoc f.state.emitted ks ls, q.0.1 ∙ p.0.1),
    elim q.1 [
      | inl t ↦ inl t
      | inr t ↦ elim p.1 [
        | inl u ↦ inl (t.1 ∙ u)
        | inr u ↦ inr (ap₂ (λ xs ys. xs ++ ys) u.0 t.0, t.1 ∙ u.1)
      ]
    ],
  )
  Delivers-append f g ks ls (broken h x) p q = (
    ks ++ q.0,
    q.1,
    append_assoc ks q.0 q.1 ∙ ap (λ xs. ks ++ xs) q.2,
    (q.3.0 ∙ ap (λ xs. xs ++ q.0) p.0.0 ∙ append_assoc f.state.emitted ks q.0, q.3.1 ∙ p.0.1),
  )

  emitted_to-Delivers :
      (e : Option Error) (k : Chunk) (f g : Flow)
      → Quiet f g
      → Delivers f (k ∷ []) (emitted_to w c version r e k g)
  emitted_to-Delivers none k f g q = ((ap (λ xs. xs ++ (k ∷ [])) q.0, q.1), inl refl)
  emitted_to-Delivers (some e) k f g q = (k ∷ [], [], refl, (ap (λ xs. xs ++ (k ∷ [])) q.0, q.1))

  deliver_chunk-Delivers :
      (k : Chunk) (f : Flow) → Delivers f (shown_one k) (deliver_chunk w c version r k f)
  unfolding deliver_chunk
  deliver_chunk-Delivers k f =
      let merged = record f { usage = merge_usage f.usage k.usage } in
      let seen = see_content w c version r k merged in
      elim (Bool-cases (client_visible k)) [
        | inl b ↦ rw b (emitted_to-Delivers _ _ f seen (see_content-Quiet k merged))
        | inr b ↦ rw b ((sym (append-nil f.state.emitted), refl), inr (refl, refl))
      ]

  after-Delivers :
      (f : Flow) (ks : List Chunk) (chunks : List Chunk) (d : Delivery)
      → Delivers f ks d
      → ((g : Flow) → Delivers g (shown chunks) (deliver w c version r chunks g))
      → Delivers f
          (ks ++ shown chunks)
          (elim d [ drained g ↦ deliver w c version r chunks g | broken g e ↦ broken g e ])
  after-Delivers f ks chunks (drained g) p next = Delivers-append f g ks (shown chunks) _ p (next g)
  after-Delivers f ks chunks (broken g e) p next = (
    p.0,
    p.1 ++ shown chunks,
    sym (append_assoc p.0 p.1 (shown chunks)) ∙ ap (λ xs. xs ++ shown chunks) p.2,
    p.3,
  )

  pub deliver-Delivers :
      (chunks : List Chunk) (f : Flow) → Delivers f (shown chunks) (deliver w c version r chunks f)
  unfolding deliver
  deliver-Delivers [] f = ((sym (append-nil f.state.emitted), refl), inr (refl, refl))
  deliver-Delivers (k ∷ chunks) f =
      after-Delivers f (shown_one k) chunks (deliver_chunk w c version r k f)
        (deliver_chunk-Delivers k f) (deliver-Delivers chunks)
