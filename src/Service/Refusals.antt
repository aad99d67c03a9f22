-- ===== src/Service/Refusals.antt =====
-- internal/gateway/service.go, internal/openai/types.go and internal/httpapi/errors.go: which requests
-- `Complete` refuses before its loop, and how the client is answered.
use route_forge.Base.{
  ℕ, ◌+◌, ◌≡◌, refl, ◌⊎◌, inl, inr, true, false, not, ◌&&◌, Option, none, some, List, [], ◌∷◌,
  arith, Bool-cases,
}
use route_forge.Base.Result.{err}
use route_forge.HttpErrors.{root, write_provider_error, write_completion_error}
use route_forge.Outcome.{
  Error, unsupported_role_error, err_model_required, err_messages_required,
  err_streaming_unsupported, err_no_providers, err_native_model_in_auto,
}
use route_forge.Runtime.{RoutingVersion}
use route_forge.Service.{
  Message, Request, World, Config, State, is_blank, is_role, is_logical, validate_core,
  validate_roles,
}
use route_forge.Service.Complete.{refuse, complete}
use route_forge.Service.Trail.{Untouched, complete-refuse}

abbrev pub AllRoles : List Message → Type 0
AllRoles [] = Unit {0}
AllRoles (m ∷ messages) = (is_role m.role ≡ true) × AllRoles messages

-- The first message whose role is unknown, counted from an index, gives the error.
abbrev pub FirstUnknown : ℕ → List Message → Error → Type 0
FirstUnknown i [] e = ⊥
FirstUnknown i (m ∷ messages) e =
    ((is_role m.role ≡ false) × (e ≡ unsupported_role_error i m.role))
    ⊎ ((is_role m.role ≡ true) × FirstUnknown (i + 1) messages e)

abbrev pub HasMessages : Request → Type 0
HasMessages r = (m : Message) × (ms : List Message) × (r.messages ≡ m ∷ ms)

-- A request that `ValidateCore` lets through and that asks for no stream.
abbrev pub IsPlain : Request → Type 0
IsPlain r = (is_blank r.model ≡ false) × HasMessages r × (r.stream ≡ false)

-- What is wrong with a request, in the order of the checks, with the error and the HTTP status.
pub data Fault (c : Config) (r : Request) : Error → ℕ → Type 0 where
  no_model : is_blank r.model ≡ true → Fault c r err_model_required 400
  no_messages : is_blank r.model ≡ false → r.messages ≡ [] → Fault c r err_messages_required 400
  streams :
      is_blank r.model ≡ false
      → HasMessages r
      → r.stream ≡ true
      → Fault c r err_streaming_unsupported 400
  bad_role : (e : Error) → IsPlain r → FirstUnknown 0 r.messages e → Fault c r e 400
  no_providers : IsPlain r → AllRoles r.messages → c.providers ≡ [] → Fault c r err_no_providers 500
  native_model :
      (name : List ℕ) (names : List (List ℕ))
      → IsPlain r
      → AllRoles r.messages
      → c.providers ≡ name ∷ names
      → c.fallback ≡ true
      → is_logical r.model ≡ false
      → Fault c r err_native_model_in_auto 400

-- A request without a fault.
pub record Acceptable (c : Config) (r : Request) : Type 0 where
  pub simple : IsPlain r
  pub roles : AllRoles r.messages
  pub provider : (name : List ℕ) × (names : List (List ℕ)) × (c.providers ≡ name ∷ names)
  pub logical : (c.fallback ≡ false) ⊎ (is_logical r.model ≡ true)

roles_cases :
    (i : ℕ) (messages : List Message)
    → ((validate_roles i messages ≡ none) × AllRoles messages)
      ⊎ ((e : Error) × (validate_roles i messages ≡ some e)
          × FirstUnknown i messages e
          × ((write_completion_error e).status ≡ 400))
unfolding validate_roles write_completion_error root
roles_cases i [] = inl (refl, tt)
roles_cases i (m ∷ messages) = elim (Bool-cases (is_role m.role)) [
  | inr b ↦ inr (unsupported_role_error i m.role, rw b refl, inl (b, refl), refl)
  | inl b ↦ elim (roles_cases (i + 1) messages) [
    | inl (n, roles) ↦ inl (rw b n, (b, roles))
    | inr (e, found, first, status) ↦ inr (e, rw b found, inr (b, first), status)
  ]
]

List-cases : {A : Type 0} (xs : List A) → (xs ≡ []) ⊎ ((x : A) × (rest : List A) × (xs ≡ x ∷ rest))
List-cases [] = inl refl
List-cases (x ∷ rest) = inr (x, rest, refl)

core_cases :
    (r : Request)
    → ((validate_core r ≡ some err_model_required) × (is_blank r.model ≡ true))
      ⊎ ((validate_core r ≡ some err_messages_required)
          × (is_blank r.model ≡ false)
          × (r.messages ≡ []))
      ⊎ ((validate_core r ≡ none) × (is_blank r.model ≡ false) × HasMessages r)
unfolding validate_core
core_cases r = elim (Bool-cases (is_blank r.model)) [
  | inl b ↦ inl (rw b refl, b)
  | inr b ↦ elim (List-cases r.messages) [
    | inl m ↦ inr (inl (rw (b, m, validate_core) refl, b, m))
    | inr m ↦ inr (inr (rw (b, m.2, validate_core) refl, b, m))
  ]
]

module _ (w : World) (c : Config) (version : RoutingVersion) (r : Request) where
  abbrev Refuses : Option Error → Type 0
  Refuses o =
      ((e : Error) × (status : ℕ) × (o ≡ some e)
        × Fault c r e status
        × ((write_completion_error e).status ≡ status))
      ⊎ ((o ≡ none) × Acceptable c r)

  -- The checks behind those of the body.
  refuse_later :
      validate_core r ≡ none
      → IsPlain r
      → validate_roles 0 r.messages ≡ none
      → AllRoles r.messages
      → Refuses (refuse w c version r)
  unfolding refuse write_completion_error root write_provider_error
  refuse_later core plain known roles = elim (List-cases c.providers) [
    | inl p ↦ inl (
      err_no_providers,
      500,
      rw (core, plain.2, known, p, refuse) refl,
      no_providers plain roles p,
      refl,
    )
    | inr (name, names, p) ↦ elim (Bool-cases (c.fallback && not (is_logical r.model))) [
      | inl b ↦ inl (
        err_native_model_in_auto,
        400,
        rw (core, plain.2, known, p, b, refuse) refl,
        native_model name names plain roles p (ground arith) (ground arith),
        refl,
      )
      | inr b ↦ inr (
        rw (core, plain.2, known, p, b, refuse) refl,
        record {
          simple = plain;
          roles = roles;
          provider = (name, names, p);
          logical = ground arith;
        },
      )
    ]
  ]

  refuse_cases : Refuses (refuse w c version r)
  unfolding refuse write_completion_error root
  refuse_cases = elim (core_cases r) [
    | inl (core, b) ↦ inl (err_model_required, 400, rw (core, refuse) refl, no_model b, refl)
    | inr (inl (core, b, m)) ↦
        inl (err_messages_required, 400, rw (core, refuse) refl, no_messages b m, refl)
    | inr (inr (core, b, m)) ↦ elim (Bool-cases r.stream) [
      | inl s ↦ inl (err_streaming_unsupported, 400, rw (core, s, refuse) refl, streams b m s, refl)
      | inr s ↦ elim (roles_cases 0 r.messages) [
        | inr (e, found, first, status) ↦
            inl (e, 400, rw (core, s, found, refuse) refl, bad_role e (b, m, s) first, status)
        | inl (known, roles) ↦ refuse_later core (b, m, s) known roles
      ]
    ]
  ]

  -- `Complete` refuses exactly the requests with a fault: a blank model, no messages, a wish for a
  -- stream, a role that is unknown, no providers, or in automatic mode a model of a provider. The first
  -- fault in this order gives the error of the answer, which the HTTP API turns into 400, or 500 if there
  -- are no providers; then no provider is called, and the circuits, the telemetry, the accounting, the
  -- exploration counts and the cache stay as they were. A request without a fault passes all checks.
  pub complete-Fault :
      (s : State)
      → ((e : Error) × (status : ℕ) × Fault c r e status
          × ((complete w c version r s).1 ≡ err e)
          × Untouched w c version r s (complete w c version r s).0
          × ((write_completion_error e).status ≡ status))
        ⊎ (Acceptable c r × (refuse w c version r ≡ none))
  complete-Fault s = elim refuse_cases [
    | inl (e, status, refused, fault, answered) ↦
        let (answer, untouched) = complete-refuse w c version r s e refused in
        inl (e, status, fault, answer, untouched, answered)
    | inr (passed, acceptable) ↦ inr (acceptable, passed)
  ]
