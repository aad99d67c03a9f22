-- ===== src/Benchmark/WellFormed.antt =====
-- internal/benchmark/scenario.go: what a scenario that is validated satisfies.
use route_forge.Base.{
  ℕ, ◌≡◌, refl, ◌⊎◌, inl, inr, true, false, not, ◌||◌, Option, none, some, List, [], ◌∷◌, ◌++◌, map,
  arith, ◌==◌, Bool-cases,
}
use route_forge.Base.Dict.{lookup, text_eq}
use route_forge.Base.Result.{ok, require, >>-eq-ok, require-eq-ok}
use route_forge.Base.Text.{same, same→eq, contains}
use route_forge.Accounting.Price.{is_empty}
use route_forge.Benchmark.Scenario.{
  ProviderSpec, Condition, Measured, Scenario, streaming, non_streaming, validate_condition,
  check_found, check_specs, check_conditions, check_known, check_requests, validate, names_of,
  none_of, is_negative, wrong_version, name_required, wrong_mode, providers_required,
  requests_required, negative_gap, spec_incomplete, provider_repeated, id_required, id_repeated,
  unknown_provider,
}

-- No name is among those seen before, nor twice in the list.
abbrev pub Fresh : List (List ℕ) → List (List ℕ) → Type 0
Fresh seen [] = Unit {0}
Fresh seen (n ∷ names) = (contains n seen ≡ false) × Fresh (n ∷ seen) names

-- Each provider has a condition that is valid in the mode.
abbrev pub HasConditions : List ℕ → List (List ℕ) → List (List ℕ × Condition) → Type 0
HasConditions mode [] conditions = Unit {0}
HasConditions mode (n ∷ names) conditions =
    ((c : Condition) × (lookup n conditions ≡ some c) × (validate_condition mode c ≡ ok tt))
    × HasConditions mode names conditions

-- Each condition is one of a known provider.
abbrev pub Known : List (List ℕ) → List (List ℕ × Condition) → Type 0
Known names [] = Unit {0}
Known names ((n, c) ∷ conditions) = (contains n names ≡ true) × Known names conditions

abbrev pub AllCovered : List ℕ → List (List ℕ) → List Measured → Type 0
AllCovered mode names [] = Unit {0}
AllCovered mode names (r ∷ rs) =
    (HasConditions mode names r.conditions × Known names r.conditions) × AllCovered mode names rs

abbrev pub ids : List Measured → List (List ℕ)
ids rs = map (λ r. r.id) rs

check_specs-Fresh :
    (specs : List ProviderSpec) (seen : List (List ℕ))
    → check_specs specs seen ≡ ok tt
    → Fresh seen (names_of specs)
unfolding check_specs
check_specs-Fresh [] seen e = tt
check_specs-Fresh (s ∷ specs) seen e =
    let (complete, e1) =
      >>-eq-ok (require (not (is_empty s.name || is_empty s.model)) spec_incomplete) _ e in
    let (new, e2) = >>-eq-ok (require (not (contains s.name seen)) provider_repeated) _ e1 in
    (
      ground (arith, require-eq-ok (not (contains s.name seen)) provider_repeated new),
      check_specs-Fresh specs (s.name ∷ seen) e2,
    )

check_found-valid :
    (mode : List ℕ) (o : Option Condition)
    → check_found mode o ≡ ok tt
    → (c : Condition) × (o ≡ some c) × (validate_condition mode c ≡ ok tt)
unfolding check_found
check_found-valid mode none e = cc
check_found-valid mode (some c) e = (c, refl, e)

check_conditions-HasConditions :
    (mode : List ℕ) (names : List (List ℕ)) (conditions : List (List ℕ × Condition))
    → check_conditions mode names conditions ≡ ok tt
    → HasConditions mode names conditions
unfolding check_conditions
check_conditions-HasConditions mode [] conditions e = tt
check_conditions-HasConditions mode (n ∷ names) conditions e =
    let (first, rest) = >>-eq-ok (check_found mode (lookup n conditions)) _ e in
    (
      check_found-valid mode (lookup n conditions) first,
      check_conditions-HasConditions mode names conditions rest,
    )

check_known-Known :
    (names : List (List ℕ)) (conditions : List (List ℕ × Condition))
    → check_known names conditions ≡ ok tt
    → Known names conditions
unfolding check_known
check_known-Known names [] e = tt
check_known-Known names ((n, c) ∷ conditions) e =
    let (first, rest) = >>-eq-ok (require (contains n names) unknown_provider) _ e in
    (require-eq-ok (contains n names) _ first, check_known-Known names conditions rest)

check_requests-lem :
    (mode : List ℕ) (names : List (List ℕ)) (rs : List Measured) (seen : List (List ℕ))
    → check_requests mode names rs seen ≡ ok tt
    → Fresh seen (ids rs) × AllCovered mode names rs
unfolding check_requests
check_requests-lem mode names [] seen e = (tt, tt)
check_requests-lem mode names (r ∷ rs) seen e =
    let (named, e1) = >>-eq-ok (require (not (is_empty r.id)) id_required) _ e in
    let (new, e2) = >>-eq-ok (require (not (contains r.id seen)) id_repeated) _ e1 in
    let (has, e3) = >>-eq-ok (check_conditions mode names r.conditions) _ e2 in
    let (known, e4) = >>-eq-ok (check_known names r.conditions) _ e3 in
    let (fresh, covered) = check_requests-lem mode names rs (r.id ∷ seen) e4 in
    (
      (ground (arith, require-eq-ok (not (contains r.id seen)) id_repeated new), fresh),
      (
        (
          check_conditions-HasConditions mode names r.conditions has,
          check_known-Known names r.conditions known,
        ),
        covered,
      ),
    )

mode_cases :
    (mode : List ℕ)
    → (same mode non_streaming || same mode streaming) ≡ true
    → (mode ≡ non_streaming) ⊎ (mode ≡ streaming)
mode_cases mode e = elim (Bool-cases (same mode non_streaming)) [
  | inl y ↦ inl (same→eq mode non_streaming y)
  | inr n ↦ inr (same→eq mode streaming (ground arith))
]

-- What a run of a scenario relies on.
pub record IsWellFormed (s : Scenario) : Type 0 where
  pub mode : (s.mode ≡ non_streaming) ⊎ (s.mode ≡ streaming)
  pub providers : none_of s.providers ≡ false
  pub gap : is_negative s.inter_request_gap ≡ false
  pub names : Fresh [] (names_of s.providers)
  pub identified : Fresh [] (ids (s.warmup ++ s.requests))
  pub covered : AllCovered s.mode (names_of s.providers) (s.warmup ++ s.requests)

-- In a scenario that is validated the mode is known, the names of the providers are distinct, as are the
-- identifiers of all requests, and each request has a valid condition for each provider and for no
-- other.
pub validate-IsWellFormed : (s : Scenario) → validate s ≡ ok tt → IsWellFormed s
unfolding validate
validate-IsWellFormed s e =
    let (version, e1) = >>-eq-ok (require (s.version == 1) wrong_version) _ e in
    let (name, e2) = >>-eq-ok (require (not (is_empty s.name)) name_required) _ e1 in
    let (mode, e3) =
      >>-eq-ok (require (same s.mode non_streaming || same s.mode streaming) wrong_mode) _ e2 in
    let (some_provider, e4) =
      >>-eq-ok (require (not (none_of s.providers)) providers_required) _ e3 in
    let (some_request, e5) = >>-eq-ok (require (not (none_of s.requests)) requests_required) _ e4 in
    let (gap, e6) = >>-eq-ok (require (not (is_negative s.inter_request_gap)) negative_gap) _ e5 in
    let (specs, requests) = >>-eq-ok (check_specs s.providers []) _ e6 in
    let (fresh, covered) =
      check_requests-lem s.mode (names_of s.providers) (s.warmup ++ s.requests) [] requests in
    record {
      mode = mode_cases s.mode (require-eq-ok _ _ mode);
      providers =
          ground
            (arith, require-eq-ok (not (none_of s.providers)) providers_required some_provider);
      gap = ground (arith, require-eq-ok (not (is_negative s.inter_request_gap)) negative_gap gap);
      names = check_specs-Fresh s.providers [] specs;
      identified = fresh;
      covered = covered;
    }
