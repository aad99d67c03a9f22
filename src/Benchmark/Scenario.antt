-- ===== src/Benchmark/Scenario.antt =====
-- internal/benchmark/scenario.go: scenarios and their validation. The maps of providers and of
-- conditions are visited in the order of their entries, which decides only which error is reported.
use route_forge.Base.{
  ℕ, Bool, true, false, not, ◌&&◌, ◌||◌, Option, none, some, List, [], ◌∷◌, ◌++◌, map, ◌==◌,
  if◌then◌else◌,
}
use route_forge.Base.Dict.{lookup, text_eq}
use route_forge.Base.Int.{ℤ, pos, ltb_ℤ}
use route_forge.Base.Result.{Result, ok, err, ◌>>◌, require}
use route_forge.Base.Text.{codes, same, contains}
use route_forge.Accounting.{Rates, Usage}
use route_forge.Accounting.Price.{is_empty}
use route_forge.Circuit.{CircuitConfig}
use route_forge.Outcome.{ErrorKind, unknown_kind}
use route_forge.Routing.Policy.{RoutingConfig}

abbrev pub non_streaming : List ℕ
non_streaming = codes "non_streaming"

abbrev pub streaming : List ℕ
streaming = codes "streaming"

abbrev pub before_commit : List ℕ
before_commit = codes "before_commit"

abbrev pub after_commit : List ℕ
after_commit = codes "after_commit"

pub record ProviderSpec : Type 0 where
  pub name : List ℕ
  pub model : List ℕ
  pub rates : Rates

-- `ProviderCondition`; a blank `ErrorKind` is `none`.
pub record Condition : Type 0 where
  pub completion_latency : ℤ
  pub ttfc : ℤ
  pub stream_duration : ℤ
  pub error_kind : Option ErrorKind
  pub canceled : Bool
  pub stream_failure : List ℕ
  pub usage : Option Usage

pub record Measured : Type 0 where
  pub id : List ℕ
  pub conditions : List (List ℕ × Condition)

pub record Scenario : Type 0 where
  pub version : ℕ
  pub name : List ℕ
  pub mode : List ℕ
  pub providers : List ProviderSpec
  pub warmup : List Measured
  pub requests : List Measured
  pub inter_request_gap : ℤ
  pub circuit : CircuitConfig
  pub routing : RoutingConfig

pub data ScenarioError : Type 0 where
  wrong_version name_required wrong_mode providers_required requests_required : ScenarioError
  negative_gap spec_incomplete provider_repeated : ScenarioError
  id_required id_repeated lacks_provider unknown_provider : ScenarioError
  negative_duration canceled_with_error unsupported_kind unexpected_failure_point : ScenarioError
  duration_below_ttfc failure_point_required unsupported_failure_point : ScenarioError

abbrev pub is_negative : ℤ → Bool
is_negative d = ltb_ℤ d (pos 0)

-- `ErrorKind != ""`.
abbrev pub has_kind : Option ErrorKind → Bool
has_kind none = false
has_kind (some kind) = true

-- `validErrorKind`, of a kind that is not blank.
abbrev pub valid_error_kind : Option ErrorKind → Bool
valid_error_kind none = true
valid_error_kind (some (unknown_kind s)) = false
valid_error_kind (some _) = true

abbrev pub failed : Condition → Bool
failed c = c.canceled || has_kind c.error_kind

unfoldable pub check_stream : Condition → Result ScenarioError (Unit {0})
check_stream c = do
  require (not (ltb_ℤ c.stream_duration c.ttfc)) duration_below_ttfc
  require (not (failed c && is_empty c.stream_failure)) failure_point_required
  require (failed c || is_empty c.stream_failure) unexpected_failure_point
  require
      (is_empty c.stream_failure
        || (same c.stream_failure before_commit || same c.stream_failure after_commit))
      unsupported_failure_point

-- `validateCondition`.
unfoldable pub validate_condition : List ℕ → Condition → Result ScenarioError (Unit {0})
unfolding check_stream
validate_condition mode c = do
  require
      (not (is_negative c.completion_latency)
        && (not (is_negative c.ttfc) && not (is_negative c.stream_duration)))
      negative_duration
  require (not (c.canceled && has_kind c.error_kind)) canceled_with_error
  require (valid_error_kind c.error_kind) unsupported_kind
  if same mode non_streaming
      then require (is_empty c.stream_failure) unexpected_failure_point
      else check_stream c

-- The names of the specifications, none of which is seen before.
unfoldable pub check_specs : List ProviderSpec → List (List ℕ) → Result ScenarioError (Unit {0})
check_specs [] seen = ok tt
check_specs (s ∷ specs) seen = do
  require (not (is_empty s.name || is_empty s.model)) spec_incomplete
  require (not (contains s.name seen)) provider_repeated
  check_specs specs (s.name ∷ seen)

unfoldable pub check_found : List ℕ → Option Condition → Result ScenarioError (Unit {0})
unfolding validate_condition
check_found mode none = err lacks_provider
check_found mode (some c) = validate_condition mode c

-- Each provider has a valid condition.
unfoldable pub check_conditions :
    List ℕ → List (List ℕ) → List (List ℕ × Condition) → Result ScenarioError (Unit {0})
unfolding check_found
check_conditions mode [] conditions = ok tt
check_conditions mode (n ∷ names) conditions = do
  check_found mode (lookup n conditions)
  check_conditions mode names conditions

-- Each condition has a provider.
unfoldable pub check_known :
    List (List ℕ) → List (List ℕ × Condition) → Result ScenarioError (Unit {0})
check_known names [] = ok tt
check_known names ((n, c) ∷ conditions) = do
  require (contains n names) unknown_provider
  check_known names conditions

unfoldable pub check_requests :
    List ℕ → List (List ℕ) → List Measured → List (List ℕ) → Result ScenarioError (Unit {0})
unfolding check_conditions check_known
check_requests mode names [] seen = ok tt
check_requests mode names (r ∷ rs) seen = do
  require (not (is_empty r.id)) id_required
  require (not (contains r.id seen)) id_repeated
  check_conditions mode names r.conditions
  check_known names r.conditions
  check_requests mode names rs (r.id ∷ seen)

abbrev pub names_of : List ProviderSpec → List (List ℕ)
names_of specs = map (λ s. s.name) specs

abbrev pub none_of {ℓ} : {A : Type ℓ} → List A → Bool
none_of [] = true
none_of (x ∷ xs) = false

-- `Validate`.
unfoldable pub validate : Scenario → Result ScenarioError (Unit {0})
unfolding check_specs check_requests
validate s = do
  require (s.version == 1) wrong_version
  require (not (is_empty s.name)) name_required
  require (same s.mode non_streaming || same s.mode streaming) wrong_mode
  require (not (none_of s.providers)) providers_required
  require (not (none_of s.requests)) requests_required
  require (not (is_negative s.inter_request_gap)) negative_gap
  check_specs s.providers []
  check_requests s.mode (names_of s.providers) (s.warmup ++ s.requests) []
