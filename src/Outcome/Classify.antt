-- ===== src/Outcome/Classify.antt =====
-- internal/gateway/outcome.go and the fallback test of internal/gateway/service.go: how errors,
-- outcomes and fallback hang together.
use route_forge.Base.{
  ℕ, ◌≤◌, ◌≡◌, refl, sym, ap, ◌↔◌, ◌⊎◌, Bool, true, false, Option, some, List, arith, if◌then◌else◌,
}
use route_forge.Base.Text.{same}
use route_forge.Outcome.{
  Error, provider_error, ProviderOutcome, outcome_success, outcome_canceled, outcome_timeout,
  outcome_unavailable, outcome_rate_limited, outcome_invalid_request, outcome_internal,
  outcome_other_failure, error_invalid_request, error_unavailable, error_timeout,
  error_rate_limited, error_internal, unknown_kind, classify_provider_outcome, degrades_health,
  eligible_for_fallback, outcome_text, http_status_error, error_outcome,
}

fallback-error_outcome : (e : Error) → eligible_for_fallback e ≡ degrades_health (error_outcome e)
unfolding eligible_for_fallback degrades_health error_outcome
fallback-error_outcome (provider_error error_unavailable name cause) = refl
fallback-error_outcome (provider_error error_timeout name cause) = refl
fallback-error_outcome (provider_error error_rate_limited name cause) = refl
fallback-error_outcome (provider_error error_invalid_request name cause) = refl
fallback-error_outcome (provider_error error_internal name cause) = refl
fallback-error_outcome (provider_error (unknown_kind s) name cause) = refl
fallback-error_outcome _ = ground arith

-- An error degrades the provider's health exactly when the request is still live and the error is one
-- that the gateway falls back on; a request that is done only cancels.
pub degrades-classify :
    (ctx_done : Bool) (e : Error)
    → degrades_health (classify_provider_outcome ctx_done (some e))
      ≡ (if ctx_done then false else eligible_for_fallback e)
unfolding classify_provider_outcome degrades_health
degrades-classify true e = refl
degrades-classify false e = sym (fallback-error_outcome e)

-- The gateway falls back on an upstream HTTP status exactly if it is 408, 429, or 500 and above.
pub fallback-status :
    (name : List ℕ) (status : ℕ)
    → (eligible_for_fallback (http_status_error name status) ≡ true)
      ↔ ((status ≡ 408) ⊎ ((status ≡ 429) ⊎ (500 ≤ status)))
unfolding eligible_for_fallback http_status_error
fallback-status name status = grind arith

outcome_of : List ℕ → Option ProviderOutcome
outcome_of s =
    if same s (outcome_text outcome_success)
    then some outcome_success
    else if same s (outcome_text outcome_canceled)
    then some outcome_canceled
    else if same s (outcome_text outcome_timeout)
    then some outcome_timeout
    else if same s (outcome_text outcome_unavailable)
    then some outcome_unavailable
    else if same s (outcome_text outcome_rate_limited)
    then some outcome_rate_limited
    else if same s (outcome_text outcome_invalid_request)
    then some outcome_invalid_request
    else if same s (outcome_text outcome_internal)
    then some outcome_internal
    else some outcome_other_failure

outcome_of-outcome_text : (o : ProviderOutcome) → outcome_of (outcome_text o) ≡ some o
unfolding outcome_of outcome_text
outcome_of-outcome_text outcome_success = refl
outcome_of-outcome_text outcome_canceled = refl
outcome_of-outcome_text outcome_timeout = refl
outcome_of-outcome_text outcome_unavailable = refl
outcome_of-outcome_text outcome_rate_limited = refl
outcome_of-outcome_text outcome_invalid_request = refl
outcome_of-outcome_text outcome_internal = refl
outcome_of-outcome_text outcome_other_failure = refl

-- The names of the outcomes, which are stored in the history, tell them apart.
pub outcome_text-injective : (o p : ProviderOutcome) → outcome_text o ≡ outcome_text p → o ≡ p
outcome_text-injective o p e =
    cc (outcome_of-outcome_text o, outcome_of-outcome_text p, ap outcome_of e)
