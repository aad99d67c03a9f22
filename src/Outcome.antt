-- ===== src/Outcome.antt =====
-- internal/provider/provider.go, internal/provider/http.go and internal/gateway/outcome.go: the errors
-- of the providers and of the gateway, and the outcome that an attempt's error is classified as.
pub mod Classify
use route_forge.Base.{
  ℕ, Bool, true, false, ◌&&◌, ◌||◌, Option, none, some, List, leb, ◌==◌, if◌then◌else◌,
}
use route_forge.Base.Text.{codes}

-- `provider.ErrorKind`, a string type: `unknown_kind` stands for a string that is none of the five.
pub data ErrorKind : Type 0 where
  error_invalid_request error_unavailable error_timeout error_rate_limited error_internal :
      ErrorKind
  unknown_kind : List ℕ → ErrorKind

-- `model.ErrorKind`.
pub data ResolutionKind : Type 0 where
  error_unknown_alias error_missing_mapping : ResolutionKind

-- The error values that the gateway sees. `provider_error` wraps a cause; `plain` is any error that the
-- gateway does not look into.
pub data Error : Type 0 where
  provider_error : ErrorKind → List ℕ → Error → Error
  resolution_error : ResolutionKind → Error
  unsupported_role_error : ℕ → List ℕ → Error
  err_model_required err_messages_required err_streaming_unsupported : Error
  err_no_providers err_native_model_in_auto err_no_usable_model_mapping err_circuit_open : Error
  context_canceled deadline_exceeded eof : Error
  plain : Error

pub data ProviderOutcome : Type 0 where
  outcome_success outcome_canceled outcome_timeout outcome_unavailable : ProviderOutcome
  outcome_rate_limited outcome_invalid_request outcome_internal : ProviderOutcome
  outcome_other_failure : ProviderOutcome

-- `errors.Is(err, context.Canceled)`, which goes through `Unwrap`.
unfoldable pub is_canceled : Error → Bool
is_canceled context_canceled = true
is_canceled (provider_error kind name cause) = is_canceled cause
is_canceled _ = false

-- `errors.Is(err, io.EOF)`.
unfoldable pub is_eof : Error → Bool
is_eof eof = true
is_eof (provider_error kind name cause) = is_eof cause
is_eof _ = false

unfoldable pub kind_outcome : ErrorKind → ProviderOutcome
kind_outcome error_timeout = outcome_timeout
kind_outcome error_unavailable = outcome_unavailable
kind_outcome error_rate_limited = outcome_rate_limited
kind_outcome error_invalid_request = outcome_invalid_request
kind_outcome error_internal = outcome_internal
kind_outcome (unknown_kind s) = outcome_other_failure

error_outcome : Error → ProviderOutcome
unfolding kind_outcome is_canceled
error_outcome (provider_error kind name cause) = kind_outcome kind
error_outcome e = if is_canceled e then outcome_canceled else outcome_other_failure

-- `ctx_done` is `ctx != nil && ctx.Err() != nil`; no error is `none`.
unfoldable pub classify_provider_outcome : Bool → Option Error → ProviderOutcome
unfolding error_outcome
classify_provider_outcome ctx_done none = outcome_success
classify_provider_outcome ctx_done (some e) = if ctx_done then outcome_canceled else error_outcome e

unfoldable pub degrades_health : ProviderOutcome → Bool
degrades_health outcome_timeout = true
degrades_health outcome_unavailable = true
degrades_health outcome_rate_limited = true
degrades_health _ = false

-- `String`.
unfoldable pub outcome_text : ProviderOutcome → List ℕ
outcome_text outcome_success = codes "success"
outcome_text outcome_canceled = codes "cancellation"
outcome_text outcome_timeout = codes "timeout"
outcome_text outcome_unavailable = codes "unavailable"
outcome_text outcome_rate_limited = codes "rate_limited"
outcome_text outcome_invalid_request = codes "invalid_request"
outcome_text outcome_internal = codes "internal"
outcome_text outcome_other_failure = codes "other_failure"

-- `eligibleForFallback`.
unfoldable pub eligible_for_fallback : Error → Bool
eligible_for_fallback (provider_error error_unavailable name cause) = true
eligible_for_fallback (provider_error error_timeout name cause) = true
eligible_for_fallback (provider_error error_rate_limited name cause) = true
eligible_for_fallback _ = false

-- `isMissingMapping`.
unfoldable pub is_missing_mapping : Error → Bool
is_missing_mapping (resolution_error error_missing_mapping) = true
is_missing_mapping (provider_error kind name cause) = is_missing_mapping cause
is_missing_mapping _ = false

-- `circuitOpenError`.
unfoldable pub circuit_open_error : List ℕ → Error
circuit_open_error name = provider_error error_unavailable name err_circuit_open

-- `errors.Is(err, context.Canceled) || errors.Is(err, context.DeadlineExceeded)`, or a network error
-- that says it timed out (`net_timeout`, for an error of the HTTP client).
is_timeout : Bool → Error → Bool
is_timeout net_timeout context_canceled = true
is_timeout net_timeout deadline_exceeded = true
is_timeout net_timeout (provider_error kind name cause) = net_timeout || is_timeout false cause
is_timeout net_timeout e = net_timeout

unfoldable pub transport_error : List ℕ → Bool → Error → Error
unfolding is_timeout
transport_error name net_timeout e =
    provider_error (if is_timeout net_timeout e then error_timeout else error_unavailable) name
      plain

status_kind : ℕ → ErrorKind
status_kind status =
    if status == 408
    then error_timeout
    else if status == 429
    then error_rate_limited
    else if leb 500 status
    then error_unavailable
    else error_invalid_request

unfoldable pub http_status_error : List ℕ → ℕ → Error
unfolding status_kind
http_status_error name status = provider_error (status_kind status) name plain
