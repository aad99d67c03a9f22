-- ===== src/HttpErrors.antt =====
-- internal/httpapi/errors.go: the answer of the HTTP API to an error of the gateway. The message, which
-- is a text for people, is left out.
pub mod Statuses
use route_forge.Base.{ℕ, Option, none, some, List}
use route_forge.Base.Text.{codes}
use route_forge.Outcome.{
  ErrorKind, error_invalid_request, error_unavailable, error_timeout, error_rate_limited, Error,
  provider_error, resolution_error, error_unknown_alias, error_missing_mapping,
  unsupported_role_error, err_model_required, err_messages_required, err_streaming_unsupported,
  err_native_model_in_auto, err_no_usable_model_mapping,
}

pub record ApiError : Type 0 where
  pub status : ℕ
  pub kind : List ℕ
  pub param : Option (List ℕ)
  pub code : List ℕ

-- The last error of the chain that `errors.Is` and `errors.As` go through.
unfoldable pub root : Error → Error
root (provider_error kind name cause) = root cause
root e = e

abbrev pub invalid : Option (List ℕ) → List ℕ → ApiError
invalid param code = record {
  status = 400;
  kind = codes "invalid_request_error";
  param = param;
  code = code;
}

abbrev pub server_error : ℕ → List ℕ → ApiError
server_error status code = record {
  status = status;
  kind = codes "server_error";
  param = none;
  code = code;
}

abbrev pub answer_to : ErrorKind → ApiError
answer_to error_invalid_request = invalid none (codes "provider_invalid_request")
answer_to error_rate_limited = record {
  status = 429;
  kind = codes "rate_limit_error";
  param = none;
  code = codes "provider_rate_limited";
}
answer_to error_timeout = server_error 504 (codes "provider_timeout")
answer_to error_unavailable = server_error 503 (codes "provider_unavailable")
answer_to _ = server_error 502 (codes "provider_error")

-- `writeProviderError`.
unfoldable pub write_provider_error : Error → ApiError
write_provider_error (provider_error kind name cause) = answer_to kind
write_provider_error _ = server_error 500 (codes "internal_error")

-- The cases of `writeCompletionError`, by the last error of the chain.
abbrev pub answer_by : Error → Error → ApiError
answer_by err_model_required e = invalid (some (codes "model")) (codes "model_required")
answer_by err_messages_required e = invalid (some (codes "messages")) (codes "messages_required")
answer_by err_streaming_unsupported e =
    invalid (some (codes "stream")) (codes "unsupported_parameter")
answer_by (unsupported_role_error index role) e =
    invalid (some (codes "messages")) (codes "unsupported_value")
answer_by err_native_model_in_auto e = invalid (some (codes "model")) (codes "provider_required")
answer_by (resolution_error error_unknown_alias) e =
    invalid (some (codes "model")) (codes "unknown_model")
answer_by (resolution_error error_missing_mapping) e = server_error 503 (codes "model_unavailable")
answer_by err_no_usable_model_mapping e = server_error 503 (codes "model_unavailable")
answer_by _ e = write_provider_error e

-- `writeCompletionError`.
unfoldable pub write_completion_error : Error → ApiError
unfolding root write_provider_error
write_completion_error e = answer_by (root e) e
