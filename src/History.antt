-- ===== src/History.antt =====
-- internal/gateway/persistence.go and internal/persistence/model.go: the record of a request and its
-- attempts, which is submitted when the request ends. `none` is a request that is not recorded. A text
-- is cut off by its bytes, which are its characters as long as it is ASCII.
use route_forge.Base.{
  ℕ, ◌+◌, ◌-◌, ◌/◌, Bool, true, false, Option, none, some, List, [], ◌∷◌, ◌++◌, length, take, ltb,
  set, drop, if◌then◌else◌,
}
use route_forge.Base.Int.{ℤ, pos_part}
use route_forge.Accounting.{Usage}
use route_forge.Outcome.{
  Error, unsupported_role_error, err_model_required, err_messages_required,
  err_streaming_unsupported, err_native_model_in_auto, provider_error, ProviderOutcome,
  outcome_success, outcome_canceled, outcome_invalid_request, outcome_text,
  classify_provider_outcome,
}

pub record AttemptRecord : Type 0 where
  pub attempt_number : ℕ
  pub provider : List ℕ
  pub resolved_provider_model : List ℕ
  pub fallback : Bool
  pub started_at : ℕ
  pub completed_at : ℕ
  pub duration_us : ℕ
  pub ttfc_us : Option ℕ
  pub outcome : List ℕ
  pub input_tokens : Option ℕ
  pub output_tokens : Option ℕ
  pub total_tokens : Option ℕ
  pub estimated_cost_micro_usd : Option ℕ

pub record RequestRecord : Type 0 where
  pub request_id : List ℕ
  pub started_at : ℕ
  pub completed_at : ℕ
  pub routing_policy : List ℕ
  pub streaming : Bool
  pub cache_hit : Bool
  pub logical_model : List ℕ
  pub initial_provider : Option (List ℕ)
  pub final_provider : Option (List ℕ)
  pub outcome : List ℕ
  pub attempt_count : ℕ
  pub fallback_count : ℕ
  pub duration_us : ℕ
  pub attempts : List AttemptRecord

-- `lastOutcome`, if `hasAttempt`.
pub record RequestHistory : Type 0 where
  pub entry : RequestRecord
  pub last_outcome : Option ProviderOutcome

-- `boundedMetadata`.
abbrev pub bounded : List ℕ → ℕ → List ℕ
bounded text maximum = take maximum text

abbrev pub micros : ℤ → ℕ
micros d = pos_part d / 1000

-- `beginRequestHistory`, for a recorder that is enabled: the identifier, the clock, the policy, the
-- stream flag and the model of the request.
unfoldable pub begin_request_history : List ℕ → ℕ → List ℕ → Bool → List ℕ → RequestHistory
begin_request_history id now policy stream model = record {
  entry = record {
    request_id = id;
    started_at = now;
    completed_at = 0;
    routing_policy = bounded policy 32;
    streaming = stream;
    cache_hit = false;
    logical_model = bounded model 256;
    initial_provider = none;
    final_provider = none;
    outcome = [];
    attempt_count = 0;
    fallback_count = 0;
    duration_us = 0;
    attempts = [];
  };
  last_outcome = none;
}

unfoldable pub new_attempt : List ℕ → List ℕ → ℕ → ℕ → AttemptRecord
new_attempt name model index now = record {
  attempt_number = index + 1;
  provider = bounded name 64;
  resolved_provider_model = bounded model 256;
  fallback = ltb 0 index;
  started_at = now;
  completed_at = 0;
  duration_us = 0;
  ttfc_us = none;
  outcome = [];
  input_tokens = none;
  output_tokens = none;
  total_tokens = none;
  estimated_cost_micro_usd = none;
}

abbrev pub first_provider : List ℕ → List AttemptRecord → Option (List ℕ) → Option (List ℕ)
first_provider name [] initial = some (bounded name 64)
first_provider name (a ∷ attempts) initial = initial

unfoldable pub start_attempt : List ℕ → List ℕ → ℕ → RequestHistory → RequestHistory
unfolding new_attempt
start_attempt name model now h = record h {
  entry = record h.entry {
    attempts = h.entry.attempts ++ (new_attempt name model (length h.entry.attempts) now ∷ []);
    initial_provider = first_provider name h.entry.attempts h.entry.initial_provider;
  };
}

abbrev pub or_else : Option (List ℕ) → List ℕ → Option (List ℕ)
or_else none name = some name
or_else (some other) name = some other

unfoldable pub cache_hit : List ℕ → RequestHistory → RequestHistory
cache_hit name h = record h {
  entry = record h.entry {
    cache_hit = true;
    initial_provider = or_else h.entry.initial_provider (bounded name 64);
    final_provider = some (bounded name 64);
  };
}

abbrev pub later : ℕ → ℕ → ℕ
later completed started = if ltb completed started then started else completed

abbrev pub is_success : ProviderOutcome → Bool
is_success outcome_success = true
is_success _ = false

unfoldable pub add_tokens : Option Usage → AttemptRecord → AttemptRecord
add_tokens none a = a
add_tokens (some u) a = record a {
  input_tokens = u.input_tokens;
  output_tokens = u.output_tokens;
  total_tokens = u.total_tokens;
}

-- What the end of an attempt writes to its record.
unfoldable pub end_attempt :
    ProviderOutcome → ℤ → Option ℤ → Option Usage → Option ℕ → ℕ → AttemptRecord → AttemptRecord
unfolding add_tokens
end_attempt o d ttfc usage cost now a = add_tokens usage (record a {
  completed_at = later now a.started_at;
  duration_us = micros d;
  ttfc_us = elim ttfc [ none ↦ a.ttfc_us | some t ↦ some (micros t) ];
  outcome = outcome_text o;
  estimated_cost_micro_usd = elim cost [ none ↦ a.estimated_cost_micro_usd | some c ↦ some c ];
})

-- `finishAttempt`. An index out of range changes nothing.
unfoldable pub finish_attempt :
    ℕ
    → ProviderOutcome
    → ℤ
    → Option ℤ
    → Option Usage
    → Option ℕ
    → ℕ
    → RequestHistory
    → RequestHistory
unfolding end_attempt
finish_attempt index o d ttfc usage cost now h = elim (take 1 (drop index h.entry.attempts)) [
  | [] ↦ h
  | a ∷ rest ↦ record {
    entry = record h.entry {
      attempts = set h.entry.attempts index (end_attempt o d ttfc usage cost now a);
      final_provider = if is_success o then some a.provider else h.entry.final_provider;
    };
    last_outcome = some o;
  }
]

-- The errors that are invalid requests, also where a provider's error wraps them.
unfoldable pub is_invalid_request : Error → Bool
is_invalid_request err_model_required = true
is_invalid_request err_messages_required = true
is_invalid_request err_streaming_unsupported = true
is_invalid_request err_native_model_in_auto = true
is_invalid_request (unsupported_role_error index role) = true
is_invalid_request (provider_error kind name cause) = is_invalid_request cause
is_invalid_request _ = false

-- `requestHistoryOutcome`.
unfoldable pub request_outcome : Bool → Option Error → ProviderOutcome
unfolding is_invalid_request
request_outcome ctx_done none = outcome_success
request_outcome ctx_done (some e) =
    if ctx_done
    then outcome_canceled
    else if is_invalid_request e
    then outcome_invalid_request
    else classify_provider_outcome ctx_done (some e)

-- The outcome that `finish` records: a canceled last attempt stands for a request that failed.
unfoldable pub final_outcome : Bool → Option Error → Option ProviderOutcome → ProviderOutcome
unfolding request_outcome
final_outcome ctx_done (some e) (some outcome_canceled) = outcome_canceled
final_outcome ctx_done e last = request_outcome ctx_done e

-- `finish`: the record that is submitted.
unfoldable pub finish : Bool → Option Error → ℕ → RequestHistory → RequestRecord
unfolding final_outcome
finish ctx_done e now h =
    let completed = later now h.entry.started_at in
    record h.entry {
      completed_at = completed;
      duration_us = (completed - h.entry.started_at) / 1000;
      attempt_count = length h.entry.attempts;
      fallback_count = length h.entry.attempts - 1;
      outcome = outcome_text (final_outcome ctx_done e h.last_outcome);
    }
