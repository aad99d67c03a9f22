-- ===== src/Telemetry.antt =====
-- internal/gateway/telemetry.go: the counters and latency samples of each provider. Times are
-- nanoseconds since Go's zero time, and a duration is an integer: it is negative if the clock went back.
-- A difference of times beyond the int64 range, 292 years, is not cut off. `none` is a nil attempt.
pub mod Rings
pub mod Latest
pub mod Window
pub mod Refine
pub mod Counters
pub mod Samples
use route_forge.Base.{
  ℕ, ◌+◌, ◌%◌, ◌^◌, Bool, true, false, Option, none, some, List, [], ◌∷◌, map, if◌then◌else◌,
}
use route_forge.Base.Dict.{lookup, insert, text_eq}
use route_forge.Base.Int.{ℤ, pos, sub_ℕ}
use route_forge.Outcome.{
  ProviderOutcome, outcome_success, outcome_canceled, outcome_timeout, outcome_unavailable,
  outcome_rate_limited, outcome_invalid_request, outcome_internal, outcome_other_failure,
}
use Rings.{Ring, new_ring, add, snapshot}

pub record LatencySample : Type 0 where
  pub duration : ℤ
  pub observed_at : ℕ

abbrev pub zero_sample : LatencySample
zero_sample = record { duration = pos 0; observed_at = 0 }

pub record ProviderTelemetry : Type 0 where
  pub attempts : ℕ
  pub successes : ℕ
  pub failures : ℕ
  pub cancellations : ℕ
  pub timeouts : ℕ
  pub unavailable_failures : ℕ
  pub rate_limit_failures : ℕ
  pub invalid_request_failures : ℕ
  pub internal_failures : ℕ
  pub other_failures : ℕ
  pub last_attempt : ℕ
  pub last_success : ℕ
  pub last_failure : ℕ
  pub non_streaming_latencies : Ring LatencySample
  pub streaming_ttfc : Ring LatencySample
  pub streaming_durations : Ring ℤ

pub record TelemetryAttempt : Type 0 where
  pub name : List ℕ
  pub started : ℕ
  pub first_content_recorded : Bool

-- `x++` on a uint64.
abbrev pub inc : ℕ → ℕ
inc n = (n + 1) % 2 ^ 64

unfoldable pub new_telemetry : ℕ → ProviderTelemetry
new_telemetry capacity = record {
  attempts = 0;
  successes = 0;
  failures = 0;
  cancellations = 0;
  timeouts = 0;
  unavailable_failures = 0;
  rate_limit_failures = 0;
  invalid_request_failures = 0;
  internal_failures = 0;
  other_failures = 0;
  last_attempt = 0;
  last_success = 0;
  last_failure = 0;
  non_streaming_latencies = new_ring zero_sample capacity;
  streaming_ttfc = new_ring zero_sample capacity;
  streaming_durations = new_ring (pos 0) capacity;
}

record_failure : ProviderOutcome → ProviderTelemetry → ProviderTelemetry
record_failure outcome_timeout p = record p { timeouts = inc p.timeouts }
record_failure outcome_unavailable p = record p {
  unavailable_failures = inc p.unavailable_failures;
}
record_failure outcome_rate_limited p = record p { rate_limit_failures = inc p.rate_limit_failures }
record_failure outcome_invalid_request p = record p {
  invalid_request_failures = inc p.invalid_request_failures;
}
record_failure outcome_internal p = record p { internal_failures = inc p.internal_failures }
record_failure _ p = record p { other_failures = inc p.other_failures }

unfoldable pub record_outcome : ProviderOutcome → ℕ → ProviderTelemetry → ProviderTelemetry
unfolding record_failure
record_outcome outcome_success now p = record p { successes = inc p.successes; last_success = now }
record_outcome outcome_canceled now p = record p { cancellations = inc p.cancellations }
record_outcome o now p =
    record_failure o (record p { failures = inc p.failures; last_failure = now })

abbrev pub Telemetry : Type 0
Telemetry = List (List ℕ × ProviderTelemetry)

unfoldable pub new_tracker : ℕ → List (List ℕ) → Telemetry → Telemetry
new_tracker capacity [] t = t
new_tracker capacity (name ∷ names) t =
    new_tracker capacity names (insert name (new_telemetry capacity) t)

-- What an operation makes of the provider that an attempt points to.
unfoldable pub on_provider :
    (ProviderTelemetry → ProviderTelemetry) → List ℕ → Telemetry → Telemetry
on_provider f name t = elim (lookup name t) [ none ↦ t | some p ↦ insert name (f p) t ]

unfoldable pub begin_attempt : ℕ → ProviderTelemetry → ProviderTelemetry
begin_attempt now p = record p { attempts = inc p.attempts; last_attempt = now }

unfoldable pub begin : List ℕ → ℕ → Telemetry → Telemetry × Option TelemetryAttempt
unfolding begin_attempt
begin name now t = elim (lookup name t) [
  | none ↦ (t, none)
  | some p ↦ (
    insert name (begin_attempt now p) t,
    some (record { name = name; started = now; first_content_recorded = false }),
  )
]

unfoldable pub add_first_content : ℤ → ℕ → ProviderTelemetry → ProviderTelemetry
add_first_content d now p = record p {
  streaming_ttfc = add (record { duration = d; observed_at = now }) p.streaming_ttfc;
}

-- `firstContent`: the duration comes back only at the first call.
unfoldable pub first_content :
    Option TelemetryAttempt → ℕ → Telemetry → Telemetry × Option TelemetryAttempt × Option ℤ
unfolding on_provider add_first_content
first_content none now t = (t, none, none)
first_content (some a) now t = if a.first_content_recorded then (t, some a, none) else (
  on_provider (add_first_content (sub_ℕ now a.started) now) a.name t,
  some (record a { first_content_recorded = true }),
  some (sub_ℕ now a.started),
)

unfoldable pub end_non_streaming : ProviderOutcome → ℤ → ℕ → ProviderTelemetry → ProviderTelemetry
unfolding record_outcome
end_non_streaming o d now p =
    let q = record_outcome o now p in
    record q {
      non_streaming_latencies =
          add (record { duration = d; observed_at = now }) q.non_streaming_latencies;
    }

unfoldable pub finish_non_streaming :
    Option TelemetryAttempt → ProviderOutcome → ℕ → Telemetry → Telemetry × ℤ
unfolding on_provider end_non_streaming
finish_non_streaming none o now t = (t, pos 0)
finish_non_streaming (some a) o now t =
    let d = sub_ℕ now a.started in (on_provider (end_non_streaming o d now) a.name t, d)

unfoldable pub end_streaming : ProviderOutcome → ℤ → ℕ → ProviderTelemetry → ProviderTelemetry
unfolding record_outcome
end_streaming o d now p =
    let q = record_outcome o now p in record q { streaming_durations = add d q.streaming_durations }

unfoldable pub finish_streaming :
    Option TelemetryAttempt → ProviderOutcome → ℕ → Telemetry → Telemetry × ℤ
unfolding on_provider end_streaming
finish_streaming none o now t = (t, pos 0)
finish_streaming (some a) o now t =
    let d = sub_ℕ now a.started in (on_provider (end_streaming o d now) a.name t, d)

-- The samples that the routing policies read. The counters and times of a snapshot are the provider's.
pub record TelemetrySnapshot : Type 0 where
  pub provider : List ℕ
  pub counters : ProviderTelemetry
  pub non_streaming_latencies : List ℤ
  pub streaming_time_to_first_content : List ℤ
  pub streaming_durations : List ℤ
  pub non_streaming_latency_samples : List LatencySample
  pub streaming_first_content_samples : List LatencySample

abbrev pub durations : Ring LatencySample → List ℤ
durations r = map (λ s. s.duration) (snapshot zero_sample r)

unfoldable pub snapshot_of : List ℕ → Telemetry → Option TelemetrySnapshot
snapshot_of name t = elim (lookup name t) [
  | none ↦ none
  | some p ↦ some (record {
    provider = name;
    counters = p;
    non_streaming_latencies = durations p.non_streaming_latencies;
    streaming_time_to_first_content = durations p.streaming_ttfc;
    streaming_durations = snapshot (pos 0) p.streaming_durations;
    non_streaming_latency_samples = snapshot zero_sample p.non_streaming_latencies;
    streaming_first_content_samples = snapshot zero_sample p.streaming_ttfc;
  })
]
