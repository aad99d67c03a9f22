-- ===== src/Telemetry/Counters.antt =====
-- internal/gateway/telemetry.go: the counters of a provider stay consistent.
use route_forge.Base.{ℕ, ◌+◌, ◌%◌, ◌^◌, ◌≡◌, List, [], ◌∷◌, arith}
use route_forge.Base.Int.{ℤ}
use route_forge.Outcome.{ProviderOutcome, outcome_success}
use route_forge.Telemetry.{
  ProviderTelemetry, new_telemetry, record_outcome, begin_attempt, add_first_content,
  end_non_streaming, end_streaming,
}

-- The five operations that requests make on a provider's telemetry.
pub data Event : Type 0 where
  begins : ℕ → Event
  first_contents : ℤ → ℕ → Event
  ends_non_streaming ends_streaming : ProviderOutcome → ℤ → ℕ → Event

unfoldable pub step : Event → ProviderTelemetry → ProviderTelemetry
step (begins now) p = begin_attempt now p
step (first_contents d now) p = add_first_content d now p
step (ends_non_streaming o d now) p = end_non_streaming o d now p
step (ends_streaming o d now) p = end_streaming o d now p

unfoldable pub run : List Event → ProviderTelemetry → ProviderTelemetry
run [] p = p
run (e ∷ es) p = run es (step e p)

-- How many attempts a history starts, and how many it ends.
abbrev pub begun : List Event → ℕ
begun [] = 0
begun (begins now ∷ es) = begun es + 1
begun (first_contents d now ∷ es) = begun es
begun (ends_non_streaming o d now ∷ es) = begun es
begun (ends_streaming o d now ∷ es) = begun es

abbrev pub ended : List Event → ℕ
ended [] = 0
ended (begins now ∷ es) = ended es
ended (first_contents d now ∷ es) = ended es
ended (ends_non_streaming o d now ∷ es) = ended es + 1
ended (ends_streaming o d now ∷ es) = ended es + 1

-- The counters, modulo their range, after `m` attempts were started and `n` ended: every end is a
-- success, a failure or a cancellation, and every failure is of one kind.
pub record Balanced (m n : ℕ) (p : ProviderTelemetry) : Type 0 where
  pub starts : p.attempts % 2 ^ 64 ≡ m % 2 ^ 64
  pub outcomes : (p.successes + p.failures + p.cancellations) % 2 ^ 64 ≡ n % 2 ^ 64
  pub kinds :
      p.failures % 2 ^ 64
      ≡ (p.timeouts + p.unavailable_failures + p.rate_limit_failures + p.invalid_request_failures
          + p.internal_failures + p.other_failures)
        % 2 ^ 64

module _ (m n : ℕ) (p : ProviderTelemetry) (b : Balanced m n p) where
  outcome-Balanced : (o : ProviderOutcome) (now : ℕ) → Balanced m (n + 1) (record_outcome o now p)
  unfolding record_outcome
  outcome-Balanced outcome_success now = omega arith
  outcome-Balanced _ now = omega arith

  begin-Balanced : (now : ℕ) → Balanced (m + 1) n (begin_attempt now p)
  unfolding begin_attempt
  begin-Balanced now = omega arith

  first-Balanced : (d : ℤ) (now : ℕ) → Balanced m n (add_first_content d now p)
  unfolding add_first_content
  first-Balanced d now = omega arith

  non_streaming-Balanced :
      (o : ProviderOutcome) (d : ℤ) (now : ℕ) → Balanced m (n + 1) (end_non_streaming o d now p)
  unfolding end_non_streaming
  non_streaming-Balanced o d now =
      let w = outcome-Balanced o now in
      record { starts = w.starts; outcomes = w.outcomes; kinds = w.kinds }

  streaming-Balanced :
      (o : ProviderOutcome) (d : ℤ) (now : ℕ) → Balanced m (n + 1) (end_streaming o d now p)
  unfolding end_streaming
  streaming-Balanced o d now =
      let w = outcome-Balanced o now in
      record { starts = w.starts; outcomes = w.outcomes; kinds = w.kinds }

recount : (m n j k : ℕ) (p : ProviderTelemetry) → m ≡ j → n ≡ k → Balanced m n p → Balanced j k p
recount m n j k p e h b = omega arith

run_from-Balanced :
    (es : List Event) (m n : ℕ) (p : ProviderTelemetry)
    → Balanced m n p
    → Balanced (m + begun es) (n + ended es) (run es p)
unfolding run step
run_from-Balanced [] m n p b = recount m n _ _ p (omega arith) (omega arith) b
run_from-Balanced (begins now ∷ es) m n p b =
    recount _ _ _ _ _ (omega arith) (omega arith)
      (run_from-Balanced es (m + 1) n (begin_attempt now p) (begin-Balanced m n p b now))
run_from-Balanced (first_contents d now ∷ es) m n p b =
    run_from-Balanced es m n (add_first_content d now p) (first-Balanced m n p b d now)
run_from-Balanced (ends_non_streaming o d now ∷ es) m n p b =
    recount _ _ _ _ _ (omega arith) (omega arith) (
      run_from-Balanced es m (n + 1) (end_non_streaming o d now p)
        (non_streaming-Balanced m n p b o d now))
run_from-Balanced (ends_streaming o d now ∷ es) m n p b =
    recount _ _ _ _ _ (omega arith) (omega arith) (
      run_from-Balanced es m (n + 1) (end_streaming o d now p) (streaming-Balanced m n p b o d now))

-- Whatever the operations on a new provider's telemetry, in any order: modulo 2^64, its attempts are
-- those started, its successes, failures and cancellations together are those ended, and its failures
-- are the sum of the six kinds.
pub run-Balanced :
    (capacity : ℕ) (es : List Event)
    → Balanced (begun es) (ended es) (run es (new_telemetry capacity))
unfolding new_telemetry
run-Balanced capacity es =
    recount _ _ _ _ _ (omega arith) (omega arith)
      (run_from-Balanced es 0 0 (new_telemetry capacity) (omega arith))
