-- ===== src/Telemetry/Samples.antt =====
-- internal/gateway/telemetry.go: which samples the rings of a provider hold.
use route_forge.Base.{ℕ, ◌≡◌, refl, ap, ◌∙◌, List, [], ◌∷◌}
use route_forge.Base.Int.{ℤ, pos}
use route_forge.Outcome.{ProviderOutcome, outcome_success}
use route_forge.Telemetry.{
  ProviderTelemetry, LatencySample, zero_sample, new_telemetry, record_outcome, begin_attempt,
  add_first_content, end_non_streaming, end_streaming,
}
use route_forge.Telemetry.Rings.{Ring, new_ring, add, snapshot}
use route_forge.Telemetry.Latest.{latest}
use route_forge.Telemetry.Refine.{add_all, snapshot-add_all}
use route_forge.Telemetry.Counters.{
  Event, begins, first_contents, ends_non_streaming, ends_streaming, step, run,
}

-- The samples that a history gives for complete answers, for first contents, and for whole streams.
abbrev pub completions : List Event → List LatencySample
completions [] = []
completions (ends_non_streaming o d now ∷ es) =
    record { duration = d; observed_at = now } ∷ completions es
completions (begins now ∷ es) = completions es
completions (first_contents d now ∷ es) = completions es
completions (ends_streaming o d now ∷ es) = completions es

abbrev pub contents : List Event → List LatencySample
contents [] = []
contents (first_contents d now ∷ es) = record { duration = d; observed_at = now } ∷ contents es
contents (begins now ∷ es) = contents es
contents (ends_non_streaming o d now ∷ es) = contents es
contents (ends_streaming o d now ∷ es) = contents es

abbrev pub streams : List Event → List ℤ
streams [] = []
streams (ends_streaming o d now ∷ es) = d ∷ streams es
streams (begins now ∷ es) = streams es
streams (first_contents d now ∷ es) = streams es
streams (ends_non_streaming o d now ∷ es) = streams es

-- The rings of a provider.
pub record Rings (p : ProviderTelemetry) (a b : Ring LatencySample) (c : Ring ℤ) : Type 0 where
  pub completion : p.non_streaming_latencies ≡ a
  pub content : p.streaming_ttfc ≡ b
  pub stream : p.streaming_durations ≡ c

outcome-Rings :
    (o : ProviderOutcome) (now : ℕ) (p : ProviderTelemetry)
    → Rings
        (record_outcome o now p)
        p.non_streaming_latencies
        p.streaming_ttfc
        p.streaming_durations
unfolding record_outcome
outcome-Rings outcome_success now p = record { completion = refl; content = refl; stream = refl }
outcome-Rings _ now p = record { completion = refl; content = refl; stream = refl }

new-Rings :
    (capacity : ℕ)
    → Rings
        (new_telemetry capacity)
        (new_ring zero_sample capacity)
        (new_ring zero_sample capacity)
        (new_ring (pos 0) capacity)
unfolding new_telemetry
new-Rings capacity = record { completion = refl; content = refl; stream = refl }

module _ (p : ProviderTelemetry) (a b : Ring LatencySample) (c : Ring ℤ) (r : Rings p a b c) where
  begin-Rings : (now : ℕ) → Rings (begin_attempt now p) a b c
  unfolding begin_attempt
  begin-Rings now = record { completion = r.completion; content = r.content; stream = r.stream }

  first-Rings :
      (d : ℤ) (now : ℕ)
      → Rings (add_first_content d now p) a (add (record { duration = d; observed_at = now }) b) c
  unfolding add_first_content
  first-Rings d now = record {
    completion = r.completion;
    content = ap (add (record { duration = d; observed_at = now })) r.content;
    stream = r.stream;
  }

  non_streaming-Rings :
      (o : ProviderOutcome) (d : ℤ) (now : ℕ)
      → Rings (end_non_streaming o d now p) (add (record { duration = d; observed_at = now }) a) b c
  unfolding end_non_streaming
  non_streaming-Rings o d now =
      let w = outcome-Rings o now p in
      record {
        completion =
            ap (add (record { duration = d; observed_at = now })) (w.completion ∙ r.completion);
        content = w.content ∙ r.content;
        stream = w.stream ∙ r.stream;
      }

  streaming-Rings :
      (o : ProviderOutcome) (d : ℤ) (now : ℕ) → Rings (end_streaming o d now p) a b (add d c)
  unfolding end_streaming
  streaming-Rings o d now =
      let w = outcome-Rings o now p in
      record {
        completion = w.completion ∙ r.completion;
        content = w.content ∙ r.content;
        stream = ap (add d) (w.stream ∙ r.stream);
      }

run-Rings :
    (es : List Event) (p : ProviderTelemetry) (a b : Ring LatencySample) (c : Ring ℤ)
    → Rings p a b c
    → Rings
        (run es p)
        (add_all (completions es) a)
        (add_all (contents es) b)
        (add_all (streams es) c)
unfolding run step
run-Rings [] p a b c r = r
run-Rings (begins now ∷ es) p a b c r = run-Rings es _ a b c (begin-Rings p a b c r now)
run-Rings (first_contents d now ∷ es) p a b c r = run-Rings es _ a _ c (first-Rings p a b c r d now)
run-Rings (ends_non_streaming o d now ∷ es) p a b c r =
    run-Rings es _ _ b c (non_streaming-Rings p a b c r o d now)
run-Rings (ends_streaming o d now ∷ es) p a b c r =
    run-Rings es _ a b _ (streaming-Rings p a b c r o d now)

-- Whatever the operations on a new provider's telemetry, in any order, its snapshots hold, oldest
-- first, the latest samples of each kind, up to the capacity: the completion times of the attempts
-- ended without streaming, the times to first content, and the durations of the streams.
pub run_samples :
    (capacity : ℕ) (es : List Event)
    → let p = run es (new_telemetry capacity) in
      (snapshot zero_sample p.non_streaming_latencies ≡ latest capacity (completions es))
      × (snapshot zero_sample p.streaming_ttfc ≡ latest capacity (contents es))
      × (snapshot (pos 0) p.streaming_durations ≡ latest capacity (streams es))
run_samples capacity es =
    let r = run-Rings es (new_telemetry capacity) _ _ _ (new-Rings capacity) in
    (
      ap (snapshot zero_sample) r.completion
          ∙ snapshot-add_all zero_sample capacity (completions es),
      ap (snapshot zero_sample) r.content ∙ snapshot-add_all zero_sample capacity (contents es),
      ap (snapshot (pos 0)) r.stream ∙ snapshot-add_all (pos 0) capacity (streams es),
    )
