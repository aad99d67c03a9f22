-- ===== src/Tests/Samples.antt =====
-- internal/gateway/telemetry.go: short histories of one provider.
use route_forge.Base.{◌≡◌, List, [], ◌∷◌}
use route_forge.Base.Int.{ℤ, pos}
use route_forge.Outcome.{outcome_success, outcome_timeout, outcome_canceled}
use route_forge.Telemetry.{zero_sample, new_telemetry}
use route_forge.Telemetry.Rings.{snapshot}
use route_forge.Telemetry.Latest.{latest}
use route_forge.Telemetry.Counters.{
  Event, begins, first_contents, ends_non_streaming, ends_streaming, run, begun, ended, Balanced,
  run-Balanced,
}
use route_forge.Telemetry.Samples.{completions, contents, streams, run_samples}

-- Four samples in a ring of three.
abbrev four : List ℤ
four = pos 1 ∷ pos 2 ∷ pos 3 ∷ pos 4 ∷ []

abbrev history : List Event
history =
    begins 1
    ∷ ends_non_streaming outcome_timeout (pos 4) 5
    ∷ begins 6
    ∷ first_contents (pos 2) 8
    ∷ ends_streaming outcome_success (pos 3) 9
    ∷ begins 10
    ∷ ends_non_streaming outcome_canceled (pos 1) 11
    ∷ []

run_samples_example :
    let p = run history (new_telemetry 1) in
    (snapshot zero_sample p.non_streaming_latencies ≡ latest 1 (completions history))
    × (snapshot zero_sample p.streaming_ttfc ≡ latest 1 (contents history))
    × (snapshot (pos 0) p.streaming_durations ≡ latest 1 (streams history))
run_samples_example = run_samples 1 history

run-Balanced_example : Balanced (begun history) (ended history) (run history (new_telemetry 1))
run-Balanced_example = run-Balanced 1 history
