-- ===== src/Tests/Benchmarks.antt =====
-- internal/benchmark: a fixture, a simulated stream and the percentiles of samples.
use route_forge.Base.{
  ℕ, ◌*◌, ◌^◌, ◌≡◌, refl, false, Option, none, some, List, [], ◌∷◌, arith, if◌then◌else◌,
}
use route_forge.Base.Int.{ℤ, pos, ◌+ℤ◌}
use route_forge.Base.Result.{ok}
use route_forge.Base.Text.{codes, same}
use route_forge.Accounting.Price.{trim_space, parse_usd_per_million, split_dot, parse_uint}
use route_forge.Base.Dict.{lookup, text_eq}
use route_forge.Base.Sort.{sort}
use route_forge.Outcome.{error_timeout}
use route_forge.Routing.Latency.{quot}
use route_forge.Benchmark.Summary.{percentile_milliseconds}
use route_forge.Benchmark.Percentile.{NearestRank, percentile_milliseconds-NearestRank}
use route_forge.Benchmark.Scenario.{
  Condition, Scenario, before_commit, after_commit, streaming, validate_condition, validate,
}
use route_forge.Benchmark.Player.{condition_error, new_simulated_stream}
use route_forge.Benchmark.Playback.{play, begin_play, error_or_end, play-new_simulated_stream}
use route_forge.Benchmark.Fixture.{FixtureV1}
use route_forge.Benchmark.Decode.{decode_scenario}
use route_forge.Benchmark.WellFormed.{IsWellFormed}
use route_forge.Benchmark.Runs.{BuildsAll, decode_scenario-Runs}

abbrev milliseconds : ℕ → ℤ
milliseconds n = pos (n * 1000000)

percentile_milliseconds-NearestRank_example :
    (x : ℤ) × (percentile_milliseconds (milliseconds 30 ∷ milliseconds 10 ∷ milliseconds 20 ∷ []) 50
      ≡ some (quot x 1000000))
    × NearestRank (milliseconds 30 ∷ milliseconds 10 ∷ milliseconds 20 ∷ []) 50 x
percentile_milliseconds-NearestRank_example =
    percentile_milliseconds-NearestRank (milliseconds 30) (milliseconds 10 ∷ milliseconds 20 ∷ [])
      50 (omega arith) (omega arith)

median_of_three :
    percentile_milliseconds (milliseconds 30 ∷ milliseconds 10 ∷ milliseconds 20 ∷ []) 50
    ≡ some (pos 20)
unfolding percentile_milliseconds sort
median_of_three = refl

-- A timeout after the first content.
abbrev broken : Condition
broken = record {
  completion_latency = pos 0;
  ttfc = milliseconds 100;
  stream_duration = milliseconds 900;
  error_kind = some error_timeout;
  canceled = false;
  stream_failure = after_commit;
  usage = none;
}

broken_valid : validate_condition streaming broken ≡ ok tt
unfolding validate_condition
broken_valid = refl

play-new_simulated_stream_example :
    play 4 (begin_play (new_simulated_stream none (codes "a") (codes "m") broken) (pos 5))
    ≡ record {
      content_times =
          if same broken.stream_failure before_commit then [] else (pos 5 +ℤ broken.ttfc) ∷ [];
      error = error_or_end (condition_error none (codes "a") broken);
      end_time = pos 5 +ℤ broken.stream_duration;
    }
play-new_simulated_stream_example =
    play-new_simulated_stream (codes "a") (codes "m") broken (pos 5) broken_valid

-- `time.ParseDuration`, of the text of one second.
abbrev one_second : List ℕ → Option ℤ
one_second s = if same s (codes "1s") then some (pos (10 ^ 9)) else none

abbrev fixture : FixtureV1
fixture = record {
  version = 1;
  name = codes "tiny";
  mode = codes "non_streaming";
  providers =
      record {
        name = codes "a";
        model = codes "m";
        input_price = some (codes "0.5");
        output_price = none;
      }
      ∷ [];
  warmup = [];
  requests =
      record {
        id = codes "r1";
        providers =
            (
              codes "a",
              record {
                outcome = codes "success";
                completion_latency = some (codes "1s");
                ttfc = none;
                stream_duration = none;
                stream_failure = [];
                input_tokens = some 3;
                output_tokens = some 4;
              },
            )
            ∷ [];
      }
      ∷ [];
  inter_request_gap = some (codes "1s");
  failure_threshold = pos 3;
  open_duration = some (codes "1s");
  min_samples = pos 5;
  sample_max_age = some (codes "1s");
  exploration_interval = pos 10;
  max_latency_percent = some 20;
}

abbrev decoded : Scenario
decoded = record {
  version = 1;
  name = codes "tiny";
  mode = codes "non_streaming";
  providers =
      record {
        name = codes "a";
        model = codes "m";
        rates = record { input_rate = some 500000; output_rate = none };
      }
      ∷ [];
  warmup = [];
  requests =
      record {
        id = codes "r1";
        conditions =
            (
              codes "a",
              record {
                completion_latency = pos (10 ^ 9);
                ttfc = pos 0;
                stream_duration = pos 0;
                error_kind = none;
                canceled = false;
                stream_failure = [];
                usage = some (record {
                  input_tokens = some 3;
                  output_tokens = some 4;
                  total_tokens = some 7;
                });
              },
            )
            ∷ [];
      }
      ∷ [];
  inter_request_gap = pos (10 ^ 9);
  circuit = record { failure_threshold = 3; open_duration = 10 ^ 9 };
  routing = record {
    policy = [];
    min_samples = pos 5;
    sample_max_age = pos (10 ^ 9);
    exploration_interval = pos 10;
    max_latency_over_fastest_percent = some 20;
  };
}

decodes : decode_scenario one_second fixture ≡ ok decoded
unfolding decode_scenario trim_space parse_usd_per_million split_dot parse_uint lookup
    validate_condition validate
decodes = refl

decode_scenario-Runs_example : IsWellFormed decoded × BuildsAll decoded.routing
decode_scenario-Runs_example = decode_scenario-Runs one_second fixture decodes
