-- ===== src/Benchmark/Playback.antt =====
-- internal/benchmark/provider.go: what a reader of a simulated stream sees, and when.
use route_forge.Base.{
  ℕ, zero, suc, ◌≡◌, refl, ap, ◌⊎◌, inl, inr, true, false, Option, none, some, List, [], ◌∷◌, arith,
  Option-cases, if◌then◌else◌,
}
use route_forge.Base.Int.{ℤ, pos, ◌+ℤ◌, ◌-ℤ◌, int_laws}
use route_forge.Base.Result.{ok}
use route_forge.Base.Text.{codes, same}
use route_forge.Accounting.{Usage}
use route_forge.Accounting.Price.{is_empty}
use route_forge.Outcome.{Error, eof}
use route_forge.Service.{Chunk}
use route_forge.Benchmark.Scenario.{
  Condition, failed, before_commit, after_commit, streaming, check_stream, validate_condition,
}
use route_forge.Benchmark.Player.{
  condition_error, kind_error, StreamStep, content_chunk, usage_chunk, gives, fails, ending,
  new_simulated_stream, SimulatedStream, next, next_of,
}

-- What reading a stream to its end gives: the times at which content came, the error, and the time of
-- the end.
pub record Playback : Type 0 where
  pub content_times : List ℤ
  pub error : Error
  pub end_time : ℤ

heard : SimulatedStream → Chunk → Option Error → Playback → Playback
heard s chunk (some e) rest = record { content_times = []; error = e; end_time = s.now }
heard s chunk none rest =
    if is_empty chunk.content
    then rest
    else record rest { content_times = s.now ∷ rest.content_times }

-- `Next` until it returns an error, at most as often as the fuel says.
unfoldable pub play : ℕ → SimulatedStream → Playback
unfolding heard
play zero s = record { content_times = []; error = eof; end_time = s.now }
play (suc fuel) s =
    let (s', chunk, e) = next none s in let rest = play fuel s' in heard s' chunk e rest

-- The error of a condition, or the end of a stream that succeeds.
abbrev pub error_or_end : Option Error → Error
error_or_end none = eof
error_or_end (some e) = e

-- A failed stream that ends with `delay`: its content is none, its error is the condition's.
play-ending :
    (k : ℕ) (delay now : ℤ) (provider model : List ℕ) (usage : Option Usage) (e : Error)
    → play (suc (suc k)) (record { steps = ending delay provider model usage (some e); now = now })
      ≡ record { content_times = []; error = e; end_time = now +ℤ delay }
unfolding play heard next next_of ending gives fails
play-ending k delay now provider model none e = refl
play-ending k delay now provider model (some u) e =
    ap (λ t. record { content_times = []; error = e; end_time = t }) (omega int_laws)

failed-some :
    (provider : List ℕ) (c : Condition)
    → failed c ≡ true
    → ¬ (condition_error none provider c ≡ none)
unfolding condition_error kind_error
failed-some provider c f n = ground arith

condition_error-failed :
    (provider : List ℕ) (c : Condition)
    → failed c ≡ true
    → (e : Error) × (condition_error none provider c ≡ some e)
unfolding condition_error kind_error
condition_error-failed provider c f = elim (Option-cases (condition_error none provider c)) [
  | inl n ↦ absurd (failed-some provider c f n)
  | inr found ↦ found
]

condition_error-none :
    (provider : List ℕ) (c : Condition) → failed c ≡ false → condition_error none provider c ≡ none
unfolding condition_error kind_error
condition_error-none provider c f = ground arith

-- What validation leaves of the point of failure of a stream.
stream_failure-cases :
    (c : Condition)
    → validate_condition streaming c ≡ ok tt
    → ((same c.stream_failure before_commit ≡ true) × (failed c ≡ true))
      ⊎ ((same c.stream_failure before_commit ≡ false)
          × (same c.stream_failure after_commit ≡ true)
          × (failed c ≡ true))
      ⊎ ((same c.stream_failure before_commit ≡ false)
          × (same c.stream_failure after_commit ≡ false)
          × (failed c ≡ false))
unfolding validate_condition check_stream
stream_failure-cases c v = ground arith

abbrev pub begin_play : List StreamStep → ℤ → SimulatedStream
begin_play steps now = record { steps = steps; now = now }

after-content :
    (k : ℕ) (c : Condition) (now : ℤ) (provider model : List ℕ) (e : Error)
    → play (suc (suc (suc k))) (
        begin_play
          (gives c.ttfc (content_chunk provider model)
            ∷ ending (c.stream_duration -ℤ c.ttfc) provider model c.usage (some e))
          now)
      ≡ record {
        content_times = (now +ℤ c.ttfc) ∷ [];
        error = e;
        end_time = now +ℤ c.stream_duration;
      }
unfolding play heard next next_of gives
after-content k c now provider model e =
    rw (play-ending k (c.stream_duration -ℤ c.ttfc) (now +ℤ c.ttfc) provider model c.usage e) (
      ap (λ t. record { content_times = (now +ℤ c.ttfc) ∷ []; error = e; end_time = t })
        (omega int_laws))

play_complete :
    (c : Condition) (now : ℤ) (provider model : List ℕ)
    → play 4 (
        begin_play
          (gives c.ttfc (content_chunk provider model)
            ∷ gives
                (c.stream_duration -ℤ c.ttfc)
                (usage_chunk provider model c.usage (codes "stop"))
            ∷ fails (pos 0) (some eof)
            ∷ [])
          now)
      ≡ record {
        content_times = (now +ℤ c.ttfc) ∷ [];
        error = eof;
        end_time = now +ℤ c.stream_duration;
      }
unfolding play heard next next_of gives fails
play_complete c now provider model =
    ap (λ t. record { content_times = (now +ℤ c.ttfc) ∷ []; error = eof; end_time = t })
      (omega int_laws)

-- The stream that is simulated for a valid condition lasts its stream duration, gives content once,
-- after the time to the first content, or never if it fails before, and ends with the condition's
-- error, or as complete if it has none.
pub play-new_simulated_stream :
    (provider model : List ℕ) (c : Condition) (now : ℤ)
    → validate_condition streaming c ≡ ok tt
    → play 4 (begin_play (new_simulated_stream none provider model c) now) ≡ record {
      content_times = if same c.stream_failure before_commit then [] else (now +ℤ c.ttfc) ∷ [];
      error = error_or_end (condition_error none provider c);
      end_time = now +ℤ c.stream_duration;
    }
unfolding new_simulated_stream
play-new_simulated_stream provider model c now v = elim (stream_failure-cases c v) [
  | inl (before, f) ↦
      let (e, is_e) = condition_error-failed provider c f in
      rw (before, is_e) (play-ending 2 c.stream_duration now provider model c.usage e)
  | inr (inl (before, after, f)) ↦
      let (e, is_e) = condition_error-failed provider c f in
      rw (before, after, is_e) (after-content 1 c now provider model e)
  | inr (inr (before, after, f)) ↦
      rw (before, after, condition_error-none provider c f) (play_complete c now provider model)
]
