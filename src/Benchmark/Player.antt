-- ===== src/Benchmark/Player.antt =====
-- internal/benchmark/provider.go: the simulated stream of a provider, on a virtual clock.
use route_forge.Base.{ℕ, Option, none, some, List, [], ◌∷◌, ◌++◌, if◌then◌else◌}
use route_forge.Base.Int.{ℤ, pos, ◌+ℤ◌, ◌-ℤ◌}
use route_forge.Base.Text.{codes, same}
use route_forge.Accounting.{Usage}
use route_forge.Outcome.{Error, ErrorKind, provider_error, context_canceled, eof, plain}
use route_forge.Service.{Chunk}
use route_forge.Benchmark.Scenario.{Condition, before_commit, after_commit}

unfoldable pub kind_error : Option Error → List ℕ → Option ErrorKind → Option Error
kind_error ctx_error provider none = none
kind_error (some e) provider (some kind) = some e
kind_error none provider (some kind) = some (provider_error kind provider plain)

-- `conditionError`, with `ctx.Err()`.
unfoldable pub condition_error : Option Error → List ℕ → Condition → Option Error
unfolding kind_error
condition_error ctx_error provider c =
    if c.canceled then some context_canceled else kind_error ctx_error provider c.error_kind

pub record StreamStep : Type 0 where
  pub delay : ℤ
  pub chunk : Chunk
  pub error : Option Error

abbrev pub zero_chunk : Chunk
zero_chunk = record {
  id = [];
  created = 0;
  model = [];
  role = [];
  content = [];
  finish_reason = [];
  usage = none;
}

abbrev pub chunk_id : List ℕ → List ℕ
chunk_id provider = codes "benchmark-" ++ provider

abbrev pub content_chunk : List ℕ → List ℕ → Chunk
content_chunk provider model = record zero_chunk {
  id = chunk_id provider;
  model = model;
  role = codes "assistant";
  content = codes "x";
}

abbrev pub usage_chunk : List ℕ → List ℕ → Option Usage → List ℕ → Chunk
usage_chunk provider model usage reason = record zero_chunk {
  id = chunk_id provider;
  model = model;
  usage = usage;
  finish_reason = reason;
}

unfoldable pub gives : ℤ → Chunk → StreamStep
gives delay chunk = record { delay = delay; chunk = chunk; error = none }

unfoldable pub fails : ℤ → Option Error → StreamStep
fails delay error = record { delay = delay; chunk = zero_chunk; error = error }

-- The end of a stream that fails: a chunk with the usage, if it is known, and the error.
unfoldable pub ending : ℤ → List ℕ → List ℕ → Option Usage → Option Error → List StreamStep
unfolding gives fails
ending delay provider model none e = fails delay e ∷ []
ending delay provider model (some u) e =
    gives delay (usage_chunk provider model (some u) []) ∷ fails (pos 0) e ∷ []

-- `newSimulatedStream`.
unfoldable pub new_simulated_stream : Option Error → List ℕ → List ℕ → Condition → List StreamStep
unfolding ending condition_error
new_simulated_stream ctx_error provider model c =
    let e = condition_error ctx_error provider c in
    let remaining = c.stream_duration -ℤ c.ttfc in
    if same c.stream_failure before_commit
    then ending c.stream_duration provider model c.usage e
    else if same c.stream_failure after_commit
    then gives c.ttfc (content_chunk provider model) ∷ ending remaining provider model c.usage e
    else gives c.ttfc (content_chunk provider model)
      ∷ gives remaining (usage_chunk provider model c.usage (codes "stop"))
      ∷ fails (pos 0) (some eof)
      ∷ []

-- The stream, with the steps that are left, and the virtual clock.
pub record SimulatedStream : Type 0 where
  pub steps : List StreamStep
  pub now : ℤ

unfoldable pub next_of : Option Error → List StreamStep → ℤ → SimulatedStream × Chunk × Option Error
next_of (some e) steps now = (record { steps = steps; now = now }, zero_chunk, some e)
next_of none [] now = (record { steps = []; now = now }, zero_chunk, some eof)
next_of none (s ∷ steps) now = (record { steps = steps; now = now +ℤ s.delay }, s.chunk, s.error)

-- `Next`, with `ctx.Err()`.
unfoldable pub next : Option Error → SimulatedStream → SimulatedStream × Chunk × Option Error
unfolding next_of
next ctx_error s = next_of ctx_error s.steps s.now
