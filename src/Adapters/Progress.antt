-- ===== src/Adapters/Progress.antt =====
-- internal/provider/anthropic/anthropic.go, internal/provider/openai/openai.go: `Next` ends.
use mathlib.Core.Path.{subst}
use route_forge.Base.{
  ℕ, zero, suc, ◌<◌, ◌≡◌, refl, ap, Option, none, some, List, length, arith, if-holds,
  if◌then◌else◌,
}
use route_forge.Base.Result.{Result, ok, err}
use route_forge.Base.Text.{codes, same}
use route_forge.Accounting.Price.{is_empty}
use route_forge.Outcome.{Error}
use route_forge.Service.{Chunk}
use route_forge.Sse.{SseEvent, SseError, SseReader, next}
use route_forge.Sse.Shrinks.{Shrinks, next-Shrinks}
use route_forge.Adapters.Anthropic.{StreamEvent}
use route_forge.Adapters.Chunks.{Steps, see_event-Steps}
use route_forge.Adapters.AnthropicStream.{
  AnthropicStream, Round, continues, returns, round, loop, anthropic_next, see_next, after_round,
  empty_event, see_decoded,
}
use route_forge.Adapters.Openai.{StreamReply, OpenaiStream, openai_seen, openai_loop, openai_next}

-- A result within the fuel.
abbrev pub HasResult : {S : Type 0} → Option (Result Error Chunk × S) → Type 0
HasResult {S} p = (result : Result Error Chunk) × (s : S) × (p ≡ some (result, s))

module _ (decode_event : List ℕ → Option StreamReply) (ctx_error : Option Error) where
  openai_seen-HasResult :
      (event : Result SseError SseEvent) (s : OpenaiStream)
      (rest : Option (Result Error Chunk × OpenaiStream))
      → ((e : SseEvent) → event ≡ ok e → HasResult rest)
      → HasResult (openai_seen decode_event ctx_error event s rest)
  unfolding openai_seen
  openai_seen-HasResult (err x) s rest h = (_, _, refl)
  openai_seen-HasResult (ok e) s rest h =
      if-holds HasResult (same e.body (codes "[DONE]")) _ _ (λ d. (_, _, refl))
        (λ d. if-holds HasResult (is_empty e.body) _ _ (λ b. h e refl) (λ b. (_, _, refl)))

  openai_loop-HasResult :
      (fuel : ℕ) (s : OpenaiStream)
      → length s.events.lines < fuel
      → HasResult (openai_loop decode_event ctx_error fuel s)
  unfolding openai_loop
  openai_loop-HasResult zero s h = absurd (omega (arith, h))
  openai_loop-HasResult (suc fuel) s h =
      let (event, events) = next s.events in
      openai_seen-HasResult event (record s { events = events }) _
        (λ e q.
          openai_loop-HasResult fuel (record s { events = events })
            (omega (
              arith,
              h,
              subst (λ x. Shrinks (length s.events.lines) (x, events)) q (next-Shrinks s.events),
            )))

module _ (decode_event : List ℕ → Option StreamEvent) (ctx_error : Option Error) (now : ℕ) where
  see_decoded-Steps :
      (e : SseEvent) (s : AnthropicStream) (d : Option StreamEvent)
      → Steps s (see_decoded decode_event ctx_error now e s d)
  unfolding Steps
  see_decoded-Steps e s none = tt
  see_decoded-Steps e s (some d) =
      see_event-Steps s now (if is_empty e.kind then d.kind else e.kind) d

  -- A round that goes on has read an event.
  pub see_next-Steps :
      (event : Result SseError SseEvent) (s : AnthropicStream)
      → Steps s (see_next decode_event ctx_error now event s)
  unfolding see_next Steps
  see_next-Steps (err x) s = tt
  see_next-Steps (ok e) s =
      see_decoded-Steps e s (if is_empty e.body then some empty_event else decode_event e.body)

  -- What a round that goes on leaves: fewer lines.
  Continued : AnthropicStream → Round → Type 0
  Continued s (continues s') = length s'.events.lines < length s.events.lines
  Continued s (returns result s') = Unit {0}

  read-Continued :
      (s : AnthropicStream) (events : SseReader) (x : Round)
      → length events.lines < length s.events.lines
      → Steps (record s { events = events }) x
      → Continued s x
  unfolding Continued Steps
  read-Continued s events (continues s') h (e, r) =
      omega (arith, h, ap (λ (q : SseReader). length q.lines) e)
  read-Continued s events (returns (ok k) s') h t = tt
  read-Continued s events (returns (err e) s') h t = tt

  see_next-Continued :
      (event : Result SseError SseEvent) (s : AnthropicStream) (events : SseReader)
      → Shrinks (length s.events.lines) (event, events)
      → Continued s (see_next decode_event ctx_error now event (record s { events = events }))
  unfolding Continued see_next
  see_next-Continued (err x) s events h = tt
  see_next-Continued (ok e) s events h =
      read-Continued s events _ h (see_next-Steps (ok e) (record s { events = events }))

  round-Continued : (s : AnthropicStream) → Continued s (round decode_event ctx_error now s)
  unfolding Continued round
  round-Continued s =
      see_next-Continued (next s.events).0 s (next s.events).1 (next-Shrinks s.events)

  after_round-HasResult :
      (fuel : ℕ) (s : AnthropicStream) (x : Round)
      → Continued s x
      → length s.events.lines < suc fuel
      → ((s' : AnthropicStream)
          → length s'.events.lines < fuel
          → HasResult (loop decode_event ctx_error now fuel s'))
      → HasResult (after_round decode_event ctx_error now x (loop decode_event ctx_error now fuel))
  unfolding after_round Continued
  after_round-HasResult fuel s (continues s') c h rest = rest s' (omega (arith, c, h))
  after_round-HasResult fuel s (returns result s') c h rest = (result, s', refl)

  loop-HasResult :
      (fuel : ℕ) (s : AnthropicStream)
      → length s.events.lines < fuel
      → HasResult (loop decode_event ctx_error now fuel s)
  unfolding loop
  loop-HasResult zero s h = absurd (omega (arith, h))
  loop-HasResult (suc fuel) s h =
      after_round-HasResult fuel s _ (round-Continued s) h (loop-HasResult fuel)

-- With fuel for more rounds than there are lines left, `Next` of either adapter returns, whatever the
-- decoder makes of the events.
pub next-HasResult :
    (decode : List ℕ → Option StreamEvent) (decode' : List ℕ → Option StreamReply)
    (ctx_error : Option Error) (now fuel : ℕ) (s : AnthropicStream) (s' : OpenaiStream)
    → length s.events.lines < fuel
    → length s'.events.lines < fuel
    → HasResult (anthropic_next decode ctx_error now fuel s)
      × HasResult (openai_next decode' ctx_error fuel s')
unfolding anthropic_next openai_next
next-HasResult decode decode' ctx_error now fuel s s' h h' = (
  if-holds HasResult s.done _ _ (λ d. (_, _, refl))
      (λ d. loop-HasResult decode ctx_error now fuel s h),
  if-holds HasResult s'.done _ _ (λ d. (_, _, refl))
      (λ d. openai_loop-HasResult decode' ctx_error fuel s' h'),
)
