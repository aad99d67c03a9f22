-- ===== src/Adapters/Roles.antt =====
-- internal/provider/anthropic/anthropic.go: the role in a whole stream.
use route_forge.Base.{ℕ, zero, suc, Bool, Option, none, some, List, [], ◌∷◌, length, if-holds}
use mathlib.Core.Path.{subst}
use route_forge.Base.Result.{Result, ok, err}
use route_forge.Outcome.{Error}
use route_forge.Service.{Chunk}
use route_forge.Sse.{next}
use route_forge.Adapters.Anthropic.{StreamEvent}
use route_forge.Adapters.AnthropicStream.{
  AnthropicStream, Round, continues, returns, round, after_round, loop, anthropic_next,
}
use route_forge.Adapters.Chunks.{Speaks, Steps}
use route_forge.Adapters.Progress.{see_next-Steps}

-- The chunks that one call of `Next` after another returns, up to the first error. A call has the error
-- of the context and the reading of the clock that it meets.
abbrev after_call :
    Option (Result Error Chunk × AnthropicStream) → (AnthropicStream → List Chunk) → List Chunk
after_call none rest = []
after_call (some (err e, s)) rest = []
after_call (some (ok k, s)) rest = k ∷ rest s

module _ (decode_event : List ℕ → Option StreamEvent) where
  unfoldable pub read_chunks : List (Option Error × ℕ) → AnthropicStream → List Chunk
  unfolding anthropic_next
  read_chunks [] s = []
  read_chunks ((ctx_error, now) ∷ calls) s =
      after_call (anthropic_next decode_event ctx_error now (suc (length s.events.lines)) s)
        (read_chunks calls)

-- One chunk after another speaks.
abbrev pub Roles : Bool → List Chunk → Type 0
Roles before [] = Unit {0}
Roles before (k ∷ chunks) = (after : Bool) × Speaks before k after × Roles after chunks

Spoken : Bool → Option (Result Error Chunk × AnthropicStream) → Type 0
Spoken before none = Unit {0}
Spoken before (some (err e, s)) = Unit {0}
Spoken before (some (ok k, s)) = Speaks before k s.sent_role

module _ (decode_event : List ℕ → Option StreamEvent) (ctx_error : Option Error) (now : ℕ) where
  round-Steps :
      (s : AnthropicStream)
      → Steps (record s { events = (next s.events).1 }) (round decode_event ctx_error now s)
  unfolding round
  round-Steps s =
      see_next-Steps decode_event ctx_error now (next s.events).0
        (record s { events = (next s.events).1 })

  after_round-Spoken :
      (fuel : ℕ) (s : AnthropicStream) (x : Round)
      → Steps s x
      → ((s' : AnthropicStream) → Spoken s'.sent_role (loop decode_event ctx_error now fuel s'))
      → Spoken s.sent_role
          (after_round decode_event ctx_error now x (loop decode_event ctx_error now fuel))
  unfolding after_round Steps Spoken
  after_round-Spoken fuel s (continues s') (e, r) rest =
      subst (λ b. Spoken b (loop decode_event ctx_error now fuel s')) r (rest s')
  after_round-Spoken fuel s (returns (ok k) s') (e, t) rest = t
  after_round-Spoken fuel s (returns (err x) s') t rest = tt

  loop-Spoken :
      (fuel : ℕ) (s : AnthropicStream) → Spoken s.sent_role (loop decode_event ctx_error now fuel s)
  unfolding loop Spoken
  loop-Spoken zero s = tt
  loop-Spoken (suc fuel) s =
      after_round-Spoken fuel (record s { events = (next s.events).1 }) _ (round-Steps s)
        (loop-Spoken fuel)

  next-Spoken :
      (fuel : ℕ) (s : AnthropicStream)
      → Spoken s.sent_role (anthropic_next decode_event ctx_error now fuel s)
  unfolding anthropic_next Spoken
  next-Spoken fuel s = if-holds (Spoken s.sent_role) s.done _ _ (λ d. tt) (λ d. loop-Spoken fuel s)

after_call-Roles :
    (before : Bool) (p : Option (Result Error Chunk × AnthropicStream))
    (rest : AnthropicStream → List Chunk)
    → Spoken before p
    → ((s : AnthropicStream) → Roles s.sent_role (rest s))
    → Roles before (after_call p rest)
unfolding Spoken
after_call-Roles before none rest h r = tt
after_call-Roles before (some (err e, s)) rest h r = tt
after_call-Roles before (some (ok k, s)) rest h r = (s.sent_role, h, r s)

-- However many times `Next` of the Anthropic adapter is called, whatever events it decodes: at most one
-- chunk names a role, which is the assistant's, and no chunk before it has text.
pub read_chunks-Roles :
    (decode_event : List ℕ → Option StreamEvent) (calls : List (Option Error × ℕ))
    (s : AnthropicStream)
    → Roles s.sent_role (read_chunks decode_event calls s)
unfolding read_chunks
read_chunks-Roles decode_event [] s = tt
read_chunks-Roles decode_event ((ctx_error, now) ∷ calls) s =
    after_call-Roles s.sent_role _ (read_chunks decode_event calls)
      (next-Spoken decode_event ctx_error now (suc (length s.events.lines)) s)
      (read_chunks-Roles decode_event calls)
