-- ===== src/Sse/Shrinks.antt =====
-- internal/provider/sse.go: each event takes lines off the stream.
use route_forge.Base.{ℕ, suc, ◌<◌, Bool, List, [], ◌∷◌, length, arith, Bool-cases, inl, inr}
use route_forge.Base.Result.{Result, ok, err}
use route_forge.Sse.{SseEvent, SseError, SseReader, is_blank_event, add_line, next_from, next}

-- Fewer lines than a number are left after an event.
abbrev pub Shrinks : ℕ → Result SseError SseEvent × SseReader → Type 0
Shrinks n (ok e, r) = length r.lines < n
Shrinks n (err x, r) = Unit {0}

Shrinks-suc : (n : ℕ) (p : Result SseError SseEvent × SseReader) → Shrinks n p → Shrinks (suc n) p
Shrinks-suc n (ok e, r) h = omega (arith, h)
Shrinks-suc n (err x, r) h = tt

next_from-Shrinks :
    (failed : Bool) (lines : List (List ℕ)) (e : SseEvent)
    → Shrinks (length lines) (next_from failed lines e)
unfolding next_from
next_from-Shrinks failed [] e = tt
next_from-Shrinks failed ([] ∷ lines) e = elim (Bool-cases (is_blank_event e)) [
  | inl b ↦ rw (b, next_from) (Shrinks-suc _ _ (next_from-Shrinks failed lines e))
  | inr b ↦ rw (b, next_from) (omega arith)
]
next_from-Shrinks failed ((b ∷ line) ∷ lines) e = elim (Bool-cases (add_line (b ∷ line) e).1) [
  | inl t ↦ rw (t, next_from) tt
  | inr t ↦
      rw (t, next_from) (Shrinks-suc _ _ (next_from-Shrinks failed lines (add_line (b ∷ line) e).0))
]

pub next-Shrinks : (r : SseReader) → Shrinks (length r.lines) (next r)
unfolding next
next-Shrinks r = next_from-Shrinks r.failed r.lines r.event
