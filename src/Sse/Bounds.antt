-- ===== src/Sse/Bounds.antt =====
-- internal/provider/sse.go: the size of an event.
use route_forge.Base.{
  ℕ, ◌≤◌, ◌≡◌, refl, ◌⊎◌, inl, inr, Bool, true, false, List, [], ◌∷◌, length, length-append, arith,
  Bool-cases,
}
use route_forge.Base.Result.{Result, ok, err}
use route_forge.Sse.{
  max_event_size, SseEvent, SseError, SseReader, no_event, is_blank_event, add_line, add_field,
  add_data, next_from, next, separated, cut_colon, trim_blank,
}

-- What an outcome of `Next` must be: an event that is not blank, within the size, and a reader that is
-- between events; or an error.
abbrev pub Fits : Result SseError SseEvent × SseReader → Type 0
Fits (ok e, r) =
    (length e.body ≤ max_event_size) × (is_blank_event e ≡ false) × (r.event ≡ no_event)
Fits (err x, r) = Unit {0}

add_line-le :
    (line : List ℕ) (e : SseEvent)
    → length e.body ≤ max_event_size
    → ((add_line line e).1 ≡ true) ⊎ (length (add_line line e).0.body ≤ max_event_size)
unfolding add_line add_field add_data
add_line-le line e h =
    ground (arith, length-append {0} (separated e.body) (trim_blank (cut_colon line).1))

next_from-Fits :
    (failed : Bool) (lines : List (List ℕ)) (e : SseEvent)
    → length e.body ≤ max_event_size
    → Fits (next_from failed lines e)
unfolding next_from
next_from-Fits failed [] e h = tt
next_from-Fits failed ([] ∷ lines) e h = elim (Bool-cases (is_blank_event e)) [
  | inl b ↦ rw (b, next_from) (next_from-Fits failed lines e h)
  | inr b ↦ rw (b, next_from) (h, b, refl)
]
next_from-Fits failed ((b ∷ line) ∷ lines) e h = elim (Bool-cases (add_line (b ∷ line) e).1) [
  | inl t ↦ rw (t, next_from) tt
  | inr t ↦
      rw (t, next_from)
        (next_from-Fits failed lines _
          (elim (add_line-le (b ∷ line) e h) [ inl q ↦ cc | inr q ↦ q ]))
]

-- From a reader whose event in progress is within the size, `Next` returns an event that is not blank
-- and holds at most 65536 bytes, and leaves the reader between events; or it returns an error.
pub next-Fits : (r : SseReader) → length r.event.body ≤ max_event_size → Fits (next r)
unfolding next
next-Fits r h = next_from-Fits r.failed r.lines r.event h
