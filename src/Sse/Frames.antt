-- ===== src/Sse/Frames.antt =====
-- internal/provider/sse.go: the reader reads back an event that is written as the protocol says.
use mathlib.Core.List.{append-nil, append_assoc}
use route_forge.Base.{
  ℕ, ◌+◌, ◌≤◌, ◌<◌, ◌≡◌, ◌≢◌, refl, sym, ap, ◌∙◌, Bool, true, false, List, [], ◌∷◌, ◌++◌, map,
  length, length-append, arith, ◌==◌,
}
use route_forge.Base.Result.{Result, ok, err}
use route_forge.Base.Text.{codes}
use route_forge.Sse.{
  max_event_size, SseEvent, SseError, event_too_large, SseReader, no_event, is_blank_event,
  add_line, add_field, add_data, cut_colon, next_from, next, pieces, scan, new_sse_reader,
  drop_return,
}

-- A text without line breaks.
abbrev pub IsText : List ℕ → Type 0
IsText [] = Unit {0}
IsText (b ∷ s) = ((b == b'\n') ≡ false) × ((b == b'\r') ≡ false) × IsText s

abbrev pub AllText : List (List ℕ) → Type 0
AllText [] = Unit {0}
AllText (s ∷ ss) = IsText s × (length s < 65530) × AllText ss

abbrev pub data_line : List ℕ → List ℕ
data_line d = codes "data: " ++ d

-- The lines behind the first, each after a line feed.
abbrev pub followed : List (List ℕ) → List ℕ
followed [] = []
followed (d ∷ ds) = (b'\n' ∷ d) ++ followed ds

abbrev pub terminated : List (List ℕ) → List ℕ
terminated [] = []
terminated (l ∷ ls) = l ++ (b'\n' ∷ terminated ls)

-- An event with its type, and the lines of its data.
abbrev pub event_lines : List ℕ → List ℕ → List (List ℕ) → List (List ℕ)
event_lines kind d ds = (codes "event: " ++ kind) ∷ (data_line d ∷ (map data_line ds ++ ([] ∷ [])))

pieces-text :
    (l bytes : List ℕ)
    → IsText l
    → pieces (l ++ (b'\n' ∷ bytes)) ≡ (l, (pieces bytes).0 ∷ (pieces bytes).1)
unfolding pieces
pieces-text [] bytes t = refl
pieces-text (b ∷ l) bytes t = ground (arith, pieces-text l bytes t.2)

drop_return-text : (l : List ℕ) → IsText l → drop_return l ≡ l
drop_return-text [] t = refl
drop_return-text (b ∷ []) t = ground arith
drop_return-text (b ∷ c ∷ l) t = ap (λ s. b ∷ s) (drop_return-text (c ∷ l) t.2)

-- One line more in front of a stream.
reader-line :
    (l bytes : List ℕ) (failed : Bool)
    → IsText l
    → length l < max_event_size
    → let r = new_sse_reader bytes failed in
      new_sse_reader (l ++ (b'\n' ∷ bytes)) failed
      ≡ record { lines = l ∷ r.lines; failed = r.failed; event = no_event }
unfolding new_sse_reader
reader-line l bytes failed t h =
    rw (pieces-text l bytes t) (unfold scan in ground (arith, drop_return-text l t))

abbrev AllLines : List (List ℕ) → Type 0
AllLines [] = Unit {0}
AllLines (l ∷ ls) = IsText l × (length l < max_event_size) × AllLines ls

reader-terminated :
    (ls : List (List ℕ)) (bytes : List ℕ) (failed : Bool)
    → AllLines ls
    → let r = new_sse_reader bytes failed in
      new_sse_reader (terminated ls ++ bytes) failed
      ≡ record { lines = ls ++ r.lines; failed = r.failed; event = no_event }
reader-terminated [] bytes failed a = unfold new_sse_reader in refl
reader-terminated (l ∷ ls) bytes failed a =
    ap (λ s. new_sse_reader s failed) (append_assoc l (b'\n' ∷ terminated ls) bytes)
    ∙ reader-line l (terminated ls ++ bytes) failed a.0 a.1
    ∙ ap (λ (r : SseReader). record { lines = l ∷ r.lines; failed = r.failed; event = no_event })
        (reader-terminated ls bytes failed a.2)

-- A line of data behind others, and all of them.
add_line-data :
    (kind d : List ℕ) (b : ℕ) (body : List ℕ)
    → length (b ∷ body) + 1 + length d ≤ max_event_size
    → add_line (data_line d) (record { kind = kind; body = b ∷ body })
      ≡ (record { kind = kind; body = (b ∷ body) ++ (b'\n' ∷ d) }, false)
unfolding add_line add_field add_data cut_colon
add_line-data kind d b body h =
    ground (arith, append_assoc body (b'\n' ∷ []) d, length-append {0} body (b'\n' ∷ []))

-- A line that is not empty and that the event takes.
next-taken :
    (failed : Bool) (b : ℕ) (line : List ℕ) (lines : List (List ℕ)) (e e' : SseEvent)
    → add_line (b ∷ line) e ≡ (e', false)
    → next_from failed ((b ∷ line) ∷ lines) e ≡ next_from failed lines e'
unfolding next_from
next-taken failed b line lines e e' h =
    ap
      (λ (p : SseEvent × Bool). elim p.1 as (λ x. Result SseError SseEvent × SseReader) [
        | true ↦ (err event_too_large, record { lines = lines; failed = failed; event = p.0 })
        | false ↦ next_from failed lines p.0
      ])
      h

next-data :
    (failed : Bool) (kind : List ℕ) (b : ℕ) (body : List ℕ) (ds rest : List (List ℕ))
    → length (b ∷ body) + length (followed ds) ≤ max_event_size
    → next_from failed (map data_line ds ++ rest) (record { kind = kind; body = b ∷ body })
      ≡ next_from failed rest (record { kind = kind; body = (b ∷ body) ++ followed ds })
next-data failed kind b body [] rest h =
    ap (λ s. next_from failed rest (record { kind = kind; body = s })) (sym (append-nil (b ∷ body)))
next-data failed kind b body (d ∷ ds) rest h =
    let fits = length-append d (followed ds) in
    next-taken failed _ _ _ _ _ (add_line-data kind d b body (omega (arith, fits)))
    ∙ next-data failed kind b (body ++ (b'\n' ∷ d)) ds rest
        (omega (arith, fits, length-append body (b'\n' ∷ d)))
    ∙ ap (λ s. next_from failed rest (record { kind = kind; body = b ∷ s }))
        (append_assoc body (b'\n' ∷ d) (followed ds))

-- The first two lines of an event.
add_line-kind :
    (kind : List ℕ)
    → add_line (codes "event: " ++ kind) no_event ≡ (record { kind = kind; body = [] }, false)
unfolding add_line add_field add_data cut_colon
add_line-kind kind = refl

add_line-first :
    (kind : List ℕ) (b : ℕ) (body : List ℕ)
    → length (b ∷ body) ≤ max_event_size
    → add_line (data_line (b ∷ body)) (record { kind = kind; body = [] })
      ≡ (record { kind = kind; body = b ∷ body }, false)
unfolding add_line add_field add_data cut_colon
add_line-first kind b body h = ground arith

-- The events with a type and a first line of data that is not empty, all of it within the bound.
abbrev pub IsWritten : List ℕ → List ℕ → List (List ℕ) → Type 0
IsWritten kind d ds =
    IsText kind
    × (length kind < 65000)
    × (length d ≢ 0)
    × AllText (d ∷ ds)
    × (length d + length (followed ds) ≤ max_event_size)

AllLines-data : (ds : List (List ℕ)) → AllText ds → AllLines (map data_line ds ++ ([] ∷ []))
AllLines-data [] a = (tt, omega arith, tt)
AllLines-data (d ∷ ds) a = (
  (refl, refl, (refl, refl, (refl, refl, (refl, refl, (refl, refl, (refl, refl, a.0)))))),
  omega (arith, a.1),
  AllLines-data ds a.2,
)

AllLines-event :
    (kind d : List ℕ) (ds : List (List ℕ)) → IsWritten kind d ds → AllLines (event_lines kind d ds)
AllLines-event kind d ds w = (
  (
    refl,
    refl,
    (refl, refl, (refl, refl, (refl, refl, (refl, refl, (refl, refl, (refl, refl, w.0)))))),
  ),
  omega (arith, w.1),
  AllLines-data (d ∷ ds) w.3,
)

next-blank :
    (bytes : List ℕ) (failed : Bool) (kind : List ℕ) (b : ℕ) (body : List ℕ)
    → let r = new_sse_reader bytes failed in
      next_from r.failed ([] ∷ r.lines) (record { kind = kind; body = b ∷ body })
      ≡ (ok (record { kind = kind; body = b ∷ body }), r)
unfolding next_from is_blank_event new_sse_reader
next-blank bytes failed kind b body = refl

-- Reading what is written, one event in front of any bytes: the reader answers the type and the lines of
-- data, joined by line feeds, and is left at the bytes behind. The type and the lines hold no line break,
-- the first line of data is not empty, each line fits the buffer, and the data fits the bound.
pub next-terminated :
    (kind d : List ℕ) (ds : List (List ℕ)) (bytes : List ℕ) (failed : Bool)
    → IsWritten kind d ds
    → next (new_sse_reader (terminated (event_lines kind d ds) ++ bytes) failed)
      ≡ (ok (record { kind = kind; body = d ++ followed ds }), new_sse_reader bytes failed)
unfolding next
next-terminated kind [] ds bytes failed w = absurd (w.2 refl)
next-terminated kind (b ∷ d) ds bytes failed w =
    let r = new_sse_reader bytes failed in
    let lines = map data_line ds ++ (([] ∷ []) ++ r.lines) in
    ap next (
      reader-terminated (event_lines kind (b ∷ d) ds) bytes failed
        (AllLines-event kind (b ∷ d) ds w))
    ∙ ap (λ ls. next_from r.failed ((codes "event: " ++ kind) ∷ (data_line (b ∷ d) ∷ ls)) no_event)
        (append_assoc (map data_line ds) ([] ∷ []) r.lines)
    ∙ next-taken r.failed _ _ (data_line (b ∷ d) ∷ lines) no_event _ (add_line-kind kind)
    ∙ next-taken r.failed _ _ lines _ _ (add_line-first kind b d (omega (arith, w.4)))
    ∙ next-data r.failed kind b d ds (([] ∷ []) ++ r.lines) w.4
    ∙ next-blank bytes failed kind b (d ++ followed ds)
