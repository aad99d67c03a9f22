-- ===== src/Sse.antt =====
-- internal/provider/sse.go: the reader of server-sent events, over the bytes of the stream. `failed` says
-- that the stream ends by an error of the reader below and not at its end. Lines are those that
-- `bufio.ScanLines` gives: a carriage return before the line feed is dropped, and a line that does not
-- fit the buffer of 65536 bytes together with its line feed ends the scan.
pub mod Frames
pub mod Bounds
pub mod Shrinks
use route_forge.Base.{
  ℕ, ◌+◌, Bool, true, false, not, ◌&&◌, ◌||◌, List, [], ◌∷◌, ◌++◌, length, ltb, ◌==◌, if◌then◌else◌,
}
use route_forge.Base.Result.{Result, ok, err}
use route_forge.Base.Text.{codes, same}
use route_forge.Accounting.Price.{is_empty}

abbrev pub max_event_size : ℕ
max_event_size = 65536

pub record SseEvent : Type 0 where
  pub kind : List ℕ
  pub body : List ℕ

pub data SseError : Type 0 where
  event_too_large read_failed end_of_stream : SseError

-- `lines` are those still to be scanned; `failed` says that the scan ends by an error.
pub record SseReader : Type 0 where
  pub lines : List (List ℕ)
  pub failed : Bool
  pub event : SseEvent

-- The pieces between line feeds: the first, and the others.
unfoldable pub pieces : List ℕ → List ℕ × List (List ℕ)
pieces [] = ([], [])
pieces (b ∷ bytes) =
    let (piece, others) = pieces bytes in
    if b == b'\n' then ([], piece ∷ others) else (b ∷ piece, others)

-- `dropCR` of `bufio`.
abbrev pub drop_return : List ℕ → List ℕ
drop_return [] = []
drop_return (b ∷ []) = if b == b'\r' then [] else b ∷ []
drop_return (b ∷ c ∷ rest) = b ∷ drop_return (c ∷ rest)

-- The lines up to one that is too long, and whether there is one. An empty last piece is no line.
unfoldable pub scan : List ℕ → List (List ℕ) → List (List ℕ) × Bool
scan piece [] =
    if not (ltb (length piece) max_event_size)
    then ([], true)
    else if is_empty piece
    then ([], false)
    else (drop_return piece ∷ [], false)
scan piece (next ∷ others) =
    let (lines, long) = scan next others in
    if not (ltb (length piece) max_event_size)
    then ([], true)
    else (drop_return piece ∷ lines, long)

abbrev pub no_event : SseEvent
no_event = record { kind = []; body = [] }

unfoldable pub new_sse_reader : List ℕ → Bool → SseReader
unfolding pieces scan
new_sse_reader bytes failed =
    let (lines, long) = scan (pieces bytes).0 (pieces bytes).1 in
    record { lines = lines; failed = long || failed; event = no_event }

-- `strings.Cut(line, ":")`: the text before the first colon, and the text behind it.
unfoldable pub cut_colon : List ℕ → List ℕ × List ℕ
cut_colon [] = ([], [])
cut_colon (b ∷ line) =
    let (field, value) = cut_colon line in if b == b':' then ([], line) else (b ∷ field, value)

-- `strings.TrimPrefix(value, " ")`.
abbrev pub trim_blank : List ℕ → List ℕ
trim_blank [] = []
trim_blank (b ∷ value) = if b == b' ' then value else b ∷ value

abbrev pub is_comment : List ℕ → Bool
is_comment [] = false
is_comment (b ∷ line) = b == b':'

unfoldable pub is_blank_event : SseEvent → Bool
is_blank_event e = is_empty e.body && is_empty e.kind

-- A line feed before data that is not the first.
abbrev pub separated : List ℕ → List ℕ
separated [] = []
separated (b ∷ body) = b ∷ (body ++ (b'\n' ∷ []))

-- What a line that is not empty does to the event: none is the error of an event that is too large,
-- which leaves the line feed behind.
add_data : List ℕ → SseEvent → SseEvent × Bool
add_data value e =
    let body = separated e.body in
    if ltb max_event_size (length body + length value)
    then (record e { body = body }, true)
    else (record e { body = body ++ value }, false)

add_field : List ℕ → List ℕ → SseEvent → SseEvent × Bool
unfolding add_data
add_field field value e =
    if same field (codes "event")
    then (record e { kind = value }, false)
    else if same field (codes "data")
    then add_data value e
    else (e, false)

unfoldable pub add_line : List ℕ → SseEvent → SseEvent × Bool
unfolding add_field cut_colon
add_line line e =
    let (field, value) = cut_colon line in
    if is_comment line then (e, false) else add_field field (trim_blank value) e

-- The end of the scan.
abbrev pub at_end : Bool → SseEvent → SseError
at_end failed e =
    if failed then read_failed else if is_blank_event e then end_of_stream else read_failed

-- The loop of `Next`.
unfoldable pub next_from : Bool → List (List ℕ) → SseEvent → Result SseError SseEvent × SseReader
next_from failed [] e = (err (at_end failed e), record { lines = []; failed = failed; event = e })
next_from failed ([] ∷ lines) e = elim (is_blank_event e) [
  | true ↦ next_from failed lines e
  | false ↦ (ok e, record { lines = lines; failed = failed; event = no_event })
]
next_from failed ((b ∷ line) ∷ lines) e =
    let (e', large) = add_line (b ∷ line) e in
    elim large [
      | true ↦ (err event_too_large, record { lines = lines; failed = failed; event = e' })
      | false ↦ next_from failed lines e'
    ]

-- `Next`.
unfoldable pub next : SseReader → Result SseError SseEvent × SseReader
unfolding next_from
next r = next_from r.failed r.lines r.event
