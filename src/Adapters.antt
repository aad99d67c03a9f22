-- ===== src/Adapters.antt =====
-- internal/provider/http.go and what internal/provider/anthropic/anthropic.go and
-- internal/provider/openai/openai.go have in common: a call over HTTP and its reply. `Wire` holds the
-- HTTP client, and whether a request can be encoded and addressed; a reply's body is its bytes, with the
-- error that breaks it off, if any. The idle watchdog and the closing of bodies are left out.
pub mod Anthropic
pub mod AnthropicStream
pub mod Openai
pub mod Usages
pub mod Progress
pub mod Chunks
pub mod Roles
use route_forge.Base.{
  ℕ, suc, ◌+◌, Bool, true, false, not, ◌&&◌, ◌||◌, Option, none, some, List, [], ◌∷◌, length, ltb,
  leb, if◌then◌else◌,
}
use route_forge.Base.Result.{Result, ok, err}
use route_forge.Base.Text.{codes, same}
use route_forge.Outcome.{
  Error, provider_error, error_internal, error_unavailable, plain, eof, transport_error,
  http_status_error,
}
use route_forge.Sse.{
  SseError, event_too_large, read_failed, end_of_stream, SseReader, new_sse_reader,
}

abbrev pub max_response_size : ℕ
max_response_size = 2097152

-- An error of the protocol, or another, which may be a timeout of the network.
pub data ReadError : Type 0 where
  protocol_error : ReadError
  broken_off : Bool → Error → ReadError

pub record HttpReply : Type 0 where
  pub status : ℕ
  pub content_type : List ℕ
  pub bytes : List ℕ
  pub failure : Option ReadError

pub data Sent : Type 0 where
  transport_failed : Bool → Error → Sent
  replied : HttpReply → Sent

-- `Payload` is the request that a provider is sent; `media_type` is `mime.ParseMediaType`.
pub record Wire (Payload : Type 0) : Type 0 where
  pub sendable : Payload → Bool
  pub send : Payload → Sent
  pub media_type : List ℕ → Option (List ℕ)

abbrev pub internal : List ℕ → Error
internal name = provider_error error_internal name plain

abbrev pub is_success : ℕ → Bool
is_success status = not (ltb status 200 || leb 300 status)

-- `ReadResponse`, by a reader limited to one byte more than the limit.
unfoldable pub read_response : List ℕ → HttpReply → ℕ → Result Error (List ℕ)
read_response name h limit =
    if ltb limit (length h.bytes) then err (internal name) else elim h.failure [
      | none ↦ ok h.bytes
      | some protocol_error ↦ err (internal name)
      | some (broken_off timeout e) ↦ err (transport_error name timeout e)
    ]

module _ {Payload : Type 0} (name : List ℕ) (w : Wire Payload) where
  -- The checks of a request that is to be sent, and of its reply.
  abbrev pub prepared : Payload → Result Error Payload
  prepared p = if w.sendable p then ok p else err (internal name)

  abbrev pub succeeded : Sent → Result Error HttpReply
  succeeded (transport_failed timeout e) = err (transport_error name timeout e)
  succeeded (replied h) =
      if not (is_success h.status) then err (http_status_error name h.status) else ok h

  abbrev is_event_stream : Option (List ℕ) → Bool
  is_event_stream none = false
  is_event_stream (some media) = same media (codes "text/event-stream")

  abbrev broken : Option ReadError → Bool
  broken none = false
  broken (some e) = true

  -- The reader of the events, of a reply that is a stream of them.
  abbrev pub event_reader : HttpReply → Result Error SseReader
  event_reader h =
      if not (is_event_stream (w.media_type h.content_type))
      then err (internal name)
      else ok (new_sse_reader h.bytes (broken h.failure))

-- The error of `Next` of a stream, by that of the event reader and the state of its context.
unfoldable pub stream_error : List ℕ → Option Error → SseError → Error
stream_error name (some e) x = transport_error name false e
stream_error name none event_too_large = internal name
stream_error name none _ = provider_error error_unavailable name plain
