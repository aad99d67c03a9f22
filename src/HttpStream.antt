-- ===== src/HttpStream.antt =====
-- internal/httpapi/handler.go: the answer to a request for a stream. `Client` is the JSON encoder of a
-- chunk and the connection: how many bytes of its next write are written, and with which error. What
-- `Stream` of the gateway does is given by the chunks that it emits and the error that it ends with;
-- it returns an error of the emission at once.
pub mod Apart
use route_forge.Base.{
  ℕ, ◌+◌, Bool, true, false, not, ◌||◌, Option, none, some, List, [], ◌∷◌, ◌++◌, take, ltb,
  if◌then◌else◌,
}
use route_forge.Base.Result.{Result, ok, err}
use route_forge.Base.Text.{codes}
use route_forge.Outcome.{Error}
use route_forge.Service.{Chunk}
use route_forge.HttpErrors.{ApiError, server_error, write_completion_error}

-- `openai.ChatCompletionChunk`, with its one choice.
pub record ChunkPayload : Type 0 where
  pub id : List ℕ
  pub object : List ℕ
  pub created : ℕ
  pub model : List ℕ
  pub role : List ℕ
  pub content : List ℕ
  pub finish_reason : Option (List ℕ)

pub record Client : Type 0 where
  pub marshal : ChunkPayload → Result Error (List ℕ)
  pub write : ℕ → List ℕ → ℕ × Option Error

-- The answer so far: whether its headers are those of a stream, the bytes of the stream, the error that
-- was written in place of one, whether the end was written, and the number of writes.
pub record StreamAnswer : Type 0 where
  pub sse : Bool
  pub sent : List ℕ
  pub error : Option ApiError
  pub ended : Bool
  pub committed : Bool
  pub writes : ℕ

abbrev pub no_reply : StreamAnswer
no_reply = record {
  sse = false;
  sent = [];
  error = none;
  ended = false;
  committed = false;
  writes = 0;
}

abbrev pub given_reason : List ℕ → Option (List ℕ)
given_reason [] = none
given_reason (b ∷ reason) = some (b ∷ reason)

abbrev pub payload_of : Chunk → ChunkPayload
payload_of k = record {
  id = k.id;
  object = codes "chat.completion.chunk";
  created = k.created;
  model = k.model;
  role = k.role;
  content = k.content;
  finish_reason = given_reason k.finish_reason;
}

abbrev pub frame : List ℕ → List ℕ
frame json = codes "data: " ++ (json ++ (b'\n' ∷ b'\n' ∷ []))

abbrev pub end_frame : List ℕ
end_frame = frame (codes "[DONE]")

module _ (w : Client) where
  unfoldable pub write_frame : List ℕ → StreamAnswer → StreamAnswer × Option Error
  write_frame bytes r =
      let (n, e) = w.write r.writes bytes in
      (
        record r {
          sse = not r.committed || r.sse;
          sent = r.sent ++ take n bytes;
          committed = ltb 0 n || r.committed;
          writes = r.writes + 1;
        },
        e,
      )

  -- `emit`.
  unfoldable pub emit_chunk : Chunk → StreamAnswer → StreamAnswer × Option Error
  unfolding write_frame
  emit_chunk k r = elim (w.marshal (payload_of k)) [
    | err e ↦ (r, some e)
    | ok json ↦ write_frame (frame json) r
  ]

  -- `Stream` of the gateway, as it calls `emit`.
  unfoldable pub emit_all : List Chunk → Option Error → StreamAnswer → StreamAnswer × Option Error
  emit_all [] result r = (r, result)
  emit_all (k ∷ chunks) result r =
      let (r', failed) = emit_chunk k r in
      elim failed [ none ↦ emit_all chunks result r' | some e ↦ (r', some e) ]

  abbrev pub conclude : StreamAnswer × Option Error → StreamAnswer
  conclude (r, some e) =
      if not r.committed then record r { error = some (write_completion_error e) } else r
  conclude (r, none) = record (write_frame end_frame r).0 { committed = r.committed; ended = true }

  -- `streamChatCompletions`.
  unfoldable pub stream_chat : Bool → List Chunk → Option Error → StreamAnswer
  unfolding emit_all write_frame
  stream_chat can_flush chunks result =
      if not can_flush
      then record no_reply { error = some (server_error 500 (codes "streaming_unavailable")) }
      else conclude (emit_all chunks result no_reply)
