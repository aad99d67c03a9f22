-- ===== src/HttpStream/Apart.antt =====
-- internal/httpapi/handler.go: an answer is a stream or an error, not both.
use mathlib.Core.Path.{subst}
use mathlib.Core.List.{append-nil, append_assoc}
use route_forge.Base.{
  ℕ, zero, suc, ◌≡◌, refl, sym, ap, ◌∙◌, ◌⊎◌, inl, inr, true, false, Bool, not, Option, none, some,
  List, [], ◌∷◌, ◌++◌, take, length, arith, ltb, if-holds,
}
use route_forge.Base.Result.{Result, ok, err}
use route_forge.Outcome.{Error}
use route_forge.Service.{Chunk}
use route_forge.HttpStream.{
  Client, StreamAnswer, no_reply, frame, end_frame, payload_of, write_frame, emit_chunk, emit_all,
  conclude, stream_chat,
}

-- Before the end: no error, and nothing was sent unless the answer is committed to the stream.
unfoldable pub Open : StreamAnswer × Option Error → Type 0
Open (r, e) = (r.error ≡ none) × (r.ended ≡ false) × (r.committed ≡ false → r.sent ≡ [])

-- At the end: an error is alone, without a byte of a stream and without its end.
unfoldable pub Apart : StreamAnswer → Type 0
Apart r = (r.error ≡ none) ⊎ ((r.sent ≡ []) × (r.ended ≡ false))

take-zero : (n : ℕ) (bytes : List ℕ) → ltb 0 n ≡ false → take n bytes ≡ []
take-zero zero bytes h = refl
take-zero (suc n) bytes h = ground arith

take-length : (bytes : List ℕ) → take (length bytes) bytes ≡ bytes
take-length [] = refl
take-length (b ∷ bytes) = ap (λ l. b ∷ l) (take-length bytes)

-- The frames of chunks, one behind another.
abbrev pub frames : List (List ℕ) → List ℕ
frames [] = []
frames (json ∷ others) = frame json ++ frames others

module _ (w : Client) where
  write-Open :
      (bytes : List ℕ) (r : StreamAnswer) (e : Option Error)
      → Open (r, e)
      → Open (write_frame w bytes r)
  unfolding Open write_frame
  write-Open bytes r e (n, d, s) =
      (n, d, λ h. ground (arith, s, take-zero (w.write r.writes bytes).0 bytes))

  any_error-Open : (r : StreamAnswer) (e e' : Option Error) → Open (r, e) → Open (r, e')
  unfolding Open
  any_error-Open r e e' o = o

  sent-Open :
      (m : Result Error (List ℕ)) (r : StreamAnswer) (e : Option Error)
      → Open (r, e)
      → Open (elim m as (λ x. StreamAnswer × Option Error) [
        | err x ↦ (r, some x)
        | ok json ↦ write_frame w (frame json) r
      ])
  sent-Open (err x) r e o = any_error-Open r e (some x) o
  sent-Open (ok json) r e o = write-Open (frame json) r e o

  emit-Open :
      (k : Chunk) (r : StreamAnswer) (e : Option Error) → Open (r, e) → Open (emit_chunk w k r)
  unfolding emit_chunk
  emit-Open k r e o = sent-Open (w.marshal (payload_of k)) r e o

  go_on-Open :
      (p : StreamAnswer × Option Error) (chunks : List Chunk) (result : Option Error)
      → Open p
      → ((r : StreamAnswer) → Open (r, none) → Open (emit_all w chunks result r))
      → Open (elim p.1 as (λ x. StreamAnswer × Option Error) [
        | none ↦ emit_all w chunks result p.0
        | some e ↦ (p.0, some e)
      ])
  go_on-Open (r, none) chunks result o rest = rest r o
  go_on-Open (r, some e) chunks result o rest = o

  emit_all-Open :
      (chunks : List Chunk) (result : Option Error) (r : StreamAnswer)
      → Open (r, none)
      → Open (emit_all w chunks result r)
  unfolding emit_all
  emit_all-Open [] result r o = any_error-Open r none result o
  emit_all-Open (k ∷ chunks) result r o =
      go_on-Open (emit_chunk w k r) chunks result (emit-Open k r none o)
        (emit_all-Open chunks result)

  conclude-Apart : (p : StreamAnswer × Option Error) → Open p → Apart (conclude w p)
  unfolding Open Apart write_frame
  conclude-Apart (r, none) (n, d, s) = inl n
  conclude-Apart (r, some e) (n, d, s) =
      if-holds Apart (not r.committed) _ _ (λ c. inr (s (ground arith), d)) (λ c. inl n)

  -- A connection that takes every byte, and chunks that are encoded.
  abbrev pub Takes : Type 0
  Takes = (i : ℕ) (bytes : List ℕ) → w.write i bytes ≡ (length bytes, none)

  abbrev pub Encodes : List Chunk → List (List ℕ) → Type 0
  Encodes [] [] = Unit {0}
  Encodes (k ∷ chunks) (json ∷ others) =
      (w.marshal (payload_of k) ≡ ok json) × Encodes chunks others
  Encodes _ _ = ⊥

  taken :
      Takes
      → (bytes : List ℕ) (r : StreamAnswer)
      → ((write_frame w bytes r).0.sent ≡ r.sent ++ bytes) × ((write_frame w bytes r).1 ≡ none)
  unfolding write_frame
  taken t bytes r = ground (arith, t r.writes bytes, take-length bytes)

  emitted :
      (k : Chunk) (json : List ℕ) (r : StreamAnswer)
      → Takes
      → w.marshal (payload_of k) ≡ ok json
      → ((emit_chunk w k r).0.sent ≡ r.sent ++ frame json) × ((emit_chunk w k r).1 ≡ none)
  unfolding emit_chunk
  emitted k json r t m = rw (m, emit_chunk) (taken t (frame json) r)

  Sent : List ℕ → StreamAnswer × Option Error → Type 0
  Sent bytes p = (p.0.sent ≡ bytes) × (p.1 ≡ none)

  go_on-Sent :
      (bytes : List ℕ) (p : StreamAnswer × Option Error) (chunks : List Chunk)
      → p.1 ≡ none
      → Sent bytes (emit_all w chunks none p.0)
      → Sent bytes (elim p.1 as (λ x. StreamAnswer × Option Error) [
        | none ↦ emit_all w chunks none p.0
        | some e ↦ (p.0, some e)
      ])
  go_on-Sent bytes (r, none) chunks h s = s
  go_on-Sent bytes (r, some e) chunks h s = cc

  all_emitted :
      (chunks : List Chunk) (jsons : List (List ℕ)) (r : StreamAnswer)
      → Takes
      → Encodes chunks jsons
      → Sent (r.sent ++ frames jsons) (emit_all w chunks none r)
  unfolding Sent emit_all
  all_emitted [] [] r t e = (sym (append-nil r.sent), refl)
  all_emitted [] (json ∷ jsons) r t e = elim e [ ]
  all_emitted (k ∷ chunks) [] r t e = elim e [ ]
  all_emitted (k ∷ chunks) (json ∷ jsons) r t e =
      let q = emitted k json r t e.0 in
      let p = emit_chunk w k r in
      go_on-Sent _ p chunks q.1 (
        subst (λ bytes. Sent bytes (emit_all w chunks none p.0))
          (ap (λ l. l ++ frames jsons) q.0 ∙ append_assoc r.sent (frame json) (frames jsons))
          (all_emitted chunks jsons p.0 t e.1))

  conclude-Sent :
      (bytes : List ℕ) (p : StreamAnswer × Option Error)
      → Takes
      → Sent bytes p
      → (conclude w p).sent ≡ bytes ++ end_frame
  unfolding Sent
  conclude-Sent bytes (r, none) t s = (taken t end_frame r).0 ∙ ap (λ l. l ++ end_frame) s.0
  conclude-Sent bytes (r, some e) t s = cc

-- Whatever the gateway emits and returns, and however the connection fails, the answer to a request for
-- a stream is not both: an error is written only where no byte of a stream was, and then the end mark is
-- not written.
pub stream_chat-Apart :
    (w : Client) (can_flush : Bool) (chunks : List Chunk) (result : Option Error)
    → Apart (stream_chat w can_flush chunks result)
unfolding stream_chat Apart Open
stream_chat-Apart w can_flush chunks result =
    if-holds Apart (not can_flush) _ _ (λ h. inr (refl, refl))
      (λ h.
        conclude-Apart w (emit_all w chunks result no_reply)
          (emit_all-Open w chunks result no_reply (refl, refl, λ c. refl)))

-- If the connection takes every byte, and each chunk is encoded, then a stream that ends without an
-- error is sent as the frames of its chunks, in order, and the end mark.
pub stream_chat-frames :
    (w : Client) (chunks : List Chunk) (jsons : List (List ℕ))
    → Takes w
    → Encodes w chunks jsons
    → (stream_chat w true chunks none).sent ≡ frames jsons ++ end_frame
unfolding stream_chat
stream_chat-frames w chunks jsons t e =
    conclude-Sent w (frames jsons) (emit_all w chunks none no_reply) t
      (all_emitted w chunks jsons no_reply t e)
