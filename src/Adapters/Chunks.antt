-- ===== src/Adapters/Chunks.antt =====
-- internal/provider/anthropic/anthropic.go: what one event does to the stream.
use route_forge.Base.{
  ℕ, ◌≡◌, refl, ◌⊎◌, inr, true, false, Bool, not, ◌||◌, Option, none, some, List, [], arith,
  if-holds,
}
use route_forge.Base.Result.{ok, err}
use route_forge.Base.Text.{codes, same}
use route_forge.Accounting.{Usage}
use route_forge.Accounting.Price.{is_empty}
use route_forge.Service.{Chunk}
use route_forge.Adapters.Anthropic.{StreamEvent, ContentBlock, AnthropicUsage, merge_stream_usage}
use route_forge.Adapters.AnthropicStream.{
  AnthropicStream, Round, continues, returns, text_chunk, started, with_usage, message_changed,
  block_started, block_changed, see_event,
}

-- How a chunk speaks: it is the first with text, and names the role, or it names none, and has no text
-- unless the role was named before it.
abbrev pub Speaks : Bool → Chunk → Bool → Type 0
Speaks before k after =
    ((before ≡ false) × (k.role ≡ codes "assistant") × (after ≡ true))
    ⊎ ((k.role ≡ []) × (after ≡ before) × ((before ≡ true) ⊎ (k.content ≡ [])))

-- What a round may do: an event that returns nothing leaves the role and the reader alone.
unfoldable pub Steps : AnthropicStream → Round → Type 0
Steps s (continues s') = (s'.events ≡ s.events) × (s'.sent_role ≡ s.sent_role)
Steps s (returns (ok k) s') = (s'.events ≡ s.events) × Speaks s.sent_role k s'.sent_role
Steps s (returns (err e) s') = Unit {0}

module _ (s : AnthropicStream) where
  text_chunk-Steps : (now : ℕ) (content : List ℕ) → Steps s (text_chunk now content s)
  unfolding Steps text_chunk
  text_chunk-Steps now content = (refl, ground arith)

  block_started-Steps : (now : ℕ) (b : ContentBlock) → Steps s (block_started now b s)
  unfolding Steps
  block_started-Steps now b =
      if-holds (Steps s) (not (same b.kind (codes "text"))) _ _ (λ h. tt)
        (λ h.
          if-holds (Steps s) (is_empty b.text) _ _ (λ e. (refl, refl))
            (λ e. text_chunk-Steps now b.text))

  block_changed-Steps : (now : ℕ) (b : ContentBlock) → Steps s (block_changed now b s)
  unfolding Steps
  block_changed-Steps now b =
      if-holds (Steps s) (not (same b.kind (codes "text_delta"))) _ _ (λ h. tt)
        (λ h. text_chunk-Steps now b.text)

  started-Steps :
      (d : StreamEvent) (usage : Option (Option Usage))
      → Steps s (started d (record s { id = d.message_id; model = d.message_model }) usage)
  unfolding Steps
  started-Steps d none = tt
  started-Steps d (some none) = (refl, refl)
  started-Steps d (some (some u)) = (refl, inr (refl, refl, inr refl))

  with_usage-Steps :
      (u : Option AnthropicUsage) (usage : Option Usage)
      → Steps s (with_usage u (record s { usage = usage }))
  unfolding Steps
  with_usage-Steps none usage = (refl, refl)
  with_usage-Steps (some u) usage = (refl, inr (refl, refl, inr refl))

  message_changed-Steps :
      (now : ℕ) (d : StreamEvent) (usage : Option (Option Usage))
      → Steps s (message_changed now d s usage)
  unfolding Steps
  message_changed-Steps now d none = tt
  message_changed-Steps now d (some usage) =
      if-holds (Steps s) (is_empty d.stop_reason) _ _ (λ h. with_usage-Steps d.usage usage)
        (λ h. (refl, inr (refl, refl, inr refl)))

  pub see_event-Steps :
      (now : ℕ) (kind : List ℕ) (d : StreamEvent) → Steps s (see_event now kind d s)
  unfolding see_event Steps
  see_event-Steps now kind d =
      if-holds (Steps s) (same kind (codes "ping") || same kind (codes "content_block_stop")) _ _
        (λ h. (refl, refl))
        (λ h.
          if-holds (Steps s) (same kind (codes "message_start")) _ _
            (λ h. started-Steps d (merge_stream_usage s.usage d.message_usage))
            (λ h.
              if-holds (Steps s) (same kind (codes "content_block_start")) _ _
                (λ h. block_started-Steps now d.block)
                (λ h.
                  if-holds (Steps s) (same kind (codes "content_block_delta")) _ _
                    (λ h. block_changed-Steps now d.delta)
                    (λ h.
                      if-holds (Steps s) (same kind (codes "message_delta")) _ _
                        (λ h. message_changed-Steps now d (merge_stream_usage s.usage d.usage))
                        (λ h.
                          if-holds (Steps s) (same kind (codes "message_stop")) _ _ (λ h. tt)
                            (λ h. tt))))))
