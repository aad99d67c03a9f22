-- ===== src/Cache.antt =====
-- internal/cache/cache.go and internal/gateway/cache.go: which responses are cached, and which cached
-- bytes are answered with. `Json` is the encoder and the strict decoder of the envelope, its version and
-- its response; the decoder also says whether nothing follows.
pub mod Whole
use route_forge.Base.{
  ℕ, ◌+◌, Bool, true, false, not, ◌&&◌, ◌||◌, ◌==◌, Option, none, some, List, [], ◌∷◌, length, ltb,
  if◌then◌else◌,
}
use route_forge.Base.Text.{codes, same}
use route_forge.Accounting.Price.{is_empty}
use route_forge.Service.{Choice, Response}

abbrev pub max_value_bytes : ℕ
max_value_bytes = 1048576

-- Five minutes, and a millisecond.
abbrev pub default_ttl : ℕ
default_ttl = 300000000000

abbrev pub millisecond : ℕ
millisecond = 1000000

pub record Json : Type 0 where
  pub write : ℕ → Response → List ℕ
  pub read : List ℕ → Option (ℕ × Response × Bool)

unfoldable pub whole_choices : ℕ → List Choice → Bool
whole_choices i [] = true
whole_choices i (k ∷ choices) =
    let rest = whole_choices (i + 1) choices in
    if not (k.index == i)
      || (not (same k.message.role (codes "assistant"))
          || (is_empty k.message.content || not (same k.finish_reason (codes "stop"))))
    then false
    else rest

abbrev pub has_choices : List Choice → Bool
has_choices [] = false
has_choices (k ∷ choices) = true

-- `complete`.
unfoldable pub is_whole : Response → Bool
unfolding whole_choices
is_whole r =
    if is_empty r.id
      || (not (same r.object (codes "chat.completion"))
          || (is_empty r.model || not (has_choices r.choices)))
    then false
    else whole_choices 0 r.choices

module _ (j : Json) where
  -- `Encode`: the encoder writes all of the bytes at once to the bounded buffer.
  unfoldable pub encode : Response → Option (List ℕ)
  unfolding is_whole
  encode r =
      if not (is_whole r)
      then none
      else if ltb max_value_bytes (length (j.write 1 r))
      then none
      else some (j.write 1 r)

  abbrev pub versioned : Option (ℕ × Response × Bool) → Option Response
  versioned none = none
  versioned (some (version, r, ended)) =
      if not (version == 1) || (not (is_whole r) || not ended) then none else some r

  -- `Decode`.
  unfoldable pub decode : List ℕ → Option Response
  decode bytes =
      if is_empty bytes || ltb max_value_bytes (length bytes)
      then none
      else versioned (j.read bytes)

  -- The response that `lookupCompletion` finds, by what the store answers: none for an error.
  unfoldable pub found : List ℕ → Option (List ℕ) → Option Response
  unfolding decode
  found [] answer = none
  found (k ∷ key) none = none
  found (k ∷ key) (some []) = none
  found (k ∷ key) (some (b ∷ bytes)) = decode (b ∷ bytes)

-- `SetCache`: the time to live that is stored.
abbrev pub cache_ttl : ℕ → ℕ
cache_ttl ttl = if ltb ttl millisecond then default_ttl else ttl
