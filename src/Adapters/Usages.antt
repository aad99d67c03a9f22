-- ===== src/Adapters/Usages.antt =====
-- internal/provider/anthropic/anthropic.go, internal/provider/openai/openai.go: the token counts that the
-- adapters pass on.
use route_forge.Base.{
  ℕ, ◌+◌, ◌^◌, ◌<◌, ◌≡◌, refl, ap, ◌∙◌, Option, none, some, List, [], ◌∷◌, arith, ltb, ◌==◌,
  if◌then◌else◌,
}
use route_forge.Accounting.{Usage}
use route_forge.Adapters.Anthropic.{
  AnthropicUsage, normalize_complete_usage, merge_stream_usage, newer, or_none,
}
use route_forge.Adapters.Openai.{normalize_usage}

abbrev pub counts : ℕ → ℕ → ℕ → Usage
counts input output total = record {
  input_tokens = some input;
  output_tokens = some output;
  total_tokens = some total;
}

-- For counts in the range of uint64, the OpenAI adapter passes on all three exactly when the total is
-- the exact sum of the other two, and refuses the usage otherwise; the Anthropic adapter passes on the
-- exact sum as the total when that is in the range, and refuses the usage otherwise.
pub usages_exact :
    (input output total : ℕ)
    → input < 2 ^ 64
    → output < 2 ^ 64
    → total < 2 ^ 64
    → (normalize_usage (
          some (record {
            prompt_tokens = some input;
            completion_tokens = some output;
            total_tokens = some total;
          }))
        ≡ (if total == input + output then some (some (counts input output total)) else none))
      × (normalize_complete_usage
            (some (record { input_tokens = some input; output_tokens = some output }))
          ≡ (if ltb (input + output) (2 ^ 64)
              then some (some (counts input output (input + output)))
              else none))
unfolding normalize_usage normalize_complete_usage
usages_exact input output total i o t = ground arith

-- The usages of a stream, merged one after another.
unfoldable pub merge_all : List AnthropicUsage → Option Usage → Option (Option Usage)
merge_all [] current = some current
merge_all (u ∷ us) current = elim (merge_stream_usage current (some u)) [
  | none ↦ none
  | some next ↦ merge_all us next
]

-- The last counts that a list of usages has, behind those before it.
abbrev pub latest_input : List AnthropicUsage → Option ℕ → Option ℕ
latest_input [] current = current
latest_input (u ∷ us) current = latest_input us (newer u.input_tokens current)

abbrev pub latest_output : List AnthropicUsage → Option ℕ → Option ℕ
latest_output [] current = current
latest_output (u ∷ us) current = latest_output us (newer u.output_tokens current)

-- The total of two counts, as soon as there are both.
abbrev pub sum_of : Option ℕ → Option ℕ → Option ℕ
sum_of (some input) (some output) = some (input + output)
sum_of _ _ = none

-- Counts whose sums stay in the range.
abbrev pub IsSmall : Option ℕ → Type 0
IsSmall none = Unit {0}
IsSmall (some n) = n < 2 ^ 63

abbrev pub AllSmall : List AnthropicUsage → Type 0
AllSmall [] = Unit {0}
AllSmall (u ∷ us) = IsSmall u.input_tokens × IsSmall u.output_tokens × AllSmall us

-- A usage with these counts and their total, if there are both.
abbrev pub IsUsage : Option ℕ → Option ℕ → Option Usage → Type 0
IsUsage input output u =
    ((or_none u).input_tokens ≡ input)
    × ((or_none u).output_tokens ≡ output)
    × ((or_none u).total_tokens ≡ sum_of input output)

newer-IsSmall : (n m : Option ℕ) → IsSmall n → IsSmall m → IsSmall (newer n m)
newer-IsSmall none m a b = b
newer-IsSmall (some n) m a b = a

merge-IsUsage :
    (input output i o : Option ℕ) (current : Option Usage)
    → IsUsage input output current
    → IsSmall (newer i input)
    → IsSmall (newer o output)
    → (next : Option Usage) × (merge_stream_usage current
          (some (record { input_tokens = i; output_tokens = o }))
        ≡ some next)
      × IsUsage (newer i input) (newer o output) next
unfolding merge_stream_usage
merge-IsUsage input output none none current u a b = (current, refl, u)
merge-IsUsage input output (some n) o current u a b = (
  some (record {
    input_tokens = some n;
    output_tokens = newer o output;
    total_tokens = sum_of (some n) (newer o output);
  }),
  ground arith,
  (refl, refl, refl),
)
merge-IsUsage input output none (some n) current u a b = (
  some (record {
    input_tokens = input;
    output_tokens = some n;
    total_tokens = sum_of input (some n);
  }),
  ground arith,
  (refl, refl, refl),
)

merge_from-IsUsage :
    (us : List AnthropicUsage) (input output : Option ℕ) (current : Option Usage)
    → IsUsage input output current
    → IsSmall input
    → IsSmall output
    → AllSmall us
    → (u : Option Usage) × (merge_all us current ≡ some u)
      × IsUsage (latest_input us input) (latest_output us output) u
unfolding merge_all
merge_from-IsUsage [] input output current c a b s = (current, refl, c)
merge_from-IsUsage (u ∷ us) input output current c a b s =
    let a' = newer-IsSmall u.input_tokens input s.0 a in
    let b' = newer-IsSmall u.output_tokens output s.1 b in
    let (next, e, c') = merge-IsUsage input output u.input_tokens u.output_tokens current c a' b' in
    let (v, e', c'') = merge_from-IsUsage us _ _ next c' a' b' s.2 in
    (
      v,
      ap (λ (m : Option (Option Usage)). elim m [ none ↦ none | some n ↦ merge_all us n ]) e ∙ e',
      c'',
    )

-- A stream of the Anthropic adapter whose counts are below 2^63 is never refused for its usages: merged,
-- they are the latest count of each kind, and the exact total as soon as there are both.
pub merge_all-IsUsage :
    (us : List AnthropicUsage)
    → AllSmall us
    → (u : Option Usage) × (merge_all us none ≡ some u)
      × IsUsage (latest_input us none) (latest_output us none) u
merge_all-IsUsage us s = merge_from-IsUsage us none none none (refl, refl, refl) tt tt s
