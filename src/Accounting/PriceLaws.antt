-- ===== src/Accounting/PriceLaws.antt =====
-- internal/accounting/pricing.go: what `ParseUSDPerMillion` makes of a decimal.
use mathlib.Core.List.{reverse, reverse-cons, reverse-reverse}
use route_forge.Base.{
  ℕ, zero, suc, ◌+◌, ◌-◌, ◌*◌, ◌^◌, ◌≤◌, ◌<◌, ◌≡◌, refl, ap, ◌∙◌, inl, inr, false, ◌&&◌, some, List,
  [], ◌∷◌, ◌++◌, length, length-append, ltb, if◌then◌else◌, arith, Bool-cases,
}
use route_forge.Accounting.{max_uint64}
use route_forge.Accounting.Digits.{
  Digits, number, parse_uint_lem, pad_lem, number-append, number-zeros, number-lt, Digits-append,
  Digits-zeros, zeros,
}
use route_forge.Base.Result.{Result, ok, err}
use route_forge.Accounting.Price.{
  not_decimal, out_of_range, too_many_places, PriceError, is_space, trim_left, trim_space,
  no_number, split_dot, parse_uint, pad, with_fraction, with_whole, zero_if_empty, is_empty,
  parse_parts, parse_usd_per_million,
}

-- The bytes of a decimal are no spaces, so trimming leaves them.
abbrev Solid : List ℕ → Type 0
Solid [] = Unit {0}
Solid (c ∷ s) = (is_space c ≡ false) × Solid s

Solid-append : (s t : List ℕ) → Solid s → Solid t → Solid (s ++ t)
Solid-append [] t d e = e
Solid-append (c ∷ s) t d e = (d.0, Solid-append s t d.1 e)

Solid-reverse : (s : List ℕ) → Solid s → Solid (reverse s)
Solid-reverse [] d = tt
Solid-reverse (c ∷ s) d =
    rw (reverse-cons c s) (Solid-append (reverse s) (c ∷ []) (Solid-reverse s d.1) (d.0, tt))

Solid-trim_left : (s : List ℕ) → Solid s → trim_left s ≡ s
unfolding trim_left
Solid-trim_left [] d = refl
Solid-trim_left (c ∷ s) d = ground arith

Solid-trim_space : (s : List ℕ) → Solid s → trim_space s ≡ s
unfolding trim_space
Solid-trim_space s d =
    ap (λ t. reverse (trim_left (reverse t))) (Solid-trim_left s d)
    ∙ ap reverse (Solid-trim_left (reverse s) (Solid-reverse s d))
    ∙ reverse-reverse s

Digits-Solid : (s : List ℕ) → Digits s → Solid s
Digits-Solid [] d = tt
Digits-Solid (c ∷ s) d = (ground arith, Digits-Solid s d.1)

split_dot-Digits : (s : List ℕ) → Digits s → split_dot s ≡ (s, [])
unfolding split_dot
split_dot-Digits [] d = refl
split_dot-Digits (c ∷ s) d = ground (arith, split_dot-Digits s d.1)

split_dot_decimal : (s f : List ℕ) → Digits s → Digits f → split_dot (s ++ (b'.' ∷ f)) ≡ (s, f ∷ [])
unfolding split_dot
split_dot_decimal [] f d e = ground (arith, split_dot-Digits f e)
split_dot_decimal (c ∷ s) f d e = ground (arith, split_dot_decimal s f d.1 e)

-- What a decimal with the digits `w` before the point and `f` behind it stands for, in exact
-- arithmetic: the error that is reported first, or its value in millionths.
abbrev pub decimal_value : List ℕ → List ℕ → Result PriceError ℕ
decimal_value w f =
    let value = number 0 w * 1000000 + number 0 f * 10 ^ (6 - length f) in
    if is_empty w && is_empty f
    then err not_decimal
    else if ltb 18446744073709 (number 0 w)
    then err out_of_range
    else if ltb 6 (length f)
    then err too_many_places
    else if ltb max_uint64 value
    then err out_of_range
    else ok value

length-zeros : (k : ℕ) → length (zeros k) ≡ k
unfolding zeros
length-zeros zero = refl
length-zeros (suc k) = ap suc (length-zeros k)

-- Six digits are read as their number.
six-Digits :
    (s : List ℕ)
    → Digits s
    → length s ≡ 6
    → (parse_uint s ≡ some (number 0 s)) × (number 0 s ≤ max_uint64)
six-Digits [] d e = absurd (omega arith)
six-Digits (c ∷ s) d e =
    let b : number 0 (c ∷ s) < 1000000 =
      let b' : number 0 (c ∷ s) < (0 + 1) * 10 ^ length (c ∷ s) = number-lt 0 (c ∷ s) d in
      rw e at b' in
    ground (arith, parse_uint_lem (c ∷ s) d)

padded_lem :
    (f : List ℕ)
    → Digits f
    → length f ≤ 6
    → (parse_uint (pad 6 f) ≡ some (number 0 f * 10 ^ (6 - length f)))
      × (number 0 f * 10 ^ (6 - length f) ≤ max_uint64)
padded_lem f d h =
    let k : ℕ = 6 - length f in
    let e : pad 6 f ≡ f ++ zeros k = pad_lem 6 k f (omega arith) (omega arith) in
    let n : number 0 (pad 6 f) ≡ number 0 f * 10 ^ k =
      ap (number 0) e ∙ number-append 0 f (zeros k) ∙ number-zeros (number 0 f) k in
    let six : length (pad 6 f) ≡ 6 =
      ap length e ∙ omega (arith, length-append f (zeros k), length-zeros k) in
    let digits : Digits (pad 6 f) = rw e (Digits-append f (zeros k) d (Digits-zeros k)) in
    rw n at (six-Digits (pad 6 f) digits six)

with_fraction_lem :
    (whole : ℕ) (f : List ℕ)
    → Digits f
    → whole ≤ 18446744073709
    → with_fraction whole f ≡ (
        if ltb 6 (length f)
        then err too_many_places
        else if ltb max_uint64 (whole * 1000000 + number 0 f * 10 ^ (6 - length f))
        then err out_of_range
        else ok (whole * 1000000 + number 0 f * 10 ^ (6 - length f)))
unfolding with_fraction
with_fraction_lem whole f d h = ground (arith, padded_lem f d)

with_whole_lem :
    (w f : List ℕ)
    → Digits w
    → Digits f
    → is_empty w && is_empty f ≡ false
    → with_whole (parse_uint (zero_if_empty w)) f ≡ decimal_value w f
unfolding with_whole
with_whole_lem w f d e h = ground (arith, parse_uint_lem w d, with_fraction_lem (number 0 w) f e)

no_number_decimal : (w f : List ℕ) → Digits w → no_number (w ++ (b'.' ∷ f)) ≡ false
no_number_decimal [] f d = refl
no_number_decimal (c ∷ w) f d = ground arith

parse_parts_lem : (w f : List ℕ) → Digits w → Digits f → parse_parts w (f ∷ []) ≡ decimal_value w f
unfolding parse_parts
parse_parts_lem w f d e = elim (Bool-cases (is_empty w && is_empty f)) [
  | inl h ↦ rw h
  | inr h ↦ rw h (with_whole_lem w f d e h ∙ rw h)
]

parse_trimmed :
    (text w : List ℕ) (parts : List (List ℕ))
    → trim_space text ≡ text
    → split_dot text ≡ (w, parts)
    → no_number text ≡ false
    → parse_usd_per_million text ≡ parse_parts w parts
unfolding parse_usd_per_million
parse_trimmed text w parts t s n = rw t (rw s (rw n refl))

parse_whole_lem :
    (w : List ℕ) → Digits w → is_empty w ≡ false → parse_parts w [] ≡ decimal_value w []
unfolding parse_parts
parse_whole_lem [] d h = cc
parse_whole_lem (c ∷ w) d h = with_whole_lem (c ∷ w) [] d tt refl

parse_pointless : (w : List ℕ) → Digits w → parse_usd_per_million w ≡ decimal_value w []
unfolding parse_usd_per_million trim_space trim_left
parse_pointless [] d = refl
parse_pointless (c ∷ w) d =
    parse_trimmed (c ∷ w) (c ∷ w) [] (Solid-trim_space (c ∷ w) (Digits-Solid (c ∷ w) d))
      (split_dot-Digits (c ∷ w) d) (ground arith)
    ∙ parse_whole_lem (c ∷ w) d refl

parse_pointed :
    (w f : List ℕ)
    → Digits w
    → Digits f
    → parse_usd_per_million (w ++ (b'.' ∷ f)) ≡ decimal_value w f
parse_pointed w f d e =
    parse_trimmed (w ++ (b'.' ∷ f)) w (f ∷ [])
      (Solid-trim_space (w ++ (b'.' ∷ f))
        (Solid-append w (b'.' ∷ f) (Digits-Solid w d) (refl, Digits-Solid f e)))
      (split_dot_decimal w f d e) (no_number_decimal w f d)
    ∙ parse_parts_lem w f d e

-- `ParseUSDPerMillion` reads a decimal, with digits before a point and behind it or with digits alone, as
-- the number it stands for, in millionths: exactly, or with an error if there are no digits at all, more
-- than six behind the point, or the value leaves the range of a uint64.
pub parse_decimal :
    (w f : List ℕ)
    → Digits w
    → Digits f
    → (parse_usd_per_million (w ++ (b'.' ∷ f)) ≡ decimal_value w f)
      × (parse_usd_per_million w ≡ decimal_value w [])
parse_decimal w f d e = (parse_pointed w f d e, parse_pointless w d)
