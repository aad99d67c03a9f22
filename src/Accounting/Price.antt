-- ===== src/Accounting/Price.antt =====
-- internal/accounting/pricing.go: `ParseUSDPerMillion`, over the bytes of the text. `strings.TrimSpace`
-- is modelled on ASCII text, where it trims the six ASCII spaces.
use route_forge.Base.{
  ℕ, zero, suc, ◌+◌, ◌-◌, ◌*◌, ◌/◌, ◌%◌, ◌^◌, Bool, true, false, ◌&&◌, ◌||◌, Option, none, some,
  List, [], ◌∷◌, ◌++◌, length, ltb, leb, ◌==◌, if◌then◌else◌,
}
use mathlib.Core.List.{reverse}
use route_forge.Base.Result.{Result, ok, err}
use route_forge.Accounting.{max_uint64}

abbrev pub micro_usd_per_usd : ℕ
micro_usd_per_usd = 1000000

pub data PriceError : Type 0 where
  not_decimal out_of_range too_many_places : PriceError

abbrev pub is_space : ℕ → Bool
is_space c = (c == 32) || (leb 9 c && leb c 13)

unfoldable pub trim_left : List ℕ → List ℕ
trim_left [] = []
trim_left (c ∷ s) = let rest = trim_left s in if is_space c then rest else c ∷ s

unfoldable pub trim_space : List ℕ → List ℕ
unfolding trim_left
trim_space s = reverse (trim_left (reverse (trim_left s)))

-- `strings.HasPrefix(value, "-") || strings.HasPrefix(value, "+")`, or no text at all.
abbrev pub no_number : List ℕ → Bool
no_number [] = true
no_number (c ∷ s) = (c == b'-') || (c == b'+')

-- `strings.Split(value, ".")`: the first part, and the others.
unfoldable pub split_dot : List ℕ → List ℕ × List (List ℕ)
split_dot [] = ([], [])
split_dot (c ∷ s) =
    let (part, parts) = split_dot s in if c == b'.' then ([], part ∷ parts) else (c ∷ part, parts)

abbrev pub is_digit : ℕ → Bool
is_digit c = leb b'0' c && leb c b'9'

-- `strconv.ParseUint(s, 10, 64)`.
unfoldable pub parse_digits : ℕ → List ℕ → Option ℕ
parse_digits n [] = some n
parse_digits n (c ∷ s) =
    let rest = parse_digits (n * 10 + (c - b'0')) s in
    if is_digit c && leb (n * 10 + (c - b'0')) max_uint64 then rest else none

unfoldable pub parse_uint : List ℕ → Option ℕ
unfolding parse_digits
parse_uint [] = none
parse_uint (c ∷ s) = parse_digits 0 (c ∷ s)

-- `for len(fractionText) < 6 { fractionText += "0" }`: at most `fuel` rounds.
unfoldable pub pad : ℕ → List ℕ → List ℕ
pad zero s = s
pad (suc fuel) s = let rest = pad fuel (s ++ (b'0' ∷ [])) in if ltb (length s) 6 then rest else s

unfoldable pub add_fraction : ℕ → Option ℕ → Result PriceError ℕ
add_fraction whole none = err not_decimal
add_fraction whole (some fraction) =
    if ltb (max_uint64 - fraction) (whole * micro_usd_per_usd % 2 ^ 64)
    then err out_of_range
    else ok ((whole * micro_usd_per_usd % 2 ^ 64 + fraction) % 2 ^ 64)

unfoldable pub with_fraction : ℕ → List ℕ → Result PriceError ℕ
unfolding pad add_fraction
with_fraction whole fraction_text =
    if ltb 6 (length fraction_text)
    then err too_many_places
    else add_fraction whole (parse_uint (pad 6 fraction_text))

unfoldable pub with_whole : Option ℕ → List ℕ → Result PriceError ℕ
unfolding with_fraction
with_whole none fraction_text = err out_of_range
with_whole (some whole) fraction_text =
    if ltb (max_uint64 / micro_usd_per_usd) whole
    then err out_of_range
    else with_fraction whole fraction_text

abbrev pub zero_if_empty : List ℕ → List ℕ
zero_if_empty [] = b'0' ∷ []
zero_if_empty (c ∷ s) = c ∷ s

abbrev pub is_empty : List ℕ → Bool
is_empty [] = true
is_empty (c ∷ s) = false

unfoldable pub parse_parts : List ℕ → List (List ℕ) → Result PriceError ℕ
unfolding with_whole
parse_parts whole_text [] =
    if is_empty whole_text then err not_decimal else with_whole (parse_uint whole_text) []
parse_parts whole_text (fraction_text ∷ []) =
    if is_empty whole_text && is_empty fraction_text
    then err not_decimal
    else with_whole (parse_uint (zero_if_empty whole_text)) fraction_text
parse_parts whole_text (a ∷ b ∷ rest) = err not_decimal

unfoldable pub parse_usd_per_million : List ℕ → Result PriceError ℕ
unfolding parse_parts
parse_usd_per_million text =
    let value = trim_space text in
    let (whole_text, parts) = split_dot value in
    if no_number value then err not_decimal else parse_parts whole_text parts
