-- ===== src/Accounting/Digits.antt =====
-- internal/accounting/pricing.go: the digits that `ParseUSDPerMillion` reads.
use mathlib.Core.List.{append-nil, append_assoc}
use native.Mathlib.Nat.{pow-suc}
use route_forge.Base.{
  ℕ, zero, suc, ◌+◌, ◌-◌, ◌*◌, ◌^◌, ◌≤◌, ◌<◌, ◌≡◌, refl, sym, true, none, some, List, [], ◌∷◌, ◌++◌,
  length, length-append, leb, if◌then◌else◌, arith,
}
use route_forge.Accounting.{max_uint64}
use route_forge.Accounting.Price.{is_digit, parse_digits, parse_uint, pad, zero_if_empty}

-- A text of decimal digits.
abbrev pub Digits : List ℕ → Type 0
Digits [] = Unit {0}
Digits (c ∷ s) = (is_digit c ≡ true) × Digits s

-- The number that digits denote, after those of `n`.
abbrev pub number : ℕ → List ℕ → ℕ
number n [] = n
number n (c ∷ s) = number (n * 10 + (c - b'0')) s

number-ge : (n : ℕ) (s : List ℕ) → n ≤ number n s
number-ge n [] = omega arith
number-ge n (c ∷ s) = omega (arith, number-ge (n * 10 + (c - b'0')) s)

parse_digits_lem :
    (n : ℕ) (s : List ℕ)
    → Digits s
    → n ≤ max_uint64
    → parse_digits n s ≡ (if leb (number n s) max_uint64 then some (number n s) else none)
unfolding parse_digits
parse_digits_lem n [] d h = ground arith
parse_digits_lem n (c ∷ s) d h =
    ground (arith, parse_digits_lem (n * 10 + (c - b'0')) s d.1, number-ge (n * 10 + (c - b'0')) s)

pub parse_uint_lem :
    (s : List ℕ)
    → Digits s
    → parse_uint (zero_if_empty s)
      ≡ (if leb (number 0 s) max_uint64 then some (number 0 s) else none)
unfolding parse_uint
parse_uint_lem [] d = refl
parse_uint_lem (c ∷ s) d = parse_digits_lem 0 (c ∷ s) d (omega arith)

unfoldable pub zeros : ℕ → List ℕ
zeros zero = []
zeros (suc k) = b'0' ∷ zeros k

pub pad_lem : (fuel j : ℕ) (s : List ℕ) → length s + j ≡ 6 → j ≤ fuel → pad fuel s ≡ s ++ zeros j
unfolding pad zeros
pad_lem zero zero s e h = sym (append-nil s)
pad_lem zero (suc j) s e h = absurd (omega arith)
pad_lem (suc fuel) zero s e h = ground (arith, append-nil s)
pad_lem (suc fuel) (suc j) s e h = ground (
  arith,
  pad_lem fuel j (s ++ (b'0' ∷ [])),
  length-append s (b'0' ∷ []),
  append_assoc s (b'0' ∷ []) (zeros j),
)

pub number-append : (n : ℕ) (s t : List ℕ) → number n (s ++ t) ≡ number (number n s) t
number-append n [] t = refl
number-append n (c ∷ s) t = number-append (n * 10 + (c - b'0')) s t

pub number-zeros : (n k : ℕ) → number n (zeros k) ≡ n * 10 ^ k
unfolding zeros
number-zeros n zero = omega arith
number-zeros n (suc k) = rw (pow-suc 10 k) (omega (arith, number-zeros (n * 10 + 0) k))

pub number-lt : (n : ℕ) (s : List ℕ) → Digits s → number n s < (n + 1) * 10 ^ length s
number-lt n [] d = omega arith
number-lt n (c ∷ s) d =
    rw (pow-suc 10 (length s)) (below (10 ^ length s) digit (number-lt (n * 10 + (c - b'0')) s d.1))
  where
    digit : c - b'0' ≤ 9
    digit = let e = d.0 in ground arith

    below :
        (p : ℕ)
        → c - b'0' ≤ 9
        → number (n * 10 + (c - b'0')) s < (n * 10 + (c - b'0') + 1) * p
        → number (n * 10 + (c - b'0')) s < (n + 1) * (p * 10)
    below p h k = grind arith

pub Digits-append : (s t : List ℕ) → Digits s → Digits t → Digits (s ++ t)
Digits-append [] t d e = e
Digits-append (c ∷ s) t d e = (d.0, Digits-append s t d.1 e)

pub Digits-zeros : (k : ℕ) → Digits (zeros k)
unfolding zeros
Digits-zeros zero = tt
Digits-zeros (suc k) = (refl, Digits-zeros k)
