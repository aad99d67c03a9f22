-- ===== src/Benchmark/Percentile.antt =====
-- internal/benchmark/metrics.go: a percentile is the value of its nearest rank.
use native.Mathlib.Nat.{mul-le-mul}
use route_forge.Base.{
  ℕ, zero, suc, ◌+◌, ◌-◌, ◌*◌, ◌/◌, ◌≤◌, ◌<◌, ◌≡◌, refl, ap, Bool, true, false, not, some, List, [],
  ◌∷◌, inl, inr, arith, if-holds, Bool-cases, length, get_or, if◌then◌else◌,
}
use route_forge.Routing.Latency.{quot}
use route_forge.Base.Int.{ℤ, pos, ltb_ℤ}
use route_forge.Base.Sort.{sort, insert_sorted, IsSorted, sort-IsSorted}
use route_forge.Benchmark.Summary.{percentile_milliseconds}

-- How many elements of a list pass a test.
abbrev pub count : (ℤ → Bool) → List ℤ → ℕ
count p [] = 0
count p (x ∷ xs) = (if p x then 1 else 0) + count p xs

count-insert_sorted :
    (p : ℤ → Bool) (x : ℤ) (ys : List ℤ)
    → count p (insert_sorted ltb_ℤ x ys) ≡ (if p x then 1 else 0) + count p ys
unfolding insert_sorted
count-insert_sorted p x [] = refl
count-insert_sorted p x (y ∷ ys) = elim (Bool-cases (ltb_ℤ y x)) [
  | inl e ↦ rw e (omega (arith, count-insert_sorted p x ys))
  | inr e ↦ rw e refl
]

count-sort : (p : ℤ → Bool) (xs : List ℤ) → count p (sort ltb_ℤ xs) ≡ count p xs
unfolding sort
count-sort p [] = refl
count-sort p (x ∷ xs) = omega (arith, count-insert_sorted p x (sort ltb_ℤ xs), count-sort p xs)

length-insert_sorted : (x : ℤ) (ys : List ℤ) → length (insert_sorted ltb_ℤ x ys) ≡ length ys + 1
unfolding insert_sorted
length-insert_sorted x [] = refl
length-insert_sorted x (y ∷ ys) = elim (Bool-cases (ltb_ℤ y x)) [
  | inl e ↦ rw e (omega (arith, length-insert_sorted x ys))
  | inr e ↦ rw e (omega arith)
]

length-sort : (xs : List ℤ) → length (sort ltb_ℤ xs) ≡ length xs
unfolding sort
length-sort [] = refl
length-sort (x ∷ xs) = omega (arith, length-insert_sorted x (sort ltb_ℤ xs), length-sort xs)

-- Whether an element is less than a value, and whether it is at most that.
abbrev pub below : ℤ → ℤ → Bool
below v x = ltb_ℤ x v

abbrev pub at_most : ℤ → ℤ → Bool
at_most v x = not (ltb_ℤ v x)

abbrev nth : List ℤ → ℕ → ℤ
nth xs k = get_or xs k (pos 0)

head-le-nth :
    (x : ℤ) (xs : List ℤ) (k : ℕ)
    → IsSorted ltb_ℤ (x ∷ xs)
    → k < length (x ∷ xs)
    → ltb_ℤ (nth (x ∷ xs) k) x ≡ false
head-le-nth x xs zero s h = ground arith
head-le-nth x [] (suc k) s h = absurd (omega arith)
head-le-nth x (y ∷ ys) (suc k) s h =
    let next : ltb_ℤ (nth (y ∷ ys) k) y ≡ false = head-le-nth y ys k s.1 (omega arith) in
    ground arith

count-at_most :
    (xs : List ℤ) (k : ℕ) → IsSorted ltb_ℤ xs → k < length xs → k < count (at_most (nth xs k)) xs
count-at_most [] k s h = absurd (omega arith)
count-at_most (x ∷ xs) zero s h = ground arith
count-at_most (x ∷ []) (suc k) s h = absurd (omega arith)
count-at_most (x ∷ y ∷ ys) (suc k) s h =
    let first = head-le-nth x (y ∷ ys) (suc k) s h in
    let rest = count-at_most (y ∷ ys) k s.1 (omega arith) in rw first (omega (arith, rest))

none-below :
    (v x : ℤ) (xs : List ℤ)
    → IsSorted ltb_ℤ (x ∷ xs)
    → ltb_ℤ x v ≡ false
    → count (below v) (x ∷ xs) ≡ 0
none-below v x [] s h = rw h refl
none-below v x (y ∷ ys) s h =
    let next : ltb_ℤ y v ≡ false = ground arith in rw h (omega (arith, none-below v y ys s.1 next))

count-below :
    (xs : List ℤ) (k : ℕ) → IsSorted ltb_ℤ xs → k < length xs → count (below (nth xs k)) xs ≤ k
count-below [] k s h = absurd (omega arith)
count-below (x ∷ xs) zero s h = omega (arith, none-below x x xs s (ground arith))
count-below (x ∷ []) (suc k) s h = absurd (omega arith)
count-below (x ∷ y ∷ ys) (suc k) s h =
    let rest = count-below (y ∷ ys) k s.1 (omega arith) in
    if-holds (λ c. c + count (below (nth (y ∷ ys) k)) (y ∷ ys) ≤ suc k) (ltb_ℤ x (nth (y ∷ ys) k)) 1
      0 (λ e. omega arith) (λ e. omega arith)

ltb_ℤ_asym : (a b : ℤ) → ltb_ℤ a b ≡ true → ltb_ℤ b a ≡ false
ltb_ℤ_asym a b h = ground arith

-- The rank of a percentage of `n` values: at least one, at most `n`, and the least number that is the
-- percentage or more.
rank-bounds :
    (t n : ℕ)
    → 1 ≤ t
    → t ≤ 100 * n
    → ((t + 99) / 100 - 1 < n)
      × (100 * ((t + 99) / 100 - 1) < t)
      × (t ≤ 100 * ((t + 99) / 100 - 1) + 100)
rank-bounds t n low high = omega arith

-- What is the p-th percentile of a list by its counts: at least p percent of the values are at most
-- the value, and fewer than p percent are below it.
abbrev pub NearestRank : List ℤ → ℕ → ℤ → Type 0
NearestRank values p v =
    (p * length values ≤ 100 * count (at_most v) values)
    × (100 * count (below v) values < p * length values)

-- The percentile of measured values, from 1 to 100 percent, is in whole milliseconds a value such that at least that
-- percentage of them are at most it and less than that percentage are below it.
pub percentile_milliseconds-NearestRank :
    (v : ℤ) (vs : List ℤ) (p : ℕ)
    → 1 ≤ p
    → p ≤ 100
    → (x : ℤ) × (percentile_milliseconds (v ∷ vs) p ≡ some (quot x 1000000))
      × NearestRank (v ∷ vs) p x
unfolding percentile_milliseconds
percentile_milliseconds-NearestRank v vs p low high =
    let values = v ∷ vs in
    let ordered = sort ltb_ℤ values in
    let size : length ordered ≡ length values = length-sort values in
    let share = ap (λ n. p * n) size in
    let some_value : 1 ≤ length values = omega arith in
    let low_share : 1 * 1 ≤ p * length values = mul-le-mul low some_value in
    let high_share : p * length values ≤ 100 * length values = mul-le-mul high (omega arith) in
    let (inside, under, over) =
      rank-bounds (p * length ordered) (length ordered) (omega arith) (omega arith) in
    let k = (p * length ordered + 99) / 100 - 1 in
    let sorted = sort-IsSorted ltb_ℤ ltb_ℤ_asym values in
    let x = nth ordered k in
    let many : k < count (at_most x) ordered = count-at_most ordered k sorted inside in
    let few : count (below x) ordered ≤ k = count-below ordered k sorted inside in
    (
      x,
      refl,
      (omega (arith, count-sort (at_most x) values), omega (arith, count-sort (below x) values)),
    )
