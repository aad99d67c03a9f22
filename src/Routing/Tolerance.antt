-- ===== src/Routing/Tolerance.antt =====
-- internal/gateway/routing.go: what the tests of the latency policies decide.
use route_forge.Base.{
  ℕ, zero, suc, ◌+◌, ◌-◌, ◌*◌, ◌%◌, ◌^◌, ◌<◌, ◌≡◌, refl, ap, ◌∙◌, ◌⊎◌, inl, inr, true, ◌&&◌, ◌||◌,
  List, [], ◌∷◌, get_or, ltb, leb, ◌==◌, if◌then◌else◌, arith, Bool-cases, ltb→lt, sym,
}
use mathlib.Core.Path.{subst}
use native.Mathlib.Nat.{mod-add-mod, mod-eq_of_lt, mod_self}
use route_forge.Telemetry.Window.{mod_below}
use route_forge.Base.Int.{ℤ, pos, ◌-ℤ◌, ltb_ℤ, ◌≤ℤ◌}
use route_forge.Routing.{move_to_front}
use route_forge.Routing.Latency.{
  le_words, mul64, within_latency_tolerance, quot, best_from, latency_order, count_due,
}

-- Comparing two products by their high and low words compares the products.
pub le_words-mul64 : (a b c d : ℕ) → le_words (mul64 a b) (mul64 c d) ≡ leb (a * b) (c * d)
unfolding le_words
le_words-mul64 a b c d = ground arith

-- For durations in the range of an int64, a candidate is within the tolerance exactly if it is no slower
-- than the fastest, or the fastest is positive and the candidate is slower by at most `percent` percent
-- of the fastest, in exact arithmetic.
pub tolerance_exact :
    (candidate fastest percent : ℕ)
    → candidate < 2 ^ 63
    → fastest < 2 ^ 63
    → within_latency_tolerance (pos candidate) (pos fastest) percent ≡ (
        leb candidate fastest
        || (ltb 0 fastest && leb ((candidate - fastest) * 100) (fastest * percent)))
unfolding within_latency_tolerance ◌-ℤ◌
tolerance_exact candidate fastest percent hc hf =
    ground (arith, le_words-mul64 (candidate - fastest) 100 fastest percent)

-- All medians are at least as long as a duration.
abbrev pub AllAtLeast : ℤ → List ℤ → Type 0
AllAtLeast v [] = Unit {0}
AllAtLeast v (m ∷ medians) = (v ≤ℤ m) × AllAtLeast v medians

AllAtLeast-mono : (v w : ℤ) (ms : List ℤ) → v ≤ℤ w → AllAtLeast w ms → AllAtLeast v ms
AllAtLeast-mono v w [] h a = tt
AllAtLeast-mono v w (m ∷ ms) h a = (omega arith, AllAtLeast-mono v w ms h a.1)

best_from-least :
    (i : ℕ) (ms : List ℤ) (best : ℕ) (value : ℤ)
    → ((best_from i ms best value).1 ≤ℤ value) × AllAtLeast (best_from i ms best value).1 ms
unfolding best_from
best_from-least i [] best value = (omega arith, tt)
best_from-least i (m ∷ ms) best value =
    let v : ℤ = if ltb_ℤ m value then m else value in
    let b : ℕ = if ltb_ℤ m value then i else best in
    let r = best_from-least (i + 1) ms b v in
    let e : (v ≤ℤ value) × (v ≤ℤ m) = ground arith in (omega arith, (omega arith, r.1))

best_from-index :
    (all : List ℤ) (i : ℕ) (ms : List ℤ) (best : ℕ) (value : ℤ)
    → ((k : ℕ) → get_or all (i + k) (pos 0) ≡ get_or ms k (pos 0))
    → get_or all best (pos 0) ≡ value
    → get_or all (best_from i ms best value).0 (pos 0) ≡ (best_from i ms best value).1
unfolding best_from
best_from-index all i [] best value h e = e
best_from-index all i (m ∷ ms) best value h e =
    best_from-index all (i + 1) ms (if ltb_ℤ m value then i else best)
      (if ltb_ℤ m value then m else value)
      (λ k. ap (λ n. get_or all n (pos 0)) (omega arith) ∙ h (suc k))
      (elim (Bool-cases (ltb_ℤ m value)) [
        | inl t ↦ rw t (ap (λ n. get_or all n (pos 0)) (omega arith) ∙ h 0)
        | inr t ↦ rw t e
      ])

-- All medians are longer than a duration.
abbrev pub AllAbove : ℤ → List ℤ → Type 0
AllAbove v [] = Unit {0}
AllAbove v (m ∷ medians) = (ltb_ℤ v m ≡ true) × AllAbove v medians

AllAtLeast-AllAbove : (v w : ℤ) (ms : List ℤ) → ltb_ℤ v w ≡ true → AllAtLeast w ms → AllAbove v ms
AllAtLeast-AllAbove v w [] h a = tt
AllAtLeast-AllAbove v w (m ∷ ms) h a = (ground arith, AllAtLeast-AllAbove v w ms h a.1)

-- The order that the medians ask for. It is kept if the first median is the least, or no other is shorter
-- by at least a tenth of the first, rounded down; otherwise a candidate of the least median, which is
-- shorter by as much, moves to the front.
abbrev pub Switched : {A : Type 0} → ℤ → List ℤ → List A → List A → Type 0
Switched m medians ordered result =
    ((result ≡ ordered) × (AllAtLeast m medians ⊎ AllAbove (m -ℤ quot m 10) medians))
    ⊎ ((best : ℕ) × (result ≡ move_to_front best ordered)
        × AllAtLeast (get_or (m ∷ medians) best (pos 0)) (m ∷ medians)
        × (get_or (m ∷ medians) best (pos 0) ≤ℤ m -ℤ quot m 10))

pub latency_order-Switched :
    {A : Type 0} (m : ℤ) (medians : List ℤ) (ordered : List A)
    → Switched m medians ordered (latency_order (m ∷ medians) ordered)
unfolding latency_order
latency_order-Switched m medians ordered =
    let b = best_from 1 medians 0 m in
    let least = best_from-least 1 medians 0 m in
    let index =
      best_from-index (m ∷ medians) 1 medians 0 m
        (λ k. ap (λ n. get_or (m ∷ medians) n (pos 0)) {y = suc k} (omega arith)) refl in
    elim (Bool-cases (b.0 == 0)) [
      | inl e ↦
          let zeroth : b.0 ≡ 0 = ground arith in
          let value : m ≡ b.1 = ap (λ n. get_or (m ∷ medians) n (pos 0)) (sym zeroth) ∙ index in
          inl (rw e refl, inl (subst (λ v. AllAtLeast v medians) (sym value) least.1))
      | inr e ↦ elim (Bool-cases (ltb_ℤ (m -ℤ quot m 10) b.1)) [
        | inl f ↦
            inl (rw (e, f) refl, inr (AllAtLeast-AllAbove (m -ℤ quot m 10) b.1 medians f least.1))
        | inr f ↦ inr (
          b.0,
          rw (e, f) refl,
          subst (λ v. AllAtLeast v (m ∷ medians)) (sym index) (least.0, least.1),
          subst (λ v. v ≤ℤ m -ℤ quot m 10) (sym index) (ground arith),
        )
      ]
    ]

-- The exploration count after some calls of `explorationDue` on a count that started at 0.
abbrev pub count_after : ℕ → ℕ → ℕ
count_after interval zero = 0
count_after interval (suc n) = (count_due interval (count_after interval n)).0

suc-mod : (n m : ℕ) → 0 < m → suc n % m ≡ (if ltb (n % m + 1) m then n % m + 1 else 0)
suc-mod n m h =
    ap (λ k. k % m) (omega arith)
    ∙ sym (mod-add-mod n m 1)
    ∙ elim (Bool-cases (ltb (n % m + 1) m)) [
      | inl e ↦ rw e (mod-eq_of_lt (ltb→lt _ _ e))
      | inr e ↦
          let full : n % m + 1 ≡ m = ground (arith, mod_below n m) in
          rw e (ap (λ k. k % m) full ∙ mod_self m)
    ]

count_after-mod : (interval n : ℕ) → 0 < interval → count_after interval n ≡ n % interval
unfolding count_due
count_after-mod interval zero h = sym (mod-eq_of_lt h)
count_after-mod interval (suc n) h =
    ap (λ k. (count_due interval k).0) (count_after-mod interval n h)
    ∙ ground (arith, suc-mod n interval h)

-- Exploration is due at every `interval`-th call for a mode, and at no other.
pub exploration_periodic :
    (interval n : ℕ)
    → 0 < interval
    → (count_due interval (count_after interval n)).1 ≡ (suc n % interval == 0)
unfolding count_due
exploration_periodic interval n h =
    ap (λ k. (count_due interval k).1) (count_after-mod interval n h)
    ∙ ground (arith, suc-mod n interval h)
