-- ===== src/Telemetry/Window.antt =====
-- internal/gateway/telemetry.go: what a walk round a ring's storage reads before and after a write.
use native.Mathlib.Nat.{mod-add-mod, mod-eq_of_lt, mod-lt, mod-eq-sub-mod}
use native.Mathlib.Decide.{dec_lt}
use route_forge.Base.{
  ℕ, zero, suc, ◌+◌, ◌-◌, ◌%◌, ◌≤◌, ◌<◌, ◌≡◌, refl, sym, ap, ap₂, ◌∙◌, ◌≢◌, List, [], ◌∷◌, ◌++◌,
  length, set, length-set, get_or, drop, arith,
}
use route_forge.Telemetry.Rings.{collect}

pub mod_small : (n len : ℕ) → n < len → n % len ≡ n
mod_small n len h = mod-eq_of_lt h

pub mod_below : (n len : ℕ) → 0 < len → n % len < len
mod_below n len h = mod-lt n h

turn : (len s : ℕ) → s < len → (s + len) % len ≡ s
turn len s h =
    mod-eq-sub-mod {n = s + len} {m = len} (omega arith)
    ∙ ap (λ k. k % len) (omega arith)
    ∙ mod-eq_of_lt h

-- Fewer steps than `len` round the ring do not come back to the start.
step-mod-ne : (len s k : ℕ) → s < len → 0 < k → k < len → (s + k) % len ≢ s
step-mod-ne len s k hs hk hl = elim (dec_lt (s + k) len) [
  | yes p ↦ omega (arith, mod-eq_of_lt p)
  | no p ↦ omega (
    arith,
    mod-eq-sub-mod {n = s + k} {m = len} (omega arith),
    mod-eq_of_lt {n = s + k - len} {m = len} (omega arith),
  )
]

module _ {A : Type 0} (fill : A) where
  get_or-set_self : (xs : List A) (i : ℕ) (v : A) → i < length xs → get_or (set xs i v) i fill ≡ v
  get_or-set_self [] i v h = absurd (omega arith)
  get_or-set_self (x ∷ xs) zero v h = refl
  get_or-set_self (x ∷ xs) (suc i) v h = get_or-set_self xs i v (omega arith)

  get_or-set_ne :
      (xs : List A) (i j : ℕ) (v : A) → i ≢ j → get_or (set xs i v) j fill ≡ get_or xs j fill
  get_or-set_ne [] i j v h = refl
  get_or-set_ne (x ∷ xs) zero zero v h = absurd (h refl)
  get_or-set_ne (x ∷ xs) zero (suc j) v h = refl
  get_or-set_ne (x ∷ xs) (suc i) zero v h = refl
  get_or-set_ne (x ∷ xs) (suc i) (suc j) v h = get_or-set_ne xs i j v (λ e. h (ap suc e))

  -- Reading one more sample adds it at the end.
  collect-suc :
      (v : List A) (s i n : ℕ)
      → collect fill v s i (suc n)
        ≡ collect fill v s i n ++ (get_or v ((s + (i + n)) % length v) fill ∷ [])
  unfolding collect
  collect-suc v s i zero = ap (λ k. get_or v ((s + k) % length v) fill ∷ []) (omega arith)
  collect-suc v s i (suc n) =
      ap (λ t. get_or v ((s + i) % length v) fill ∷ t)
        (collect-suc v s (i + 1) n
          ∙ ap (λ k. collect fill v s (i + 1) n ++ (get_or v ((s + k) % length v) fill ∷ []))
              (omega arith))

  -- A write at an index that is not read changes nothing.
  collect-set :
      (v : List A) (x : A) (j s i n : ℕ)
      → ((k : ℕ) → i ≤ k → k < i + n → (s + k) % length v ≢ j)
      → collect fill (set v j x) s i n ≡ collect fill v s i n
  unfolding collect
  collect-set v x j s i zero h = refl
  collect-set v x j s i (suc n) h = rw length-set (
      ap₂ ◌∷◌
        (get_or-set_ne v j ((s + i) % length v) x (λ e. h i (omega arith) (omega arith) (sym e)))
        (collect-set v x j s (i + 1) n (λ k a b. h k (omega arith) (omega arith))))

  -- Starting one further round the ring.
  collect_shift :
      (v : List A) (s i n : ℕ)
      → collect fill v ((s + 1) % length v) i n ≡ collect fill v s (i + 1) n
  unfolding collect
  collect_shift v s i zero = refl
  collect_shift v s i (suc n) =
      ap₂ ◌∷◌
        (ap (λ k. get_or v k fill)
          (mod-add-mod (s + 1) (length v) i ∙ ap (λ k. k % length v) (omega arith)))
        (collect_shift v s (i + 1) n)

  pub length-collect : (v : List A) (s i n : ℕ) → length (collect fill v s i n) ≡ n
  unfolding collect
  length-collect v s i zero = refl
  length-collect v s i (suc n) = ap suc (length-collect v s (i + 1) n)

  pub collect_partial :
      (v : List A) (x : A) (n : ℕ)
      → n < length v
      → collect fill (set v n x) 0 0 (suc n) ≡ collect fill v 0 0 n ++ (x ∷ [])
  collect_partial v x n h =
      collect-suc (set v n x) 0 0 n
      ∙ ap₂ (λ xs k. xs ++ (get_or (set v n x) k fill ∷ []))
          (collect-set v x n 0 0 n
            (λ k a b. omega (arith, mod-eq_of_lt {n = k} {m = length v} (omega arith))))
          (rw length-set (ap (λ k. k % length v) (omega arith) ∙ mod-eq_of_lt h))
      ∙ ap (λ y. collect fill v 0 0 n ++ (y ∷ [])) (get_or-set_self v n x h)

  collect_full :
      (v : List A) (x : A) (s m : ℕ)
      → length v ≡ suc m
      → s < length v
      → collect fill (set v s x) ((s + 1) % length v) 0 (suc m)
        ≡ drop 1 (collect fill v s 0 (suc m)) ++ (x ∷ [])
  unfolding collect
  collect_full v x s m e h =
      collect-suc (set v s x) ((s + 1) % length v) 0 m
      ∙ ap₂ (λ xs k. xs ++ (get_or (set v s x) k fill ∷ []))
          (collect-set v x s ((s + 1) % length v) 0 m (λ k a b.
              rw (mod-add-mod (s + 1) (length v) k) (λ q.
                step-mod-ne (length v) s (k + 1) h (omega arith) (omega arith)
                  (ap (λ t. t % length v) (omega arith) ∙ q)))
            ∙ collect_shift v s 0 m)
          (rw (length-set, mod-add-mod (s + 1) (length v) (0 + m))
            (ap (λ k. k % length v) (omega arith) ∙ turn (length v) s h))
      ∙ ap (λ y. collect fill v s 1 m ++ (y ∷ [])) (get_or-set_self v s x h)

  pub collect-full :
      (v : List A) (x : A) (s n : ℕ)
      → length v ≡ n
      → s < length v
      → collect fill (set v s x) ((s + 1) % length v) 0 n
        ≡ drop 1 (collect fill v s 0 n) ++ (x ∷ [])
  collect-full v x s zero e h = absurd (omega arith)
  collect-full v x s (suc m) e h = collect_full v x s m e h
