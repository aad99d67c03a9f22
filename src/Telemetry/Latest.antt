-- ===== src/Telemetry/Latest.antt =====
-- The latest elements of a list, which the rings of internal/gateway/telemetry.go keep.
use route_forge.Base.{
  ℕ, zero, suc, ◌+◌, ◌-◌, ◌≤◌, ◌<◌, ◌≡◌, refl, sym, ap, ◌∙◌, List, [], ◌∷◌, ◌++◌, length,
  length-append, length-drop, drop, arith,
}

-- The latest `n` elements.
abbrev pub latest {ℓ} : {A : Type ℓ} → ℕ → List A → List A
latest n xs = drop (length xs - n) xs

module _ {A : Type 0} where
  pub latest-all : (n : ℕ) (xs : List A) → length xs ≤ n → latest n xs ≡ xs
  latest-all n xs h = ap (λ k. drop k xs) {y = 0} (omega arith)

  pub latest_full :
      (n : ℕ) (q : List A) (x : A)
      → length q ≡ n
      → 0 < n
      → latest n (q ++ (x ∷ [])) ≡ drop 1 q ++ (x ∷ [])
  latest_full n [] x e h = absurd (omega arith)
  latest_full n (y ∷ q) x e h =
      ap (λ k. drop k (y ∷ (q ++ (x ∷ [])))) {y = 1} (omega (arith, length-append q (x ∷ [])))

  drop-append : (k : ℕ) (xs ys : List A) → k ≤ length xs → drop k xs ++ ys ≡ drop k (xs ++ ys)
  drop-append zero xs ys h = refl
  drop-append (suc k) [] ys h = absurd (omega arith)
  drop-append (suc k) (x ∷ xs) ys h = drop-append k xs ys (omega arith)

  pub drop-nil : (k : ℕ) → drop {A = A} k [] ≡ []
  drop-nil zero = refl
  drop-nil (suc k) = refl

  drop-drop : (j k : ℕ) (xs : List A) → drop j (drop k xs) ≡ drop (k + j) xs
  drop-drop j zero xs = ap (λ n. drop n xs) (omega arith)
  drop-drop j (suc k) [] = drop-nil j ∙ sym (drop-nil (suc k + j))
  drop-drop j (suc k) (x ∷ xs) =
      drop-drop j k xs ∙ ap (λ n. drop n (x ∷ xs)) {x = suc (k + j)} (omega arith)

  -- Only the latest elements matter for the latest elements later.
  pub latest-append :
      (n : ℕ) (xs : List A) (x : A) → latest n (latest n xs ++ (x ∷ [])) ≡ latest n (xs ++ (x ∷ []))
  latest-append n xs x =
      let k : ℕ = length xs - n in
      let j : ℕ = length (latest n xs ++ (x ∷ [])) - n in
      ap (drop j) (drop-append k xs (x ∷ []) (omega arith))
      ∙ drop-drop j k (xs ++ (x ∷ []))
      ∙ ap (λ m. drop m (xs ++ (x ∷ [])))
          (omega (
            arith,
            length-append (latest n xs) (x ∷ []),
            length-append xs (x ∷ []),
            length-drop (length xs - n) xs,
          ))

  pub latest_none : (n : ℕ) (q : List A) (x : A) → n ≡ 0 → q ≡ [] → latest n (q ++ (x ∷ [])) ≡ []
  latest_none n q x e h = rw (e, h)
