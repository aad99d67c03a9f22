-- ===== src/Routing/Degrees.antt =====
-- internal/gateway/routing.go: the array of indegrees counts the dominators of each candidate.
use route_forge.Base.{
  ℕ, zero, suc, ◌+◌, ◌-◌, ◌≤◌, ◌<◌, ◌≡◌, refl, sym, ap, ap₂, ◌∙◌, ==_iff, Bool, false, not, ◌&&◌,
  some, List, [], ◌∷◌, length, length-set, get_or, get_elem?, set, replicate, length-replicate,
  ◌==◌, if◌then◌else◌, arith, inl, inr, Bool-cases,
}
use route_forge.Routing.Dominance.{increment_all, decrement_all, targets, edges_from, indegrees}
use route_forge.Routing.Topo.{bit, above}

-- How often a number stands in a list.
abbrev pub count : ℕ → List ℕ → ℕ
count k [] = 0
count k (j ∷ js) = bit (j == k) + count k js

get_or-set :
    (xs : List ℕ) (j k v : ℕ)
    → j < length xs
    → get_or (set xs j v) k 0 ≡ (if j == k then v else get_or xs k 0)
get_or-set [] j k v h = absurd (omega arith)
get_or-set (x ∷ xs) zero zero v h = ground arith
get_or-set (x ∷ xs) zero (suc k) v h = ground arith
get_or-set (x ∷ xs) (suc j) zero v h = ground arith
get_or-set (x ∷ xs) (suc j) (suc k) v h = get_or-set xs j k v (omega arith) ∙ ground arith

-- All indices of a row are in range.
abbrev pub Below : ℕ → List ℕ → Type 0
Below n [] = Unit {0}
Below n (j ∷ js) = (j < n) × Below n js

pub increment_all-get_or :
    (js indegree : List ℕ) (k : ℕ)
    → Below (length indegree) js
    → (get_or (increment_all js indegree) k 0 ≡ get_or indegree k 0 + count k js)
      × (length (increment_all js indegree) ≡ length indegree)
unfolding increment_all
increment_all-get_or [] indegree k b = (omega arith, refl)
increment_all-get_or (j ∷ js) indegree k b =
    let v = get_or indegree j 0 + 1 in
    let r = increment_all-get_or js (set indegree j v) k (rw (length-set indegree j v) b.1) in
    (ground (arith, r.0, get_or-set indegree j k v b.0), r.1 ∙ length-set indegree j v)

pub decrement_all-get_or :
    (js indegree : List ℕ) (k : ℕ)
    → Below (length indegree) js
    → (get_or (decrement_all js indegree) k 0 ≡ get_or indegree k 0 - count k js)
      × (length (decrement_all js indegree) ≡ length indegree)
unfolding decrement_all
decrement_all-get_or [] indegree k b = (omega arith, refl)
decrement_all-get_or (j ∷ js) indegree k b =
    let v = get_or indegree j 0 - 1 in
    let r = decrement_all-get_or js (set indegree j v) k (rw (length-set indegree j v) b.1) in
    (ground (arith, r.0, get_or-set indegree j k v b.0), r.1 ∙ length-set indegree j v)

abbrev zeros : ℕ → List ℕ
zeros n = replicate n 0

some_eq {ℓ} : {A : Type ℓ} {a b : A} → some a ≡ some b → a ≡ b
some_eq e = cc

module _ {A : Type 0} (dominates : A → A → Bool)
    (irreflexive : (a : A) → dominates a a ≡ false) where
  targets-Below :
      (x : A) (i j n : ℕ) (ys : List A) → j + length ys ≤ n → Below n (targets dominates x i j ys)
  unfolding targets
  targets-Below x i j n [] h = tt
  targets-Below x i j n (y ∷ ys) h = ground (arith, targets-Below x i (j + 1) n ys)

  -- A row of edges names no index before its start.
  count-targets_before :
      (x : A) (i j k : ℕ) (ys : List A) → k < j → count k (targets dominates x i j ys) ≡ 0
  unfolding targets
  count-targets_before x i j k [] h = refl
  count-targets_before x i j k (y ∷ ys) h = ground (arith, count-targets_before x i (j + 1) k ys)

  -- It names the candidate at an index once if that one is dominated, and otherwise not.
  count-targets :
      (x y : A) (i j k n : ℕ) (ys : List A)
      → n ≡ j + k
      → get_elem? ys k ≡ some y
      → count n (targets dominates x i j ys) ≡ bit (not (i == n) && dominates x y)
  unfolding targets
  count-targets x y i j k n [] h e = cc
  count-targets x y i j zero n (z ∷ ys) h e = ground (arith, count-targets_before x i (j + 1) n ys)
  count-targets x y i j (suc k) n (z ∷ ys) h e =
      ground (arith, count-targets x y i (j + 1) k n ys (omega arith) e)

  -- Every candidate has a row.
  pub edges_from-get_or :
      (ordered xs : List A) (i k n : ℕ) (x : A)
      → n ≡ i + k
      → get_elem? xs k ≡ some x
      → get_or (edges_from dominates i ordered xs) k [] ≡ targets dominates x n 0 ordered
  unfolding edges_from
  edges_from-get_or ordered [] i k n x h e = cc
  edges_from-get_or ordered (z ∷ xs) i zero n x h e =
      let e' : z ≡ x = ground arith in
      let h' : n ≡ i = omega arith in ap₂ (λ w m. targets dominates w m 0 ordered) e' (sym h')
  edges_from-get_or ordered (z ∷ xs) i (suc k) n x h e =
      edges_from-get_or ordered xs (i + 1) k n x (omega arith) e

  -- A row counts a candidate once for each dominator: the exclusion of the index itself does not show.
  pub count_row :
      (ordered : List A) (x y : A) (i k : ℕ)
      → get_elem? ordered i ≡ some x
      → get_elem? ordered k ≡ some y
      → count k (targets dominates x i 0 ordered) ≡ bit (dominates x y)
  count_row ordered x y i k hx hy =
      count-targets x y i 0 k k ordered (omega arith) hy ∙ elim (Bool-cases (i == k)) [
        | inl e ↦
            let e' : i ≡ k = (==_iff i k).0 e in
            let same : x ≡ y = some_eq (sym hx ∙ ap (get_elem? ordered) e' ∙ hy) in
            rw e (sym (ap bit (ap (dominates x) (sym same) ∙ irreflexive x)))
        | inr e ↦ rw e
      ]

  -- The indegree of a candidate is the number of its dominators.
  indegrees-get_or :
      (ordered xs : List A) (i k : ℕ) (y : A) (indegree : List ℕ)
      → ((m : ℕ) (z : A) → get_elem? xs m ≡ some z → get_elem? ordered (i + m) ≡ some z)
      → get_elem? ordered k ≡ some y
      → length indegree ≡ length ordered
      → (get_or (indegrees dominates (edges_from dominates i ordered xs) indegree) k 0
          ≡ get_or indegree k 0 + above dominates xs y)
        × (length (indegrees dominates (edges_from dominates i ordered xs) indegree)
            ≡ length ordered)
  unfolding edges_from indegrees
  indegrees-get_or ordered [] i k y indegree suffix e h = (omega arith, h)
  indegrees-get_or ordered (x ∷ xs) i k y indegree suffix e h =
      let js = targets dominates x i 0 ordered in
      let inc =
        increment_all-get_or js indegree k
          (targets-Below x i 0 (length indegree) ordered (omega arith)) in
      let hx : get_elem? ordered i ≡ some x =
        ap (get_elem? ordered) (omega arith) ∙ suffix 0 x refl in
      let r =
        indegrees-get_or ordered xs (i + 1) k y (increment_all js indegree)
          (λ m z q. ap (get_elem? ordered) (omega arith) ∙ suffix (suc m) z q) e (inc.1 ∙ h) in
      (omega (arith, r.0, inc.0, count_row ordered x y i k hx e), r.1)

  get_or-replicate : (n k : ℕ) → get_or (zeros n) k 0 ≡ 0
  get_or-replicate zero k = refl
  get_or-replicate (suc n) zero = refl
  get_or-replicate (suc n) (suc k) = get_or-replicate n k

  pub indegrees_lem :
      (ordered : List A) (k : ℕ) (y : A)
      → get_elem? ordered k ≡ some y
      → let start = replicate {A = ℕ} (length ordered) 0 in
        (get_or (indegrees dominates (edges_from dominates 0 ordered ordered) start) k 0
          ≡ above dominates ordered y)
        × (length (indegrees dominates (edges_from dominates 0 ordered ordered) start)
            ≡ length ordered)
  indegrees_lem ordered k y e =
      let start = replicate {A = ℕ} (length ordered) 0 in
      let r =
        indegrees-get_or ordered ordered 0 k y start
          (λ m z q. ap (get_elem? ordered) (omega arith) ∙ q) e
          (length-replicate (length ordered) 0) in
      (omega (arith, r.0, get_or-replicate (length ordered) k), r.1)

  -- After a candidate is selected, its row is taken off.
  pub degrees_after :
      (ordered : List A) (x y : A) (i k : ℕ) (indegree : List ℕ)
      → get_elem? ordered i ≡ some x
      → get_elem? ordered k ≡ some y
      → length indegree ≡ length ordered
      → let js = get_or (edges_from dominates 0 ordered ordered) i [] in
        (get_or (decrement_all js indegree) k 0 ≡ get_or indegree k 0 - bit (dominates x y))
        × (length (decrement_all js indegree) ≡ length indegree)
  degrees_after ordered x y i k indegree hx hy h =
      rw (edges_from-get_or ordered ordered 0 i i x (omega arith) hx) (
        let d =
          decrement_all-get_or (targets dominates x i 0 ordered) indegree k
            (targets-Below x i 0 (length indegree) ordered (omega arith)) in
        (omega (arith, d.0, count_row ordered x y i k hx hy), d.1))
