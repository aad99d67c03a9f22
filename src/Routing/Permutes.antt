-- ===== src/Routing/Permutes.antt =====
-- internal/gateway/routing.go: no policy loses or repeats a candidate.
use mathlib.Core.List.{Perm, perm_middle}
use mathlib.Core.List.Perm
use route_forge.Base.{
  ℕ, zero, suc, inl, inr, Bool, true, false, Option, none, some, List, [], ◌∷◌, ◌++◌, map, length,
  take, drop, ltb, if◌then◌else◌, Bool-cases,
}
use route_forge.Base.Int.{ℤ}
use route_forge.Telemetry.{LatencySample}
use route_forge.Routing.{at, move_to_front, Prices}
use route_forge.Routing.PriceOrder.{order_by_price_dominance, price_order-IsRanked}
use route_forge.Routing.Latency.{
  RequestMode, ExplorationCounts, LatencyPolicy, candidate_medians, median, explore_order,
  latency_order, order_by_latency, split_by, tolerance_order, within_latency_tolerance, fastest_of,
  order_by_cost_latency, exploration_due, best_from,
}
use route_forge.Routing.Policy.{RoutingPolicy, deterministic, latency, cost, cost_latency, order}

module _ {A : Type 0} where
  at_split : (i : ℕ) (xs : List A) → Perm (at xs i ++ (take i xs ++ drop (suc i) xs)) xs
  at_split zero [] = Perm.nil
  at_split zero (x ∷ xs) = Perm.refl (x ∷ xs)
  at_split (suc i) [] = Perm.nil
  at_split (suc i) (x ∷ xs) =
      Perm.trans (perm_middle (at xs i) (take i xs ++ drop (suc i) xs))
        (Perm.cons x (at_split i xs))

  pub move_to_front-perm : (i : ℕ) (xs : List A) → Perm (move_to_front i xs) xs
  unfolding move_to_front
  move_to_front-perm i xs = at_split i xs

  if-perm :
      (b : Bool) (xs ys zs : List A) → Perm xs zs → Perm ys zs → Perm (if b then xs else ys) zs
  if-perm true xs ys zs p q = p
  if-perm false xs ys zs p q = q

  latency_order-perm : (medians : List ℤ) (xs : List A) → Perm (latency_order medians xs) xs
  unfolding latency_order
  latency_order-perm [] xs = Perm.refl xs
  latency_order-perm (m ∷ medians) xs =
      if-perm _ xs (move_to_front (best_from 1 medians 0 m).0 xs) xs (Perm.refl xs)
        (move_to_front-perm (best_from 1 medians 0 m).0 xs)

  split_by-perm :
      (ok : ℤ → Bool) (f : A → ℤ) (xs : List A)
      → let (acceptable, outside) = split_by ok (map f xs) xs in Perm (acceptable ++ outside) xs
  unfolding split_by
  split_by-perm ok f [] = Perm.nil
  split_by-perm ok f (x ∷ xs) = elim (Bool-cases (ok (f x))) [
    | inl e ↦ rw e (Perm.cons x (split_by-perm ok f xs))
    | inr e ↦ rw e (
        Perm.trans (perm_middle (split_by ok (map f xs) xs).0 (split_by ok (map f xs) xs).1)
          (Perm.cons x (split_by-perm ok f xs)))
  ]

  tolerance_order-perm :
      (by_price : List A → List A) (percent : ℕ) (f : A → ℤ) (xs : List A)
      → ((ys : List A) → Perm (by_price ys) ys)
      → Perm (tolerance_order by_price percent (map f xs) xs) xs
  unfolding tolerance_order
  tolerance_order-perm by_price percent f [] p = Perm.nil
  tolerance_order-perm by_price percent f (x ∷ xs) p =
      let ok : ℤ → Bool = λ d. within_latency_tolerance d (fastest_of (map f xs) (f x)) percent in
      let parts = split_by ok (map f (x ∷ xs)) (x ∷ xs) in
      Perm.trans (Perm.append (p parts.0) (Perm.refl parts.1)) (split_by-perm ok f (x ∷ xs))

module _ {A : Type 0} (name : A → List ℕ) (samples : A → List LatencySample) (prices : Prices)
    (now : ℕ) where
  explore_order-perm :
      (p : LatencyPolicy) (mode : RequestMode) (i : ℕ) (xs : List A) (c : ExplorationCounts)
      → Perm (explore_order samples p now mode i xs c).0 xs
  unfolding explore_order
  explore_order-perm p mode i xs c =
      if-perm (exploration_due p mode c).1 (move_to_front i xs) xs xs (move_to_front-perm i xs)
        (Perm.refl xs)

  abbrev staged :
      Bool
      → Option ℕ
      → (ℕ → List A × ExplorationCounts)
      → List A
      → List A
      → ExplorationCounts
      → List A × ExplorationCounts
  staged short found explored xs ys c =
      if short then (xs, c) else elim found [ some i ↦ explored i | none ↦ (ys, c) ]

  staged-perm :
      (short : Bool) (found : Option ℕ) (explored : ℕ → List A × ExplorationCounts) (xs ys : List A)
      (c : ExplorationCounts)
      → ((i : ℕ) → Perm (explored i).0 xs)
      → Perm ys xs
      → Perm (staged short found explored xs ys c).0 xs
  staged-perm true found explored xs ys c p q = Perm.refl xs
  staged-perm false none explored xs ys c p q = q
  staged-perm false (some i) explored xs ys c p q = p i

  latency-perm :
      (p : LatencyPolicy) (mode : RequestMode) (xs : List A) (c : ExplorationCounts)
      → Perm (order_by_latency samples p now mode xs c).0 xs
  unfolding order_by_latency candidate_medians
  latency-perm p mode xs c =
      staged-perm (ltb (length xs) 2) (candidate_medians samples p now xs).1
        (λ i. explore_order samples p now mode i xs c) xs
        (latency_order (candidate_medians samples p now xs).0 xs) c
        (λ i. explore_order-perm p mode i xs c)
        (latency_order-perm (candidate_medians samples p now xs).0 xs)

  cost_latency-perm :
      (p : LatencyPolicy) (percent : ℕ) (mode : RequestMode) (xs : List A) (c : ExplorationCounts)
      → Perm
          (order_by_cost_latency samples p now
            (order_by_price_dominance name prices)
            percent
            mode
            xs
            c).0
          xs
  unfolding order_by_cost_latency candidate_medians
  cost_latency-perm p percent mode xs c =
      let by_price = order_by_price_dominance name prices in
      staged-perm (ltb (length xs) 2) (candidate_medians samples p now xs).1
        (λ i. explore_order samples p now mode i xs c) xs
        (tolerance_order by_price percent (candidate_medians samples p now xs).0 xs) c
        (λ i. explore_order-perm p mode i xs c)
        (tolerance_order-perm by_price percent (median samples p now) xs
          (λ ys. (price_order-IsRanked name prices ys).0))

  -- Every policy returns each candidate exactly once, whatever the samples, the prices, the clock, the
  -- mode and the exploration counts.
  pub order-perm :
      (policy : RoutingPolicy) (mode : RequestMode) (candidates : List A) (c : ExplorationCounts)
      → Perm (order name samples prices now policy mode candidates c).0 candidates
  unfolding order
  order-perm deterministic mode xs c = Perm.refl xs
  order-perm (latency p) mode xs c = latency-perm p mode xs c
  order-perm cost mode xs c = (price_order-IsRanked name prices xs).0
  order-perm (cost_latency p percent) mode xs c = cost_latency-perm p percent mode xs c
