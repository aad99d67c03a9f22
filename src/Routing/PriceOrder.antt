-- ===== src/Routing/PriceOrder.antt =====
-- internal/gateway/routing.go: what `orderByPriceDominance` returns.
use mathlib.Core.List.{Perm}
use mathlib.Core.List.Perm
use route_forge.Base.{
  ℕ, ◌+◌, ◌<◌, ◌≡◌, refl, inl, inr, Bool, true, false, Option, none, some, List, [], ◌∷◌, length,
  ltb, arith, Bool-cases,
}
use route_forge.Accounting.{Rates}
use route_forge.Routing.{rates_dominate, Prices, price}
use route_forge.Routing.Dominance.{order_by_dominance}
use route_forge.Routing.Topo.{IsRanked, topo, topo-Sorted, topo_total}
use route_forge.Routing.Selection.{order_by_dominance-topo}

-- A measure that grows along dominance: the sum of the two rates.
abbrev sum_rates : Option ℕ → Option ℕ → ℕ
sum_rates none output = 0
sum_rates (some input) none = 0
sum_rates (some input) (some output) = input + output

rates_dominate-lt :
    (a b : Rates)
    → rates_dominate a b ≡ true
    → sum_rates a.input_rate a.output_rate < sum_rates b.input_rate b.output_rate
unfolding rates_dominate
rates_dominate-lt a b h = ground arith

rates_dominate_irrefl : (a : Rates) → rates_dominate a a ≡ false
unfolding rates_dominate
rates_dominate_irrefl a = ground arith

module _ {A : Type 0} (name : A → List ℕ) (prices : Prices) where
  -- One candidate is no dearer than the other for input and for output, and cheaper for one of them.
  abbrev pub cheaper : A → A → Bool
  cheaper a b = rates_dominate (price prices (name a)) (price prices (name b))

  -- `orderByPriceDominance`.
  unfoldable pub order_by_price_dominance : List A → List A
  order_by_price_dominance = order_by_dominance cheaper

  cheaper_total : (xs : List A) → (ys : List A) × (topo cheaper (length xs) xs ≡ some ys)
  cheaper_total xs =
      topo_total cheaper
        (λ a. sum_rates (price prices (name a)).input_rate (price prices (name a)).output_rate)
        (λ a b. rates_dominate-lt (price prices (name a)) (price prices (name b))) (length xs) xs
        refl

  short-IsRanked : (xs : List A) → length xs < 2 → IsRanked cheaper xs
  short-IsRanked [] h = tt
  short-IsRanked (x ∷ []) h = (refl, tt)
  short-IsRanked (x ∷ y ∷ xs) h = absurd (omega arith)

  -- The order by price returns each candidate exactly once, and no candidate stands behind one that it
  -- dominates in price: the search for a free candidate never fails, since dominance has no cycles.
  pub price_order-IsRanked :
      (candidates : List A)
      → Perm (order_by_price_dominance candidates) candidates
        × IsRanked cheaper (order_by_price_dominance candidates)
  unfolding order_by_price_dominance
  price_order-IsRanked candidates =
      let t = cheaper_total candidates in
      let s = topo-Sorted cheaper (length candidates) candidates t.0 refl t.1 in
      let e =
        order_by_dominance-topo cheaper candidates t.0
          (λ a. rates_dominate_irrefl (price prices (name a))) t.1 in
      elim (Bool-cases (ltb (length candidates) 2)) [
        | inl h ↦ rw (e, h) (Perm.refl candidates, short-IsRanked candidates (ground arith))
        | inr h ↦ rw (e, h) (s.perm, s.ranked)
      ]
