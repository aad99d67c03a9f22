-- ===== src/Routing/Switching.antt =====
-- internal/gateway/routing.go: what `order` of the latency policy decides, its exploration included.
use route_forge.Base.{
  ℕ, suc, ◌+◌, ◌-◌, ◌≤◌, ◌<◌, ◌≡◌, refl, sym, ap, ◌∙◌, ◌⊎◌, inl, inr, none, some, List, [], ◌∷◌,
  map, length, get_elem?, false, ltb, if◌then◌else◌, arith, Bool-cases,
}
use route_forge.Telemetry.{LatencySample}
use route_forge.Routing.{move_to_front}
use route_forge.Routing.Latency.{
  RequestMode, ExplorationCounts, LatencyPolicy, exploration_due, Exploration, explore, fresh,
  median, explore_from, order_by_latency,
}
use route_forge.Routing.Tolerance.{Switched, latency_order-Switched}

module _ {A : Type 0} (samples : A → List LatencySample) (p : LatencyPolicy) (now : ℕ) where
  -- The fresh samples that a candidate lacks.
  abbrev pub deficit : A → ℕ
  deficit a = p.min_samples - length (fresh samples p now a)

  abbrev pub AllLack : ℕ → List A → Type 0
  AllLack n [] = Unit {0}
  AllLack n (a ∷ candidates) = (deficit a ≤ n) × AllLack n candidates

  AllLack-mono : (m n : ℕ) (xs : List A) → m ≤ n → AllLack m xs → AllLack n xs
  AllLack-mono m n [] h l = tt
  AllLack-mono m n (a ∷ xs) h (k, l) = (omega arith, AllLack-mono m n xs h l)

  -- The exploration has found a candidate, counted from an index, that lacks as many samples as any.
  abbrev Leads : ℕ → List A → Exploration → Type 0
  Leads i candidates e =
      (k : ℕ) × (a : A) × (get_elem? candidates k ≡ some a)
      × (deficit a ≡ e.largest_deficit)
      × (e.candidate ≡ some (i + k))
      × (0 < deficit a)

  abbrev explored : ℕ → A → Exploration → Exploration
  explored i a e =
      if ltb (length (fresh samples p now a)) p.min_samples
      then explore (p.min_samples - length (fresh samples p now a)) i e
      else e

  explored_lem :
      (i : ℕ) (a : A) (e : Exploration)
      → (deficit a ≤ (explored i a e).largest_deficit)
        × (e.largest_deficit ≤ (explored i a e).largest_deficit)
        × ((explored i a e ≡ e)
            ⊎ ((deficit a ≡ (explored i a e).largest_deficit)
                × ((explored i a e).candidate ≡ some i)
                × (0 < deficit a)))
  unfolding explore
  explored_lem i a e =
      let n = length (fresh samples p now a) in
      elim (Bool-cases (ltb n p.min_samples)) [
        | inr b ↦ rw b (ground arith, omega arith, inl refl)
        | inl b ↦ elim (Bool-cases (ltb e.largest_deficit (p.min_samples - n))) [
          | inr f ↦ rw (b, f) (ground arith, omega arith, inl refl)
          | inl f ↦ rw (b, f) (omega arith, ground arith, inr (refl, refl, ground arith))
        ]
      ]

  lead :
      (i : ℕ) (a : A) (xs : List A) (e e' : Exploration)
      → ((explored i a e ≡ e)
          ⊎ ((deficit a ≡ (explored i a e).largest_deficit)
              × ((explored i a e).candidate ≡ some i)
              × (0 < deficit a)))
      → ((e' ≡ explored i a e) ⊎ Leads (i + 1) xs e')
      → (e' ≡ e) ⊎ Leads i (a ∷ xs) e'
  lead i a xs e e' (inl s) (inl t) = inl (t ∙ s)
  lead i a xs e e' (inr (lacks, found, some_lack)) (inl t) = inr (
    0,
    a,
    refl,
    lacks ∙ ap (λ (x : Exploration). x.largest_deficit) (sym t),
    ap (λ (x : Exploration). x.candidate) t ∙ found ∙ ap some (omega arith),
    some_lack,
  )
  lead i a xs e e' first (inr (k, b, at, lacks, found, some_lack)) =
      inr (suc k, b, at, lacks, found ∙ ap some (omega arith), some_lack)

  explore_from-Leads :
      (i : ℕ) (xs : List A) (e : Exploration)
      → let e' = explore_from samples p now i xs e in
        (e.largest_deficit ≤ e'.largest_deficit)
        × AllLack e'.largest_deficit xs
        × ((e' ≡ e) ⊎ Leads i xs e')
  unfolding explore_from
  explore_from-Leads i [] e = (omega arith, tt, inl refl)
  explore_from-Leads i (a ∷ xs) e =
      let (covers, grows, first) = explored_lem i a e in
      let (more, all, found) = explore_from-Leads (i + 1) xs (explored i a e) in
      (omega arith, (omega arith, all), lead i a xs e _ first found)

  -- Every candidate has enough samples; or one of those that lack the most is explored when it is due.
  abbrev pub Decided :
      RequestMode → A → List A → ExplorationCounts → List A × ExplorationCounts → Type 0
  Decided mode x xs c result =
      (AllLack 0 (x ∷ xs)
        × (result.1 ≡ c)
        × Switched (median samples p now x) (map (median samples p now) xs) (x ∷ xs) result.0)
      ⊎ ((i : ℕ) × (a : A) × (get_elem? (x ∷ xs) i ≡ some a)
          × (0 < deficit a)
          × AllLack (deficit a) (x ∷ xs)
          × (result.1 ≡ (exploration_due p mode c).0)
          × (result.0
              ≡ (if (exploration_due p mode c).1 then move_to_front i (x ∷ xs) else x ∷ xs)))

  -- The latency policy on two candidates or more. If all have enough fresh samples for the mode of the
  -- request, the counts stay, and the order is kept, when the first median is the least or no other is
  -- shorter by a tenth of the first, rounded down; otherwise a candidate of the least median, which is
  -- shorter by as much, moves to the front. If some have too few, one of those that lack the most moves to
  -- the front when an exploration is due, the order is kept when none is, and the request is counted.
  pub order_by_latency-Decided :
      (mode : RequestMode) (x y : A) (xs : List A) (c : ExplorationCounts)
      → Decided mode x (y ∷ xs) c (order_by_latency samples p now mode (x ∷ y ∷ xs) c)
  unfolding order_by_latency
  order_by_latency-Decided mode x y xs c =
      let all = x ∷ y ∷ xs in
      let long : ltb (length all) 2 ≡ false = ground arith in
      let start : Exploration = record { largest_deficit = 0; candidate = none } in
      let (more, lack, found) = explore_from-Leads 0 all start in
      elim found [
        | inl e ↦
            rw (e, long)
              (inl (
                AllLack-mono _ 0 all (omega (arith, ap (λ (z : Exploration). z.largest_deficit) e))
                    lack,
                refl,
                latency_order-Switched (median samples p now x)
                    (map (median samples p now) (y ∷ xs)) all,
              ))
        | inr (k, a, at, lacks, cand, some_lack) ↦
            let chosen : (explore_from samples p now 0 all start).candidate ≡ some k =
              cand ∙ ap some (omega arith) in
            rw (chosen, long)
              (inr (
                k,
                a,
                at,
                some_lack,
                AllLack-mono _ (deficit a) all (omega arith) lack,
                refl,
                refl,
              ))
      ]
