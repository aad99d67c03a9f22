-- ===== src/Routing/Selection.antt =====
-- internal/gateway/routing.go: the loop over the arrays runs the specification of Topo.
use mathlib.Core.List.{append-nil, append_assoc}
use route_forge.Base.{
  ℕ, zero, suc, ◌+◌, ◌≡◌, refl, sym, ap, ◌∙◌, ◌⊎◌, inl, inr, Bool, true, false, Option, none, some,
  List, [], ◌∷◌, ◌++◌, length, length-set, get_or, get_elem?, set, replicate, length-replicate, ltb,
  ◌==◌, if◌then◌else◌, arith, Bool-cases,
}
use route_forge.Routing.{at}
use route_forge.Routing.Dominance.{
  decrement_all, find_next, edges_from, indegrees, select_all, order_by_dominance,
}
use route_forge.Routing.Topo.{above, first_free, first_free-Found, topo}
use route_forge.Routing.Degrees.{indegrees_lem, degrees_after}

module _ {A : Type 0} where
  abbrev pub unselected : List A → List Bool → List A
  unselected [] selected = []
  unselected (x ∷ xs) [] = []
  unselected (x ∷ xs) (s ∷ selected) =
      if s then unselected xs selected else x ∷ unselected xs selected

  at-get_elem? : (xs : List A) (i : ℕ) (x : A) → get_elem? xs i ≡ some x → at xs i ≡ x ∷ []
  at-get_elem? [] i x e = cc
  at-get_elem? (y ∷ ys) zero x e = ground arith
  at-get_elem? (y ∷ ys) (suc i) x e = at-get_elem? ys i x e

  unselected_all : (xs : List A) → unselected xs (replicate (length xs) false) ≡ xs
  unselected_all [] = refl
  unselected_all (x ∷ xs) = ap (λ ys. x ∷ ys) (unselected_all xs)

module _ {A : Type 0} (dominates : A → A → Bool) where
  -- The array holds the number of dominators of each candidate of `xs` in `all`.
  record Agree (all xs : List A) (selected : List Bool) (indegree : List ℕ) : Type 0 where
    degrees :
        (k : ℕ) (y : A) → get_elem? xs k ≡ some y → get_or indegree k 0 ≡ above dominates all y
    selected_length : length selected ≡ length xs
    indegree_length : length indegree ≡ length xs

  tail-Agree :
      (all : List A) (x : A) (xs : List A) (s : Bool) (selected : List Bool) (d : ℕ)
      (indegree : List ℕ)
      → Agree all (x ∷ xs) (s ∷ selected) (d ∷ indegree)
      → Agree all xs selected indegree
  tail-Agree all x xs s selected d indegree a = record {
    degrees = λ k y e. a.degrees (suc k) y e;
    selected_length = omega (arith, a.selected_length);
    indegree_length = omega (arith, a.indegree_length);
  }

  -- What the search over the arrays finds, and what the specification finds.
  abbrev Finds : List A → List A → List Bool → Option ℕ → Option (A × List A) → ℕ → Type 0
  Finds all xs selected found free i =
      ((found ≡ none) × (free ≡ none))
      ⊎ ((m : ℕ) × (x : A) × (found ≡ some (i + m))
          × (get_elem? xs m ≡ some x)
          × (free ≡ some (x, unselected xs (set selected m true))))

  find_next-Finds :
      (all xs : List A) (selected : List Bool) (indegree : List ℕ) (i : ℕ)
      → Agree all xs selected indegree
      → Finds all xs selected
          (find_next i selected indegree)
          (first_free dominates all (unselected xs selected))
          i
  unfolding find_next first_free
  find_next-Finds all [] [] indegree i a = inl (refl, refl)
  find_next-Finds all [] (s ∷ selected) indegree i a = absurd (omega (arith, a.selected_length))
  find_next-Finds all (x ∷ xs) [] indegree i a = absurd (omega (arith, a.selected_length))
  find_next-Finds all (x ∷ xs) (s ∷ selected) [] i a = absurd (omega (arith, a.indegree_length))
  find_next-Finds all (x ∷ xs) (true ∷ selected) (d ∷ indegree) i a =
      let t = tail-Agree all x xs true selected d indegree a in
      elim (find_next-Finds all xs selected indegree (i + 1) t) [
        | inl none_free ↦ inl none_free
        | inr (m, y, f, e, g) ↦ inr (suc m, y, f ∙ ap some (omega arith), e, g)
      ]
  find_next-Finds all (x ∷ xs) (false ∷ selected) (d ∷ indegree) i a =
      let t = tail-Agree all x xs false selected d indegree a in
      let here : d ≡ above dominates all x = a.degrees 0 x refl in
      elim (Bool-cases (d == 0)) [
        | inl e ↦ inr (0, x, ground arith, refl, ground arith)
        | inr e ↦ elim (find_next-Finds all xs selected indegree (i + 1) t) [
          | inl (f, g) ↦ inl (ground arith, ground arith)
          | inr (m, y, f, h, g) ↦ inr (suc m, y, ground arith, h, ground arith)
        ]
      ]

  -- One round keeps the agreement.
  round-Agree :
      (ordered : List A) (selected : List Bool) (indegree : List ℕ) (m : ℕ) (x : A)
      → (irreflexive : (a : A) → dominates a a ≡ false)
      → Agree (unselected ordered selected) ordered selected indegree
      → get_elem? ordered m ≡ some x
      → first_free dominates (unselected ordered selected) (unselected ordered selected)
        ≡ some (x, unselected ordered (set selected m true))
      → Agree
          (unselected ordered (set selected m true))
          ordered
          (set selected m true)
          (decrement_all (get_or (edges_from dominates 0 ordered ordered) m []) indegree)
  round-Agree ordered selected indegree m x irreflexive a e f = record {
    degrees = λ k y h.
        let found = first_free-Found dominates _ _ x _ f in
        let d =
          degrees_after dominates irreflexive ordered x y m k indegree e h a.indegree_length in
        omega (arith, d.0, found.counts y, a.degrees k y h);
    selected_length = length-set selected m true ∙ a.selected_length;
    indegree_length =
        (degrees_after dominates irreflexive ordered x x m m indegree e e a.indegree_length).1
        ∙ a.indegree_length;
  }

  abbrev then_all : List A → Option (List A) → Option (List A)
  then_all done none = none
  then_all done (some xs) = some (done ++ xs)

  then_all-cons :
      (done : List A) (x : A) (t : Option (List A))
      → then_all (done ++ (x ∷ [])) t
        ≡ then_all done (elim t [ none ↦ none | some ys ↦ some (x ∷ ys) ])
  then_all-cons done x none = refl
  then_all-cons done x (some ys) = ap some (append_assoc done (x ∷ []) ys)

  select_all-topo :
      (rounds : ℕ) (ordered : List A) (selected : List Bool) (indegree : List ℕ) (result : List A)
      → ((a : A) → dominates a a ≡ false)
      → Agree (unselected ordered selected) ordered selected indegree
      → select_all dominates rounds ordered
          (edges_from dominates 0 ordered ordered)
          selected
          indegree
          result
        ≡ then_all result (topo dominates rounds (unselected ordered selected))
  unfolding select_all topo
  select_all-topo zero ordered selected indegree result irreflexive a =
      ap some (sym (append-nil result))
  select_all-topo (suc rounds) ordered selected indegree result irreflexive a =
      elim (find_next-Finds (unselected ordered selected) ordered selected indegree 0 a) [
        | inl (f, g) ↦ rw (f, select_all) (rw (g, topo) refl)
        | inr (m, x, f, e, g) ↦
            let f' : find_next 0 selected indegree ≡ some m = f ∙ ap some (omega arith) in
            rw (f', select_all)
              (rw (g, topo)
                (rw (at-get_elem? ordered m x e) (
                  select_all-topo rounds ordered (set selected m true)
                    (decrement_all (get_or (edges_from dominates 0 ordered ordered) m []) indegree)
                    (result ++ (x ∷ [])) irreflexive
                    (round-Agree ordered selected indegree m x irreflexive a e g)
                  ∙ then_all-cons result x
                      (topo dominates rounds (unselected ordered (set selected m true))))))
      ]

  start_length :
      (ordered : List A)
      → ((a : A) → dominates a a ≡ false)
      → length (
          indegrees dominates
            (edges_from dominates 0 ordered ordered)
            (replicate (length ordered) 0))
        ≡ length ordered
  unfolding indegrees edges_from
  start_length [] irreflexive = refl
  start_length (x ∷ xs) irreflexive = (indegrees_lem dominates irreflexive (x ∷ xs) 0 x refl).1

  start-Agree :
      (ordered : List A)
      → ((a : A) → dominates a a ≡ false)
      → Agree ordered ordered (replicate (length ordered) false) (
          indegrees dominates
            (edges_from dominates 0 ordered ordered)
            (replicate (length ordered) 0))
  start-Agree ordered irreflexive = record {
    degrees = λ k y e. (indegrees_lem dominates irreflexive ordered k y e).0;
    selected_length = length-replicate (length ordered) false;
    indegree_length = start_length ordered irreflexive;
  }

  -- The loop returns what the specification finds.
  pub order_by_dominance-topo :
      (ordered ys : List A)
      → ((a : A) → dominates a a ≡ false)
      → topo dominates (length ordered) ordered ≡ some ys
      → order_by_dominance dominates ordered ≡ (if ltb (length ordered) 2 then ordered else ys)
  unfolding order_by_dominance
  order_by_dominance-topo ordered ys irreflexive e =
      let start = replicate (length ordered) false in
      let all = unselected_all ordered in
      let s =
        select_all-topo (length ordered) ordered start
          (indegrees dominates (edges_from dominates 0 ordered ordered)
            (replicate (length ordered) 0))
          [] irreflexive (rw all (start-Agree ordered irreflexive))
        ∙ ap (λ xs. then_all [] (topo dominates (length ordered) xs)) all
        ∙ ap (then_all []) e in
      rw s refl
