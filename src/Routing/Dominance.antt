-- ===== src/Routing/Dominance.antt =====
-- internal/gateway/routing.go: `orderByPriceDominance`, with its arrays as lists.
use route_forge.Base.{
  ℕ, zero, suc, ◌+◌, ◌-◌, Bool, true, false, not, ◌&&◌, ◌||◌, Option, none, some, List, [], ◌∷◌,
  ◌++◌, length, get_or, set, replicate, ltb, ◌==◌, if◌then◌else◌,
}
use route_forge.Routing.{at}

-- `indegree[j]++` and `indegree[j]--` for each `j` of a list.
unfoldable pub increment_all : List ℕ → List ℕ → List ℕ
increment_all [] indegree = indegree
increment_all (j ∷ js) indegree = increment_all js (set indegree j (get_or indegree j 0 + 1))

unfoldable pub decrement_all : List ℕ → List ℕ → List ℕ
decrement_all [] indegree = indegree
decrement_all (j ∷ js) indegree = decrement_all js (set indegree j (get_or indegree j 0 - 1))

-- The first index that is not selected and has no dominator left; `none` is the source's `-1`.
unfoldable pub find_next : ℕ → List Bool → List ℕ → Option ℕ
find_next i [] indegree = none
find_next i (s ∷ selected) [] = none
find_next i (s ∷ selected) (d ∷ indegree) =
    if not s && (d == 0) then some i else find_next (i + 1) selected indegree

module _ {A : Type 0} (dominates : A → A → Bool) where
  -- The row `edges[i]` of the candidate `x` at index `i`, from the index `j` on.
  unfoldable pub targets : A → ℕ → ℕ → List A → List ℕ
  targets x i j [] = []
  targets x i j (y ∷ ys) =
      if (i == j) || not (dominates x y) then targets x i (j + 1) ys else j ∷ targets x i (j + 1) ys

  unfoldable pub edges_from : ℕ → List A → List A → List (List ℕ)
  unfolding targets
  edges_from i ordered [] = []
  edges_from i ordered (x ∷ xs) = targets x i 0 ordered ∷ edges_from (i + 1) ordered xs

  unfoldable pub indegrees : List (List ℕ) → List ℕ → List ℕ
  unfolding increment_all
  indegrees [] indegree = indegree
  indegrees (row ∷ rows) indegree = indegrees rows (increment_all row indegree)

  -- The loop `for len(result) < len(ordered)`, which selects one candidate in each round. `none` is the
  -- return of `ordered` where no candidate is free.
  unfoldable pub select_all :
      ℕ → List A → List (List ℕ) → List Bool → List ℕ → List A → Option (List A)
  unfolding find_next decrement_all
  select_all zero ordered edges selected indegree result = some result
  select_all (suc rounds) ordered edges selected indegree result =
      elim (find_next 0 selected indegree) [
        | none ↦ none
        | some next ↦
            select_all rounds ordered edges (set selected next true)
              (decrement_all (get_or edges next []) indegree) (result ++ at ordered next)
      ]

  unfoldable pub order_by_dominance : List A → List A
  unfolding edges_from indegrees select_all
  order_by_dominance ordered =
      let edges = edges_from 0 ordered ordered in
      let indegree = indegrees edges (replicate (length ordered) 0) in
      if ltb (length ordered) 2
      then ordered
      else elim (select_all (length ordered) ordered edges (replicate (length ordered) false)
          indegree []) [ none ↦ ordered | some result ↦ result ]
