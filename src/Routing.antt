-- ===== src/Routing.antt =====
-- internal/gateway/routing.go: the routing policies, which order the candidates of a request. A
-- candidate is of any type with a name. Slices that a policy copies before it changes them are values.
pub mod Dominance
pub mod Topo
pub mod Degrees
pub mod Selection
pub mod PriceOrder
pub mod Latency
pub mod Policy
pub mod Tolerance
pub mod Switching
pub mod Permutes
use route_forge.Base.{
  ℕ, suc, ◌+◌, ◌-◌, Bool, true, false, not, ◌&&◌, ◌||◌, Option, none, some, List, [], ◌∷◌, ◌++◌,
  length, get_or, set, replicate, take, drop, ltb, leb, ◌==◌, if◌then◌else◌,
}
use route_forge.Base.Dict.{lookup, text_eq}
use route_forge.Accounting.{Rates}
use route_forge.Accounting.Tracker.{rates_of}

dominates : Option ℕ → Option ℕ → Option ℕ → Option ℕ → Bool
dominates (some left_input) (some left_output) (some right_input) (some right_output) =
    leb left_input right_input
    && (leb left_output right_output
        && (ltb left_input right_input || ltb left_output right_output))
dominates _ _ _ _ = false

-- `ratesDominate`.
unfoldable pub rates_dominate : Rates → Rates → Bool
unfolding dominates
rates_dominate left right =
    dominates left.input_rate left.output_rate right.input_rate right.output_rate

-- The prices of a request's candidates, by name.
abbrev pub Prices : Type 0
Prices = List (List ℕ × Rates)

-- `prices[name]`: a missing name reads as rates that are not set.
unfoldable pub price : Prices → List ℕ → Rates
price prices name = rates_of (lookup name prices)

-- `xs[i]`, as a list of one element (of none if `i` is out of range, where Go panics).
abbrev pub at {ℓ} : {A : Type ℓ} → List A → ℕ → List A
at xs i = take 1 (drop i xs)

-- `moveProviderToFront`: the elements before the selected one move back by one.
unfoldable pub move_to_front {ℓ} : {A : Type ℓ} → ℕ → List A → List A
move_to_front selected xs = at xs selected ++ (take selected xs ++ drop (suc selected) xs)
