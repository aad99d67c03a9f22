-- ===== src/Circuit/Live.antt =====
-- circuit.go: the running attempts of a generation, counted.
use route_forge.Base.{
  ℕ, zero, suc, ◌+◌, ◌≤◌, ◌<◌, ◌≡◌, refl, inl, inr, Bool, true, false, not, ◌&&◌, some, List, [],
  ◌∷◌, arith, ◌==◌, Option-cases,
}
use route_forge.Circuit.{HealthAttempt}
use route_forge.Circuit.System.{pick}

-- How many of the attempts are of this generation, and half-open trials or not.
abbrev pub bit : Bool → ℕ
bit true = 1
bit false = 0

abbrev pub is_live : ℕ → Bool → HealthAttempt → Bool
is_live g true a = a.half_open && (a.generation == g)
is_live g false a = not a.half_open && (a.generation == g)

unfoldable pub live : ℕ → Bool → List HealthAttempt → ℕ
live g trial [] = 0
live g trial (a ∷ running) = bit (is_live g trial a) + live g trial running

-- No attempt is of a generation still to come.
abbrev pub Known : ℕ → List HealthAttempt → Type 0
Known g [] = Unit {0}
Known g (a ∷ running) = (a.generation ≤ g) × Known g running

pub Known-mono : (g k : ℕ) (xs : List HealthAttempt) → g ≤ k → Known g xs → Known k xs
Known-mono g k [] h w = tt
Known-mono g k (a ∷ xs) h w = (omega arith, Known-mono g k xs h w.1)

pub live_next :
    (g k : ℕ) (trial : Bool) (xs : List HealthAttempt) → g < k → Known g xs → live k trial xs ≡ 0
unfolding live
live_next g k trial [] h w = refl
live_next g k true (a ∷ xs) h w = ground (arith, live_next g k true xs h w.1)
live_next g k false (a ∷ xs) h w = ground (arith, live_next g k false xs h w.1)

pub live-pick :
    (g : ℕ) (trial : Bool) (i : ℕ) (xs : List HealthAttempt) (a : HealthAttempt)
    (rest : List HealthAttempt)
    → pick i xs ≡ some (a, rest)
    → live g trial xs ≡ bit (is_live g trial a) + live g trial rest
unfolding live pick
live-pick g trial i [] a rest e = cc
live-pick g trial zero (x ∷ xs) a rest e = ground arith
live-pick g trial (suc i) (x ∷ xs) a rest e = elim (Option-cases (pick i xs)) [
  | inl p ↦ ground arith
  | inr ((y, ys), p) ↦ ground (arith, live-pick g trial i xs y ys p)
]

pub Known-pick :
    (g : ℕ) (i : ℕ) (xs : List HealthAttempt) (a : HealthAttempt) (rest : List HealthAttempt)
    → pick i xs ≡ some (a, rest)
    → Known g xs
    → Known g (a ∷ rest)
unfolding pick
Known-pick g i [] a rest e w = cc
Known-pick g zero (x ∷ xs) a rest e w = ground arith
Known-pick g (suc i) (x ∷ xs) a rest e w = elim (Option-cases (pick i xs)) [
  | inl p ↦ ground arith
  | inr ((y, ys), p) ↦ ground (arith, Known-pick g i xs y ys p w.1)
]
