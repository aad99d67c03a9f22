-- ===== src/Base/Text.antt =====
-- Go strings as their bytes.
use Prim.Native.Char.{code}
use Prim.Native.String.{String}
use route_forge.Base.{
  ℕ, ◌≡◌, refl, ◌↔◌, Bool, true, false, ◌&&◌, ◌||◌, List, [], ◌∷◌, arith, ◌==◌, ltb,
}

-- The code points of a literal, which are its bytes: the literals of the source are ASCII.
abbrev pub codes : String → List ℕ
codes String.[] = []
codes (String.◌∷◌ c s) = code c ∷ codes s

-- `==` on strings.
abbrev pub same : List ℕ → List ℕ → Bool
same [] [] = true
same [] (b ∷ t) = false
same (a ∷ s) [] = false
same (a ∷ s) (b ∷ t) = (a == b) && same s t

pub same_refl : (s : List ℕ) → same s s ≡ true
same_refl [] = refl
same_refl (a ∷ s) = ground (arith, same_refl s)

pub same→eq : (s t : List ℕ) → same s t ≡ true → s ≡ t
same→eq [] [] h = refl
same→eq [] (b ∷ t) h = cc
same→eq (a ∷ s) [] h = cc
same→eq (a ∷ s) (b ∷ t) h = ground (arith, same→eq s t)

pub same_iff : (s t : List ℕ) → (same s t ≡ true) ↔ (s ≡ t)
same_iff s t = (same→eq s t, λ e. ground (arith, same_refl s))

-- Whether a name is one of a list.
abbrev pub contains : List ℕ → List (List ℕ) → Bool
contains name [] = false
contains name (n ∷ names) = same n name || contains name names

-- `<` on strings, byte by byte.
abbrev pub before : List ℕ → List ℕ → Bool
before s [] = false
before [] (b ∷ t) = true
before (a ∷ s) (b ∷ t) = ltb a b || ((a == b) && before s t)

pub before_asym : (s t : List ℕ) → before s t ≡ true → before t s ≡ false
before_asym [] [] h = refl
before_asym (a ∷ s) [] h = cc
before_asym [] (b ∷ t) h = refl
before_asym (a ∷ s) (b ∷ t) h = ground (arith, before_asym s t)
