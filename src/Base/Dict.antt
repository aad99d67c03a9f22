-- ===== src/Base/Dict.antt =====
-- Go maps as association lists, over any type of keys with a Boolean equality.
use route_forge.Base.{
  ℕ, ◌+◌, ◌≤◌, ◌≡◌, ◌↔◌, length, Bool, true, false, Option, none, some, List, [], ◌∷◌, arith,
  if◌then◌else◌,
}
use route_forge.Base.Text.{same, same_iff}

pub record Eq {ℓ} (K : Type ℓ) : Type ℓ where
  pub beq : K → K → Bool
  pub beq_iff : (a b : K) → (beq a b ≡ true) ↔ (a ≡ b)

instance abbrev pub text_eq : Eq (List ℕ)
text_eq = record { beq = same; beq_iff = same_iff }

module _ {ℓ κ} {K : Type ℓ} {V : Type κ} ⦃e : Eq K⦄ where
  -- `m[k]`, with `none` for a missing key.
  unfoldable pub lookup : K → List (K × V) → Option V
  lookup k [] = none
  lookup k ((j, v) ∷ m) = if e.beq j k then some v else lookup k m

  -- `m[k] = v`.
  unfoldable pub insert : K → V → List (K × V) → List (K × V)
  insert k v [] = (k, v) ∷ []
  insert k v ((j, w) ∷ m) = if e.beq j k then (k, v) ∷ m else (j, w) ∷ insert k v m

  pub lookup-insert_self : (k : K) (v : V) (m : List (K × V)) → lookup k (insert k v m) ≡ some v
  unfolding lookup insert
  lookup-insert_self k v [] = ground (arith, e.beq_iff k k)
  lookup-insert_self k v ((j, w) ∷ m) = ground (arith, e.beq_iff k k, lookup-insert_self k v m)

  pub lookup-insert_ne :
      (k j : K) (v : V) (m : List (K × V))
      → e.beq k j ≡ false
      → lookup j (insert k v m) ≡ lookup j m
  unfolding lookup insert
  lookup-insert_ne k j v [] h = ground arith
  lookup-insert_ne k j v ((i, w) ∷ m) h =
      ground (arith, e.beq_iff i k, e.beq_iff k j, e.beq_iff i j, lookup-insert_ne k j v m h)

  -- The sum of a measure over the values.
  abbrev pub total : (V → ℕ) → List (K × V) → ℕ
  total f [] = 0
  total f ((j, w) ∷ m) = f w + total f m

  -- What an insertion does to the sum and to the number of entries.
  pub total-insert-some :
      (f : V → ℕ) (k : K) (v w : V) (m : List (K × V))
      → lookup k m ≡ some w
      → (total f (insert k v m) + f w ≡ total f m + f v) × (length (insert k v m) ≡ length m)
  unfolding lookup insert
  total-insert-some f k v w [] h = cc
  total-insert-some f k v w ((j, x) ∷ m) h = ground (arith, total-insert-some f k v w m)

  pub total-insert-none :
      (f : V → ℕ) (k : K) (v : V) (m : List (K × V))
      → lookup k m ≡ none
      → (total f (insert k v m) ≡ total f m + f v) × (length (insert k v m) ≡ length m + 1)
  unfolding lookup insert
  total-insert-none f k v [] h = ground arith
  total-insert-none f k v ((j, x) ∷ m) h = ground (arith, total-insert-none f k v m)

  pub le-total :
      (f : V → ℕ) (k : K) (w : V) (m : List (K × V)) → lookup k m ≡ some w → f w ≤ total f m
  unfolding lookup
  le-total f k w [] h = cc
  le-total f k w ((j, x) ∷ m) h = ground (arith, le-total f k w m)
