-- ===== src/Auth/Entries.antt =====
-- internal/adminapi/auth.go: the map of the sessions.
use route_forge.Base.{
  ℕ, ◌+◌, ◌≤◌, ◌<◌, ◌≡◌, refl, Option, none, some, List, [], ◌∷◌, length, arith, ltb, if◌then◌else◌,
}
use route_forge.Base.Dict.{text_eq, lookup, insert}
use route_forge.Base.Text.{same_refl}
use route_forge.Auth.{remove, prune, without}

module _ (key : List ℕ) where
  pub lookup-remove_self : (m : List (List ℕ × ℕ)) → lookup key (remove key m) ≡ none
  unfolding lookup remove
  lookup-remove_self [] = refl
  lookup-remove_self ((k, expiry) ∷ m) = ground (arith, lookup-remove_self m)

  lookup-remove-none :
      (old : List ℕ) (m : List (List ℕ × ℕ))
      → lookup key m ≡ none
      → lookup key (remove old m) ≡ none
  unfolding lookup remove
  lookup-remove-none old [] h = refl
  lookup-remove-none old ((k, expiry) ∷ m) h = ground (arith, lookup-remove-none old m)

  pub lookup-without :
      (old : Option (List ℕ)) (m : List (List ℕ × ℕ))
      → lookup key m ≡ none
      → lookup key (without old m) ≡ none
  lookup-without none m h = h
  lookup-without (some k) m h = lookup-remove-none k m h

  pub lookup-prune-none :
      (now : ℕ) (m : List (List ℕ × ℕ)) → lookup key m ≡ none → lookup key (prune now m) ≡ none
  unfolding lookup prune
  lookup-prune-none now [] h = refl
  lookup-prune-none now ((k, expiry) ∷ m) h = ground (arith, lookup-prune-none now m)

  -- A key found is not expired.
  pub lookup-prune-some :
      (now expiry : ℕ) (m : List (List ℕ × ℕ))
      → lookup key (prune now m) ≡ some expiry
      → now < expiry
  unfolding lookup prune
  lookup-prune-some now expiry [] h = cc
  lookup-prune-some now expiry ((k, e) ∷ m) h = ground (arith, lookup-prune-some now expiry m)

  -- A new entry is found as long as it is not expired.
  pub lookup-prune-insert :
      (now expiry : ℕ) (m : List (List ℕ × ℕ))
      → lookup key m ≡ none
      → lookup key (prune now (insert key expiry m))
        ≡ (if ltb now expiry then some expiry else none)
  unfolding lookup prune insert
  lookup-prune-insert now expiry [] h = ground (arith, same_refl key)
  lookup-prune-insert now expiry ((k, e) ∷ m) h =
      ground (arith, same_refl key, lookup-prune-insert now expiry m)

pub length-remove : (key : List ℕ) (m : List (List ℕ × ℕ)) → length (remove key m) ≤ length m
unfolding remove
length-remove key [] = omega arith
length-remove key ((k, expiry) ∷ m) = ground (arith, length-remove key m)

pub length-remove-some :
    (key : List ℕ) (expiry : ℕ) (m : List (List ℕ × ℕ))
    → lookup key m ≡ some expiry
    → length (remove key m) + 1 ≤ length m
unfolding remove lookup
length-remove-some key expiry [] h = cc
length-remove-some key expiry ((k, e) ∷ m) h =
    ground (arith, length-remove key m, length-remove-some key expiry m)

pub length-prune : (now : ℕ) (m : List (List ℕ × ℕ)) → length (prune now m) ≤ length m
unfolding prune
length-prune now [] = omega arith
length-prune now ((k, expiry) ∷ m) = ground (arith, length-prune now m)
