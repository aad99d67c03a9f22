-- ===== src/Routing/Topo.antt =====
-- The specification of the order by dominance: take the first candidate that no remaining candidate
-- dominates, again and again. It is total where a measure grows along dominance.
use mathlib.Core.List.{Perm}
use mathlib.Core.List.Perm
use route_forge.Base.{
  ℕ, zero, suc, ◌+◌, ◌≤◌, ◌<◌, ◌≡◌, refl, ◌⊎◌, inl, inr, Bool, true, false, Option, none, some,
  List, leb, leb→le, [], ◌∷◌, length, ◌==◌, if◌then◌else◌, arith, Bool-cases, Option-cases,
}

abbrev pub bit : Bool → ℕ
bit true = 1
bit false = 0

module _ {A : Type 0} (dominates : A → A → Bool) where
  -- How many of a list dominate an element.
  abbrev pub above : List A → A → ℕ
  above [] x = 0
  above (y ∷ ys) x = bit (dominates y x) + above ys x

  -- Nobody further back in the list dominates an element.
  abbrev pub IsRanked : List A → Type 0
  IsRanked [] = Unit {0}
  IsRanked (x ∷ xs) = (above xs x ≡ 0) × IsRanked xs

  -- The first element of `xs` that no element of `all` dominates, and the other elements of `xs`.
  unfoldable pub first_free : List A → List A → Option (A × List A)
  first_free all [] = none
  first_free all (x ∷ xs) =
      let rest = first_free all xs in
      if above all x == 0
      then some (x, xs)
      else elim rest [ none ↦ none | some (y, ys) ↦ some (y, x ∷ ys) ]

  unfoldable pub topo : ℕ → List A → Option (List A)
  unfolding first_free
  topo zero xs = some []
  topo (suc rounds) xs = elim (first_free xs xs) [
    | none ↦ none
    | some (x, rest) ↦ elim (topo rounds rest) [ none ↦ none | some ys ↦ some (x ∷ ys) ]
  ]

  -- What is known of the element found.
  pub record Found (all xs : List A) (x : A) (rest : List A) : Type 0 where
    pub free : above all x ≡ 0
    pub perm : Perm (x ∷ rest) xs
    pub shorter : suc (length rest) ≡ length xs
    pub counts : (z : A) → above xs z ≡ bit (dominates x z) + above rest z

  pub first_free-Found :
      (all xs : List A) (x : A) (rest : List A)
      → first_free all xs ≡ some (x, rest)
      → Found all xs x rest
  unfolding first_free
  first_free-Found all [] x rest e = cc
  first_free-Found all (y ∷ ys) x rest e = elim (Bool-cases (above all y == 0)) [
    | inl h ↦
        let e' : (y ≡ x) × (ys ≡ rest) = ground arith in
        rw (← e'.0, ← e'.1)
          (record {
            free = ground arith;
            perm = Perm.refl (y ∷ ys);
            shorter = refl;
            counts = λ z. refl;
          })
    | inr h ↦ elim (Option-cases (first_free all ys)) [
      | inl n ↦ ground arith
      | inr ((z, zs), n) ↦
          let f = first_free-Found all ys z zs n in
          let e' : (z ≡ x) × (y ∷ zs ≡ rest) = ground arith in
          rw (← e'.0, ← e'.1)
            (record {
              free = f.free;
              perm = Perm.trans (Perm.swap y z zs) (Perm.cons y f.perm);
              shorter = omega (arith, f.shorter);
              counts = λ w. omega (arith, f.counts w);
            })
    ]
  ]

  -- The result of the specification, if there is one.
  pub record Sorted (xs ys : List A) : Type 0 where
    pub perm : Perm ys xs
    pub ranked : IsRanked ys
    pub counts : (z : A) → above ys z ≡ above xs z

  pub topo-Sorted :
      (rounds : ℕ) (xs ys : List A) → length xs ≡ rounds → topo rounds xs ≡ some ys → Sorted xs ys
  unfolding topo
  topo-Sorted zero [] ys n e =
      let e' : [] ≡ ys = ground arith in
      rw (← e') (record { perm = Perm.nil; ranked = tt; counts = λ z. refl })
  topo-Sorted zero (x ∷ xs) ys n e = absurd (omega arith)
  topo-Sorted (suc rounds) xs ys n e = elim (Option-cases (first_free xs xs)) [
    | inl h ↦ ground arith
    | inr ((x, rest), h) ↦ elim (Option-cases (topo rounds rest)) [
      | inl k ↦ ground arith
      | inr (zs, k) ↦
          let f = first_free-Found xs xs x rest h in
          let s = topo-Sorted rounds rest zs (omega (arith, f.shorter)) k in
          let e' : x ∷ zs ≡ ys = ground arith in
          rw (← e') (record {
            perm = Perm.trans (Perm.cons x s.perm) f.perm;
            ranked = (omega (arith, f.counts x, s.counts x, f.free), s.ranked);
            counts = λ z. omega (arith, f.counts z, s.counts z);
          })
    ]
  ]

  -- A measure that grows along dominance leaves an element that nobody dominates.
  module _ (measure : A → ℕ)
      (grows : (a b : A) → dominates a b ≡ true → measure a < measure b) where
    abbrev AtLeast : ℕ → List A → Type 0
    AtLeast m [] = Unit {0}
    AtLeast m (y ∷ ys) = (m ≤ measure y) × AtLeast m ys

    abbrev HasLow : ℕ → List A → Type 0
    HasLow m [] = ⊥
    HasLow m (y ∷ ys) = (measure y ≤ m) ⊎ HasLow m ys

    abbrev HasFree : List A → List A → Type 0
    HasFree all [] = ⊥
    HasFree all (y ∷ ys) = (above all y ≡ 0) ⊎ HasFree all ys

    AtLeast-mono : (m n : ℕ) (ys : List A) → m ≤ n → AtLeast n ys → AtLeast m ys
    AtLeast-mono m n [] h a = tt
    AtLeast-mono m n (y ∷ ys) h a = (omega arith, AtLeast-mono m n ys h a.1)

    least : (x : A) (xs : List A) → (m : ℕ) × AtLeast m (x ∷ xs) × HasLow m (x ∷ xs)
    least x [] = (measure x, (omega arith, tt), inl (omega arith))
    least x (y ∷ ys) =
        let (m, a, h) = least y ys in
        elim (Bool-cases (leb (measure x) m)) [
          | inl e ↦ (
            measure x,
            (omega arith, AtLeast-mono (measure x) m (y ∷ ys) (leb→le _ _ e) a),
            inl (omega arith),
          )
          | inr e ↦ (m, (ground arith, a), inr h)
        ]

    above_low : (m : ℕ) (x : A) (ys : List A) → AtLeast m ys → measure x ≤ m → above ys x ≡ 0
    above_low m x [] a h = refl
    above_low m x (y ∷ ys) a h = ground (arith, grows y x, above_low m x ys a.1 h)

    HasLow-HasFree : (m : ℕ) (all xs : List A) → AtLeast m all → HasLow m xs → HasFree all xs
    HasLow-HasFree m all [] a h = h
    HasLow-HasFree m all (x ∷ xs) a (inl h) = inl (above_low m x all a h)
    HasLow-HasFree m all (x ∷ xs) a (inr h) = inr (HasLow-HasFree m all xs a h)

    HasFree-first_free :
        (all xs : List A) → HasFree all xs → (r : A × List A) × (first_free all xs ≡ some r)
    unfolding first_free
    HasFree-first_free all [] h = absurd h
    HasFree-first_free all (x ∷ xs) h = elim (Bool-cases (above all x == 0)) [
      | inl e ↦ ((x, xs), ground arith)
      | inr e ↦
          let deeper : HasFree all xs = elim h [ inl z ↦ absurd (ground arith) | inr k ↦ k ] in
          let r = HasFree-first_free all xs deeper in ((r.0.0, x ∷ r.0.1), ground arith)
    ]

    pub topo_total :
        (rounds : ℕ) (xs : List A) → length xs ≡ rounds → (ys : List A) × (topo rounds xs ≡ some ys)
    unfolding topo
    topo_total zero xs n = ([], refl)
    topo_total (suc rounds) [] n = absurd (omega arith)
    topo_total (suc rounds) (x ∷ xs) n =
        let (m, a, h) = least x xs in
        let r = HasFree-first_free (x ∷ xs) (x ∷ xs) (HasLow-HasFree m (x ∷ xs) (x ∷ xs) a h) in
        let f = first_free-Found (x ∷ xs) (x ∷ xs) r.0.0 r.0.1 r.1 in
        let s = topo_total rounds r.0.1 (omega (arith, f.shorter)) in (r.0.0 ∷ s.0, ground arith)
