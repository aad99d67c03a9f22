-- ===== src/Telemetry/Refine.antt =====
-- internal/gateway/telemetry.go: a ring holds the latest samples, as many as its capacity.
use native.Mathlib.Nat.{mod_self}
use native.Mathlib.Decide.{dec_lt}
use mathlib.Core.List.{append-nil, append_assoc}
use route_forge.Base.{
  ℕ, ◌+◌, ◌-◌, ◌≤◌, ◌<◌, ◌≡◌, refl, sym, ap, ap₂, ◌∙◌, List, [], ◌∷◌, ◌++◌, length, length-append,
  length-set, length-replicate, drop, arith,
}
use route_forge.Telemetry.Rings.{Ring, new_ring, add, start, snapshot}
use route_forge.Telemetry.Latest.{
  latest, latest-all, latest_full, latest_none, latest-append, drop-nil,
}
use route_forge.Telemetry.Window.{
  mod_small, mod_below, length-collect, collect_partial, collect-full,
}

abbrev pub add_all : {A : Type 0} → List A → Ring A → Ring A
add_all [] r = r
add_all (x ∷ xs) r = add_all xs (add x r)

pub record IsValid {A : Type 0} (r : Ring A) : Type 0 where
  pub count_le : r.count ≤ length r.values
  pub partial : r.count < length r.values → r.next ≡ r.count
  pub full : 0 < length r.values → r.next < length r.values

module _ {A : Type 0} (fill : A) where
  length-snapshot : (r : Ring A) → length (snapshot fill r) ≡ r.count
  unfolding snapshot
  length-snapshot r = length-collect fill r.values (start r) 0 r.count

  -- The parts of a ring after `add`, in the two phases of its life.
  snapshot-add_partial :
      (x : A) (r : Ring A)
      → IsValid r
      → r.count < length r.values
      → snapshot fill (add x r) ≡ snapshot fill r ++ (x ∷ [])
  unfolding snapshot add
  snapshot-add_partial x r v h = ground (
    arith,
    collect_partial fill r.values x r.count h,
    length-set r.values r.next x,
    mod_self (length r.values),
  )

  snapshot-add_full :
      (x : A) (r : Ring A)
      → IsValid r
      → 0 < length r.values
      → r.count ≡ length r.values
      → snapshot fill (add x r) ≡ drop 1 (snapshot fill r) ++ (x ∷ [])
  unfolding snapshot add
  snapshot-add_full x r v h e = ground (
    arith,
    collect-full fill r.values x r.next r.count (omega arith) (v.full h),
    length-set r.values r.next x,
  )

  add_empty : (x : A) (r : Ring A) → length r.values ≡ 0 → add x r ≡ r
  unfolding add
  add_empty x r e = ground arith

  length-add : (x : A) (r : Ring A) → length (add x r).values ≡ length r.values
  unfolding add
  length-add x r = ground (arith, length-set r.values r.next x)

  eq_nil : (xs : List A) → length xs ≡ 0 → xs ≡ []
  eq_nil [] e = refl
  eq_nil (x ∷ xs) e = absurd (omega arith)

  -- What one `add` does to the samples held.
  pub snapshot-add :
      (x : A) (r : Ring A)
      → IsValid r
      → snapshot fill (add x r) ≡ latest (length r.values) (snapshot fill r ++ (x ∷ []))
  snapshot-add x r v = elim (dec_lt r.count (length r.values)) [
    | yes h ↦
        snapshot-add_partial x r v h
        ∙ sym (
            latest-all (length r.values) (snapshot fill r ++ (x ∷ []))
              (omega (arith, length-append (snapshot fill r) (x ∷ []), length-snapshot r)))
    | no h ↦ elim (dec_lt 0 (length r.values)) [
      | yes p ↦
          let e : r.count ≡ length r.values = omega arith in
          snapshot-add_full x r v p e
          ∙ sym (latest_full (length r.values) (snapshot fill r) x (length-snapshot r ∙ e) p)
      | no q ↦
          let e : length (snapshot fill r) ≡ 0 = omega (arith, length-snapshot r, v.count_le) in
          let none_fits : length r.values ≡ 0 = omega arith in
          ap (snapshot fill) (add_empty x r none_fits)
          ∙ eq_nil (snapshot fill r) e
          ∙ sym (
              latest_none (length r.values) (snapshot fill r) x none_fits
                (eq_nil (snapshot fill r) e))
    ]
  ]

  pub add-IsValid : (x : A) (r : Ring A) → IsValid r → IsValid (add x r)
  unfolding add
  add-IsValid x r v = ground (
    arith,
    length-set r.values r.next x,
    mod_self (length r.values),
    mod_small (r.next + 1) (length r.values),
    mod_below (r.next + 1) (length r.values),
  )

  new-IsValid : (capacity : ℕ) → IsValid (new_ring fill capacity)
  unfolding new_ring
  new-IsValid capacity = omega (arith, length-replicate capacity fill)

  add_all-latest :
      (capacity : ℕ) (seen xs : List A) (r : Ring A)
      → IsValid r
      → length r.values ≡ capacity
      → snapshot fill r ≡ latest capacity seen
      → snapshot fill (add_all xs r) ≡ latest capacity (seen ++ xs)
  add_all-latest capacity seen [] r v e h = h ∙ ap (latest capacity) (sym (append-nil seen))
  add_all-latest capacity seen (x ∷ xs) r v e h =
      add_all-latest capacity (seen ++ (x ∷ [])) xs (add x r) (add-IsValid x r v)
        (length-add x r ∙ e)
        (snapshot-add x r v
          ∙ ap₂ (λ n q. latest n (q ++ (x ∷ []))) e h
          ∙ latest-append capacity seen x)
      ∙ ap (latest capacity) (append_assoc seen (x ∷ []) xs)

  -- A ring made with some capacity, after any samples have been added to it, returns the latest of
  -- them, oldest first: all while they are no more than the capacity, and exactly as many as the
  -- capacity after that.
  pub snapshot-add_all :
      (capacity : ℕ) (xs : List A)
      → snapshot fill (add_all xs (new_ring fill capacity)) ≡ latest capacity xs
  unfolding new_ring snapshot
  snapshot-add_all capacity xs =
      add_all-latest capacity [] xs (new_ring fill capacity) (new-IsValid capacity)
        (length-replicate capacity fill) (sym (drop-nil (0 - capacity)))
