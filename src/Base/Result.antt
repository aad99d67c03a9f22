-- ===== src/Base/Result.antt =====
-- A value or an error, for the functions that return a Go error beside their result.
use route_forge.Base.{◌≡◌, refl, Bool, true, false}

pub data Result (E A : Type 0) : Type 0 where
  err : E → Result E A
  ok : A → Result E A

infixl 5 ◌>>=◌ ◌>>◌
abbrev pub ◌>>=◌ : {E A B : Type 0} → Result E A → (A → Result E B) → Result E B
err e >>= next = err e
ok x >>= next = next x

abbrev pub ◌>>◌ : {E B : Type 0} → Result E (Unit {0}) → Result E B → Result E B
err e >> next = err e
ok u >> next = next

-- A check that ends with an error unless the condition holds.
abbrev pub require : {E : Type 0} → Bool → E → Result E (Unit {0})
require condition e = elim condition [ true ↦ ok tt | false ↦ err e ]

-- A chain that succeeds is made of parts that succeed.
module _ {E A B : Type 0} where
  pub >>=-eq-ok :
      (m : Result E A) (next : A → Result E B) {b : B}
      → (m >>= next) ≡ ok b
      → (a : A) × (m ≡ ok a) × (next a ≡ ok b)
  >>=-eq-ok (ok a) next h = (a, refl, h)
  >>=-eq-ok (err e) next h = cc

module _ {E B : Type 0} where
  pub >>-eq-ok :
      (m : Result E (Unit {0})) (r : Result E B) {b : B}
      → (m >> r) ≡ ok b
      → (m ≡ ok tt) × (r ≡ ok b)
  >>-eq-ok (ok tt) r h = (refl, h)
  >>-eq-ok (err e) r h = cc

pub require-eq-ok : {E : Type 0} (c : Bool) (e : E) → require c e ≡ ok tt → c ≡ true
require-eq-ok true e h = refl
require-eq-ok false e h = cc

pub ok-injective : {E A : Type 0} {a b : A} → ◌≡◌ {A = Result E A} (ok a) (ok b) → a ≡ b
ok-injective e = cc
