-- ===== src/Cache/Whole.antt =====
-- internal/cache/cache.go: cached responses are whole.
use mathlib.Core.Path.{subst}
use route_forge.Base.{
  ℕ, ◌≡◌, refl, ◌∙◌, true, false, Bool, not, Option, none, some, List, [], ◌∷◌, arith, length, ◌==◌,
  ltb, ◌||◌, if-holds,
}
use route_forge.Accounting.Price.{is_empty}
use route_forge.Service.{Response}
use route_forge.Cache.{Json, is_whole, encode, decode, versioned, found, max_value_bytes}

-- What is answered from a cache.
abbrev pub IsWhole : Option Response → Type 0
IsWhole none = Unit {0}
IsWhole (some r) = is_whole r ≡ true

versioned-IsWhole : (j : Json) (o : Option (ℕ × Response × Bool)) → IsWhole (versioned j o)
versioned-IsWhole j none = tt
versioned-IsWhole j (some (version, r, ended)) =
    if-holds IsWhole (not (version == 1) || (not (is_whole r) || not ended)) _ _ (λ h. tt)
      (λ h. ground arith)

decode-IsWhole : (j : Json) (bytes : List ℕ) → IsWhole (decode j bytes)
unfolding decode
decode-IsWhole j bytes =
    if-holds IsWhole (is_empty bytes || ltb max_value_bytes (length bytes)) _ _ (λ h. tt)
      (λ h. versioned-IsWhole j (j.read bytes))

found-IsWhole : (j : Json) (key : List ℕ) (answer : Option (List ℕ)) → IsWhole (found j key answer)
unfolding found
found-IsWhole j [] answer = tt
found-IsWhole j (k ∷ key) none = tt
found-IsWhole j (k ∷ key) (some []) = tt
found-IsWhole j (k ∷ key) (some (b ∷ bytes)) = decode-IsWhole j (b ∷ bytes)

encoded :
    (j : Json) (r : Response) (bytes : List ℕ)
    → encode j r ≡ some bytes
    → (is_whole r ≡ true) × (j.write 1 r ≡ bytes) × (ltb max_value_bytes (length bytes) ≡ false)
unfolding encode
encoded j r bytes e = ground arith

found-decode :
    (j : Json) (k : ℕ) (key bytes : List ℕ)
    → is_empty bytes ≡ false
    → found j (k ∷ key) (some bytes) ≡ decode j bytes
unfolding found
found-decode j k key [] h = cc
found-decode j k key (b ∷ bytes) h = refl

decode-written :
    (j : Json) (r : Response) (bytes : List ℕ)
    → j.read bytes ≡ some (1, r, true)
    → is_empty bytes ≡ false
    → is_whole r ≡ true
    → ltb max_value_bytes (length bytes) ≡ false
    → decode j bytes ≡ some r
unfolding decode
decode-written j r bytes i n w l = rw (n, decode) (rw l (rw i (rw w refl)))

-- Whatever a store answers, a response that is found is whole. And a response that is encoded is found
-- again under every key that is not empty, when the decoder reads the bytes of that response back and
-- they are not empty.
pub found-encode :
    (j : Json) (key key' : List ℕ) (k : ℕ) (answer : Option (List ℕ)) (r : Response)
    (bytes : List ℕ)
    → j.read (j.write 1 r) ≡ some (1, r, true)
    → is_empty (j.write 1 r) ≡ false
    → encode j r ≡ some bytes
    → IsWhole (found j key answer) × (found j (k ∷ key') (some bytes) ≡ some r)
found-encode j key key' k answer r bytes i n e =
    let (w, b, l) = encoded j r bytes e in
    let n' = subst (λ x. is_empty x ≡ false) b n in
    (
      found-IsWhole j key answer,
      found-decode j k key' bytes n'
          ∙ decode-written j r bytes (subst (λ x. j.read x ≡ some (1, r, true)) b i) n' w l,
    )
