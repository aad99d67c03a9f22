-- ===== src/Telemetry/Rings.antt =====
-- internal/gateway/telemetry.go: `latencyRing` and `durationRing`, which differ in the type of their
-- samples only. `fill` is the zero value of that type. An index out of range, which panics in Go,
-- reads as `fill` and writes nothing; `IsValid` rules it out.
use route_forge.Base.{
  ℕ, zero, suc, ◌+◌, ◌%◌, List, [], ◌∷◌, length, set, get_or, replicate, ltb, ◌==◌, if◌then◌else◌,
}

pub record Ring (A : Type 0) : Type 0 where
  pub values : List A
  pub next : ℕ
  pub count : ℕ

module _ {A : Type 0} where
  unfoldable pub new_ring : A → ℕ → Ring A
  new_ring fill capacity = record { values = replicate capacity fill; next = 0; count = 0 }

  unfoldable pub add : A → Ring A → Ring A
  add x r = if length r.values == 0 then r else record {
    values = set r.values r.next x;
    next = (r.next + 1) % length r.values;
    count = if ltb r.count (length r.values) then r.count + 1 else r.count;
  }

  -- `values[(start+i)%len(r.values)]`, for the next `n` values of `i`.
  unfoldable pub collect : A → List A → ℕ → ℕ → ℕ → List A
  collect fill values start i zero = []
  collect fill values start i (suc n) =
      get_or values ((start + i) % length values) fill ∷ collect fill values start (i + 1) n

  unfoldable pub start : Ring A → ℕ
  start r = if r.count == length r.values then r.next else 0

  unfoldable pub snapshot : A → Ring A → List A
  unfolding collect start
  snapshot fill r = collect fill r.values (start r) 0 r.count
