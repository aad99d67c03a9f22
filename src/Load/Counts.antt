-- ===== src/Load/Counts.antt =====
-- internal/loadtest/load.go: the counts of the outcomes add up.
use mathlib.Core.Path.{subst}
use route_forge.Base.{
  ℕ, ◌+◌, ◌≡◌, List, [], ◌∷◌, length, length-append, inl, inr, arith, Bool-cases, Option-cases,
}
use route_forge.Base.Dict.{lookup, insert, text_eq, total, total-insert-some, total-insert-none}
use route_forge.Accounting.Price.{is_empty}
use route_forge.Load.Report.{Observation, Tallies, seen_before, tally, tally_all}

-- The counts of `n` samples.
pub record Counted (n : ℕ) (t : Tallies) : Type 0 where
  pub outcomes : t.successes + t.failures ≡ n
  pub reasons : total (λ k. k) t.errors ≡ t.failures
  pub times : length t.latencies ≡ n

total-again :
    (reason : List ℕ) (errors : List (List ℕ × ℕ))
    → total (λ k. k) (insert reason (seen_before (lookup reason errors) + 1) errors)
      ≡ total (λ k. k) errors + 1
total-again reason errors = elim (Option-cases (lookup reason errors)) [
  | inl e ↦ rw e (ground (arith, total-insert-none (λ k. k) reason 1 errors e))
  | inr (n, e) ↦ rw e (ground (arith, total-insert-some (λ k. k) reason (n + 1) n errors e))
]

tally-Counted : (s : Observation) (n : ℕ) (t : Tallies) → Counted n t → Counted (n + 1) (tally s t)
unfolding tally
tally-Counted s n t c = elim (Bool-cases (is_empty s.failure)) [
  | inl e ↦ rw e (ground (arith, length-append t.latencies (s.duration ∷ [])))
  | inr e ↦
      rw e (
        ground (arith, length-append t.latencies (s.duration ∷ []), total-again s.failure t.errors))
]

-- Each sample of a load is a success or a failure, each failure is counted for one reason, and each
-- sample has a latency.
pub tally_all-Counted :
    (ss : List Observation) (n : ℕ) (t : Tallies)
    → Counted n t
    → Counted (n + length ss) (tally_all ss t)
unfolding tally_all
tally_all-Counted [] n t c = subst (λ k. Counted k t) (omega arith) c
tally_all-Counted (s ∷ ss) n t c =
    subst (λ k. Counted k (tally_all ss (tally s t))) (omega arith)
      (tally_all-Counted ss (n + 1) (tally s t) (tally-Counted s n t c))
