-- ===== src/Load/Phase.antt =====
-- internal/loadtest/load.go: `phase`, whose workers take the next index, send its request and report it,
-- in any interleaving.
use route_forge.Base.{
  ℕ, zero, suc, ◌+◌, ◌≡◌, refl, inl, inr, Bool, true, false, ◌&&◌, Option, none, some, List, [],
  ◌∷◌, ◌++◌, set, get_elem?, replicate, arith, ltb, ◌==◌, if◌then◌else◌, Bool-cases,
}

-- A worker is in front of the test of its loop, or waits for the request of an index, or has returned.
pub data Worker : Type 0 where
  ready returned : Worker
  busy : ℕ → Worker

pub record Phase : Type 0 where
  pub next : ℕ
  pub workers : List Worker
  pub samples : List ℕ

-- `phase` at its start.
abbrev pub new_phase : ℕ → Phase
new_phase concurrency = record { next = 0; workers = replicate concurrency ready; samples = [] }

-- A worker that is ready returns if the context has ended or no index is left; `next.Add(1)` is one step.
unfoldable pub take_index : ℕ → Bool → ℕ → Phase → Phase
take_index count alive w p =
    if alive
    then record p {
      next = p.next + 1;
      workers = set p.workers w (if ltb p.next count then busy p.next else returned);
    }
    else record p { workers = set p.workers w returned }

unfoldable pub advance : ℕ → Bool → ℕ → Phase → Option Worker → Phase
unfolding take_index
advance count alive w p none = p
advance count alive w p (some returned) = p
advance count alive w p (some ready) = take_index count alive w p
advance count alive w p (some (busy index)) = record p {
  workers = set p.workers w ready;
  samples = p.samples ++ (index ∷ []);
}

-- A step of one worker, with whether the context is alive.
pub record Turn : Type 0 where
  pub worker : ℕ
  pub alive : Bool

unfoldable pub turn : ℕ → Turn → Phase → Phase
unfolding advance
turn count t p = advance count t.alive t.worker p (get_elem? p.workers t.worker)

unfoldable pub run : ℕ → List Turn → Phase → Phase
unfolding turn
run count [] p = p
run count (t ∷ ts) p = run count ts (turn count t p)

-- How often an index is the one of a worker, and how often it is reported.
abbrev pub is_of : ℕ → Worker → ℕ
is_of i ready = 0
is_of i returned = 0
is_of i (busy j) = if j == i then 1 else 0

abbrev pub in_flight : ℕ → List Worker → ℕ
in_flight i [] = 0
in_flight i (w ∷ ws) = is_of i w + in_flight i ws

abbrev pub reported : ℕ → List ℕ → ℕ
reported i [] = 0
reported i (j ∷ js) = (if j == i then 1 else 0) + reported i js

in_flight-set :
    (i : ℕ) (ws : List Worker) (w : ℕ) (old new : Worker)
    → get_elem? ws w ≡ some old
    → in_flight i (set ws w new) + is_of i old ≡ in_flight i ws + is_of i new
in_flight-set i [] w old new e = cc
in_flight-set i (v ∷ ws) zero old new e = ground arith
in_flight-set i (v ∷ ws) (suc w) old new e = omega (arith, in_flight-set i ws w old new e)

reported-append :
    (i : ℕ) (js : List ℕ) (j : ℕ)
    → reported i (js ++ (j ∷ [])) ≡ reported i js + (if j == i then 1 else 0)
reported-append i [] j = omega arith
reported-append i (k ∷ js) j = omega (arith, reported-append i js j)

-- Each index that was taken is in flight or reported exactly once, and no other.
abbrev pub Shared : ℕ → Phase → Type 0
Shared count p =
    (i : ℕ)
    → reported i p.samples + in_flight i p.workers ≡ (if ltb i p.next && ltb i count then 1 else 0)

advance-Shared :
    (count : ℕ) (alive : Bool) (w : ℕ) (p : Phase) (o : Option Worker)
    → get_elem? p.workers w ≡ o
    → Shared count p
    → Shared count (advance count alive w p o)
unfolding advance take_index
advance-Shared count alive w p none e s i = s i
advance-Shared count alive w p (some returned) e s i = s i
advance-Shared count alive w p (some (busy index)) e s i = ground (
  arith,
  s i,
  in_flight-set i p.workers w (busy index) ready e,
  reported-append i p.samples index,
)
advance-Shared count true w p (some ready) e s i = elim (Bool-cases (ltb p.next count)) [
  | inl more ↦ rw more (ground (arith, s i, in_flight-set i p.workers w ready (busy p.next) e))
  | inr done ↦ rw done (ground (arith, s i, in_flight-set i p.workers w ready returned e))
]
advance-Shared count false w p (some ready) e s i =
    ground (arith, s i, in_flight-set i p.workers w ready returned e)

in_flight-replicate : (i n : ℕ) → in_flight i (replicate n ready) ≡ 0
in_flight-replicate i zero = refl
in_flight-replicate i (suc n) = omega (arith, in_flight-replicate i n)

new_phase-Shared : (count concurrency : ℕ) → Shared count (new_phase concurrency)
new_phase-Shared count concurrency i = ground (arith, in_flight-replicate i concurrency)

run_keeps :
    (count : ℕ) (ts : List Turn) (p : Phase) → Shared count p → Shared count (run count ts p)
unfolding run turn
run_keeps count [] p s = s
run_keeps count (t ∷ ts) p s =
    run_keeps count ts (turn count t p)
      (advance-Shared count t.alive t.worker p (get_elem? p.workers t.worker) refl s)

-- In every interleaving of the workers of a phase each index is requested at most once, and none from
-- the count on.
pub run-Shared :
    (count concurrency : ℕ) (ts : List Turn) → Shared count (run count ts (new_phase concurrency))
run-Shared count concurrency ts =
    run_keeps count ts (new_phase concurrency) (new_phase-Shared count concurrency)
