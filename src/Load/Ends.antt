-- ===== src/Load/Ends.antt =====
-- internal/loadtest/load.go: a phase that ends by itself has sent every request once.
use route_forge.Base.{
  ℕ, zero, suc, ◌+◌, ◌≤◌, ◌<◌, ◌≡◌, refl, ◌∙◌, Bool, true, false, Option, none, some, List, [], ◌∷◌,
  length, set, get_elem?, replicate, length-replicate, length-set, arith, ltb, if◌then◌else◌,
}
use route_forge.Load.Phase.{
  Worker, ready, returned, busy, Phase, new_phase, take_index, advance, Turn, turn, run, in_flight,
  reported, run-Shared,
}

-- No worker has returned before the indices were used up.
abbrev Lasts : ℕ → ℕ → List Worker → Type 0
Lasts count next [] = Unit {0}
Lasts count next (returned ∷ ws) = (count ≤ next) × Lasts count next ws
Lasts count next (v ∷ ws) = Lasts count next ws

Lasts-cons :
    (count next : ℕ) (v : Worker) (ws : List Worker)
    → (v ≡ returned → count ≤ next)
    → Lasts count next ws
    → Lasts count next (v ∷ ws)
Lasts-cons count next ready ws h l = l
Lasts-cons count next returned ws h l = (h refl, l)
Lasts-cons count next (busy j) ws h l = l

Lasts-later : (count next : ℕ) (ws : List Worker) → Lasts count next ws → Lasts count (next + 1) ws
Lasts-later count next [] l = tt
Lasts-later count next (ready ∷ ws) l = Lasts-later count next ws l
Lasts-later count next (returned ∷ ws) (h, l) = (omega arith, Lasts-later count next ws l)
Lasts-later count next (busy j ∷ ws) l = Lasts-later count next ws l

Lasts-set :
    (count next : ℕ) (ws : List Worker) (w : ℕ) (v : Worker)
    → (v ≡ returned → count ≤ next)
    → Lasts count next ws
    → Lasts count next (set ws w v)
Lasts-set count next [] w v h l = tt
Lasts-set count next (ready ∷ ws) zero v h l = Lasts-cons count next v ws h l
Lasts-set count next (returned ∷ ws) zero v h (k, l) = Lasts-cons count next v ws h l
Lasts-set count next (busy j ∷ ws) zero v h l = Lasts-cons count next v ws h l
Lasts-set count next (ready ∷ ws) (suc w) v h l = Lasts-set count next ws w v h l
Lasts-set count next (returned ∷ ws) (suc w) v h (k, l) = (k, Lasts-set count next ws w v h l)
Lasts-set count next (busy j ∷ ws) (suc w) v h l = Lasts-set count next ws w v h l

advance-Lasts :
    (count w : ℕ) (p : Phase) (o : Option Worker)
    → Lasts count p.next p.workers
    → let p' = advance count true w p o in Lasts count p'.next p'.workers
unfolding advance take_index
advance-Lasts count w p none l = l
advance-Lasts count w p (some returned) l = l
advance-Lasts count w p (some (busy index)) l = Lasts-set count p.next p.workers w ready (λ e. cc) l
advance-Lasts count w p (some ready) l =
    Lasts-set count (p.next + 1) p.workers w (if ltb p.next count then busy p.next else returned)
      (λ e. ground arith) (Lasts-later count p.next p.workers l)

abbrev pub AllAlive : List Turn → Type 0
AllAlive [] = Unit {0}
AllAlive (t ∷ ts) = (t.alive ≡ true) × AllAlive ts

run-Lasts :
    (count : ℕ) (ts : List Turn) (p : Phase)
    → AllAlive ts
    → Lasts count p.next p.workers
    → let p' = run count ts p in Lasts count p'.next p'.workers
unfolding run turn
run-Lasts count [] p alive l = l
run-Lasts count (t ∷ ts) p (first, alive) l =
    run-Lasts count ts (turn count t p) alive
      (rw first (advance-Lasts count t.worker p (get_elem? p.workers t.worker) l))

new_phase-Lasts : (count n : ℕ) → Lasts count 0 (replicate n ready)
new_phase-Lasts count zero = tt
new_phase-Lasts count (suc n) = new_phase-Lasts count n

-- All workers have returned.
abbrev pub Ended : List Worker → Type 0
Ended [] = Unit {0}
Ended (w ∷ ws) = (w ≡ returned) × Ended ws

in_flight-Ended : (i : ℕ) (ws : List Worker) → Ended ws → in_flight i ws ≡ 0
in_flight-Ended i [] e = refl
in_flight-Ended i (w ∷ ws) (h, e) = rw h (omega (arith, in_flight-Ended i ws e))

length-advance :
    (count w : ℕ) (alive : Bool) (p : Phase) (o : Option Worker)
    → length (advance count alive w p o).workers ≡ length p.workers
unfolding advance take_index
length-advance count w alive p none = refl
length-advance count w alive p (some returned) = refl
length-advance count w alive p (some (busy index)) = length-set p.workers w ready
length-advance count w true p (some ready) =
    length-set p.workers w (if ltb p.next count then busy p.next else returned)
length-advance count w false p (some ready) = length-set p.workers w returned

length-run :
    (count : ℕ) (ts : List Turn) (p : Phase) → length (run count ts p).workers ≡ length p.workers
unfolding run turn
length-run count [] p = refl
length-run count (t ∷ ts) p =
    length-run count ts (turn count t p)
    ∙ length-advance count t.worker t.alive p (get_elem? p.workers t.worker)

used_up :
    (count next : ℕ) (ws : List Worker)
    → 0 < length ws
    → Ended ws
    → Lasts count next ws
    → count ≤ next
used_up count next [] some_worker e l = absurd (omega arith)
used_up count next (ready ∷ ws) some_worker (h, e) l = cc
used_up count next (busy j ∷ ws) some_worker (h, e) l = cc
used_up count next (returned ∷ ws) some_worker (h, e) (k, l) = k

-- However the workers of a phase interleave, when all of them have returned and the context was alive
-- throughout, each index below the count has been requested and reported exactly once, and no other.
pub run_complete :
    (count concurrency : ℕ) (ts : List Turn)
    → 0 < concurrency
    → AllAlive ts
    → Ended (run count ts (new_phase concurrency)).workers
    → (i : ℕ)
    → reported i (run count ts (new_phase concurrency)).samples ≡ (if ltb i count then 1 else 0)
run_complete count concurrency ts some_worker alive ended i =
    let p = run count ts (new_phase concurrency) in
    let size = length-run count ts (new_phase concurrency) ∙ length-replicate concurrency ready in
    let lasts =
      run-Lasts count ts (new_phase concurrency) alive (new_phase-Lasts count concurrency) in
    let all = used_up count p.next p.workers (omega arith) ended lasts in
    ground (arith, run-Shared count concurrency ts i, in_flight-Ended i p.workers ended)
