-- ===== src/Tests/Loads.antt =====
-- internal/loadtest: two workers that share three requests.
use route_forge.Base.{◌≡◌, refl, true, List, [], ◌∷◌, ltb, arith, map, if◌then◌else◌}
use route_forge.Load.Phase.{new_phase, Turn, run, reported}
use route_forge.Load.Ends.{run_complete}

-- The second worker sends the last request while the first is still waiting.
abbrev turns : List Turn
turns = map (λ w. record { worker = w; alive = true }) (0 ∷ 1 ∷ 1 ∷ 1 ∷ 1 ∷ 1 ∷ 0 ∷ 0 ∷ [])

run_complete_example : reported 2 (run 3 turns (new_phase 2)).samples ≡ (if ltb 2 3 then 1 else 0)
unfolding run
run_complete_example =
    run_complete 3 2 turns (omega arith)
      (refl, (refl, (refl, (refl, (refl, (refl, (refl, (refl, tt)))))))) (refl, (refl, tt)) 2
