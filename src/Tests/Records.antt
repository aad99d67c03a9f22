-- ===== src/Tests/Records.antt =====
-- internal/persistence/recorder.go: a recorder with a queue of one.
use route_forge.Base.{ℕ, ◌%◌, ◌^◌, ◌≡◌, arith, Bool, true, false, List, [], ◌∷◌, length}
use route_forge.Base.Text.{codes}
use route_forge.History.{RequestRecord, begin_request_history}
use route_forge.Recorder.{new_async_recorder, submit_closed, submit, shutdown, work, observe}
use route_forge.Recorder.Steps.{Event, submits, works, run, step, accepted, work_all}
use route_forge.Recorder.Balance.{Balanced, run-Balanced_recorder}
use route_forge.Recorder.Queue.{InOrder, run-InOrder}
use route_forge.Recorder.Drain.{shutdown-work_all}

abbrev entry : RequestRecord
unfolding begin_request_history
entry = (begin_request_history (codes "a") 1 (codes "fixed") false (codes "m")).entry

abbrev history : List Event
history = submits entry ∷ works false 0 ∷ submits entry ∷ submits entry ∷ works false 9 ∷ []

run-Balanced_recorder_example : Balanced (run history (new_async_recorder 1))
run-Balanced_recorder_example = run-Balanced_recorder 1 history

run-InOrder_example :
    InOrder (accepted history (new_async_recorder 1)) (run history (new_async_recorder 1))
run-InOrder_example = run-InOrder 1 history

abbrev answers : List (Bool × ℕ)
answers = (false, 1) ∷ (true, 2) ∷ (false, 3) ∷ []

shutdown-work_all_example :
    let r' = work_all answers (shutdown (run history (new_async_recorder 1))) in
    (r'.done ≡ true)
    × (r'.store_closed ≡ true)
    × (r'.queue ≡ [])
    × (r'.submitted % 2 ^ 64 ≡ length r'.observed % 2 ^ 64)
    × (submit entry r' ≡ (submit_closed, r'))
unfolding run step submit work observe shutdown
shutdown-work_all_example = shutdown-work_all 1 history answers entry (omega arith)
