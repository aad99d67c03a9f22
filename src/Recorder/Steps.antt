-- ===== src/Recorder/Steps.antt =====
-- internal/persistence/recorder.go: a recorder under any interleaving of its callers and its worker.
use route_forge.Base.{ℕ, Bool, List, [], ◌∷◌, ◌++◌}
use route_forge.History.{RequestRecord}
use route_forge.Recorder.{
  AsyncRecorder, SubmitResult, submit_queued, submit, shutdown, give_up, work,
}

-- A call of `Submit`, a call of `Shutdown`, the end of its waiting, and a step of the worker.
pub data Event : Type 0 where
  submits : RequestRecord → Event
  shuts_down gives_up : Event
  works : Bool → ℕ → Event

unfoldable pub step : Event → AsyncRecorder → AsyncRecorder
step (submits entry) r = (submit entry r).1
step shuts_down r = shutdown r
step gives_up r = give_up r
step (works failed nanos) r = work failed nanos r

unfoldable pub run : List Event → AsyncRecorder → AsyncRecorder
run [] r = r
run (e ∷ es) r = run es (step e r)

-- The record of a submission that was queued.
abbrev pub queued : RequestRecord → SubmitResult → List RequestRecord
queued entry submit_queued = entry ∷ []
queued entry _ = []

-- The record that an event puts into the queue, and those of a history.
abbrev pub queued_by : Event → AsyncRecorder → List RequestRecord
queued_by (submits entry) r = queued entry (submit entry r).0
queued_by _ r = []

abbrev pub accepted : List Event → AsyncRecorder → List RequestRecord
accepted [] r = []
accepted (e ∷ es) r = queued_by e r ++ accepted es (step e r)

-- Steps of the worker alone, one for each answer of the store.
unfoldable pub work_all : List (Bool × ℕ) → AsyncRecorder → AsyncRecorder
work_all [] r = r
work_all ((failed, nanos) ∷ answers) r = work_all answers (work failed nanos r)
