-- ===== src/Recorder.antt =====
-- internal/persistence/recorder.go: the queue of request records and the worker that writes them. The
-- mutex, the channel and the atomic counters make each operation here atomic; the worker's loop is cut
-- at the calls of the store. The store's answers are arguments: whether the write failed, and its
-- duration. The int64 counters are kept modulo 2^64. A record is a value, so its `Clone` is itself.
pub mod Steps
pub mod Balance
pub mod Queue
pub mod Drain
use route_forge.Base.{
  ℕ, ◌+◌, ◌%◌, ◌^◌, Bool, true, false, not, Option, none, some, List, [], ◌∷◌, ◌++◌, length, ltb,
  ◌==◌, if◌then◌else◌,
}
use route_forge.History.{RequestRecord}

abbrev default_queue_capacity : ℕ
default_queue_capacity = 256

pub data WriteOutcome : Type 0 where
  outcome_written outcome_write_error outcome_queue_full : WriteOutcome

pub data SubmitResult : Type 0 where
  submit_disabled submit_queued submit_queue_full submit_closed : SubmitResult

-- `writing` is the write in flight, `writes` are the records that the store was given, `observed` the
-- outcomes that the observer was told; `canceled` is the state of the worker's context.
pub record AsyncRecorder : Type 0 where
  pub capacity : ℕ
  pub queue : List RequestRecord
  pub accepting : Bool
  pub canceled : Bool
  pub writing : Option RequestRecord
  pub writes : List RequestRecord
  pub store_closed : Bool
  pub done : Bool
  pub submitted : ℕ
  pub write_count : ℕ
  pub write_nanos : ℕ
  pub observed : List WriteOutcome

abbrev pub new_async_recorder : ℕ → AsyncRecorder
new_async_recorder capacity = record {
  capacity = if capacity == 0 then default_queue_capacity else capacity;
  queue = [];
  accepting = true;
  canceled = false;
  writing = none;
  writes = [];
  store_closed = false;
  done = false;
  submitted = 0;
  write_count = 0;
  write_nanos = 0;
  observed = [];
}

-- `Stats`: the submissions, the depth of the queue, the writes and the time they took.
unfoldable pub stats : AsyncRecorder → ℕ × ℕ × ℕ × ℕ
stats r = (r.submitted, length r.queue, r.write_count, r.write_nanos)

unfoldable pub observe : WriteOutcome → AsyncRecorder → AsyncRecorder
observe o r = record r { observed = r.observed ++ (o ∷ []) }

unfoldable pub submit : RequestRecord → AsyncRecorder → SubmitResult × AsyncRecorder
unfolding observe
submit entry r =
    let counted = record r { submitted = (r.submitted + 1) % 2 ^ 64 } in
    if not r.accepting
    then (submit_closed, r)
    else if ltb (length r.queue) r.capacity
    then (submit_queued, record counted { queue = r.queue ++ (entry ∷ []) })
    else (submit_queue_full, observe outcome_queue_full counted)

-- `Submit` on a recorder that may be nil, and that of `NoopRecorder`.
abbrev pub submit_to : RequestRecord → Option AsyncRecorder → SubmitResult × Option AsyncRecorder
submit_to entry none = (submit_disabled, none)
submit_to entry (some r) = let (result, r') = submit entry r in (result, some r')

-- `Shutdown`: the queue is closed, and the caller waits.
unfoldable pub shutdown : AsyncRecorder → AsyncRecorder
shutdown r = record r { accepting = false }

-- The caller of `Shutdown` stops waiting, before the worker is done.
unfoldable pub give_up : AsyncRecorder → AsyncRecorder
give_up r = record r { canceled = true }

-- The worker at the head of its loop: it takes a record, waits for one, or ends.
pub take_next : List RequestRecord → AsyncRecorder → AsyncRecorder
unfolding observe
take_next [] r =
    if r.accepting then r else record r { canceled = true; store_closed = true; done = true }
take_next (entry ∷ queue) r =
    if r.canceled
    then observe outcome_write_error (record r { queue = queue })
    else record r { queue = queue; writing = some entry; writes = r.writes ++ (entry ∷ []) }

-- The worker when the store has answered.
pub end_write : Bool → ℕ → AsyncRecorder → AsyncRecorder
unfolding observe
end_write failed nanos r =
    observe (if failed then outcome_write_error else outcome_written) (record r {
      writing = none;
      write_count = (r.write_count + 1) % 2 ^ 64;
      write_nanos = (r.write_nanos + nanos) % 2 ^ 64;
    })

-- One step of `run`.
unfoldable pub work : Bool → ℕ → AsyncRecorder → AsyncRecorder
unfolding take_next end_write
work failed nanos r = elim r.writing [
  | some entry ↦ end_write failed nanos r
  | none ↦ if r.done then r else take_next r.queue r
]
