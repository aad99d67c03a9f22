-- ===== src/Recorder/Balance.antt =====
-- internal/persistence/recorder.go: what the counters and the observer are told.
use route_forge.Base.{
  ℕ, ◌+◌, ◌%◌, ◌^◌, ◌≤◌, ◌≡◌, refl, Bool, true, false, Option, none, some, List, [], ◌∷◌, length,
  length-append, Option-cases, if-holds, inl, inr, arith, if◌then◌else◌,
}
use route_forge.History.{RequestRecord}
use route_forge.Recorder.{
  outcome_written, outcome_write_error, outcome_queue_full, AsyncRecorder, new_async_recorder,
  observe, submit, shutdown, give_up, work, take_next, end_write,
}
use route_forge.Recorder.Steps.{Event, submits, shuts_down, gives_up, works, step, run}

abbrev pub in_flight : Option RequestRecord → ℕ
in_flight none = 0
in_flight (some entry) = 1

-- At every moment: the queue is within its capacity; each submission that was counted is in the queue,
-- in flight, or was reported to the observer; each record given to the store was counted or is in
-- flight; and when the worker is done, nothing is left, nothing is accepted and the store is closed,
-- which it is at no other time.
pub record Balanced (r : AsyncRecorder) : Type 0 where
  pub fits : length r.queue ≤ r.capacity
  pub submissions :
      r.submitted % 2 ^ 64 ≡ (length r.observed + length r.queue + in_flight r.writing) % 2 ^ 64
  pub given : length r.writes % 2 ^ 64 ≡ (r.write_count + in_flight r.writing) % 2 ^ 64
  pub closed : r.store_closed ≡ r.done
  pub finished : r.done ≡ true → (r.queue ≡ []) × (r.writing ≡ none) × (r.accepting ≡ false)

pub new-Balanced : (capacity : ℕ) → Balanced (new_async_recorder capacity)
new-Balanced capacity = record {
  fits = omega arith;
  submissions = refl;
  given = refl;
  closed = refl;
  finished = λ h. cc;
}

submit-Balanced :
    (entry : RequestRecord) (r : AsyncRecorder) → Balanced r → Balanced (submit entry r).1
unfolding submit observe
submit-Balanced entry r b = ground (
  arith,
  length-append {0} r.queue (entry ∷ []),
  length-append {0} r.observed (outcome_queue_full ∷ []),
)

take-Balanced :
    (queue : List RequestRecord) (r : AsyncRecorder)
    → r.queue ≡ queue
    → r.writing ≡ none
    → Balanced r
    → Balanced (take_next queue r)
unfolding take_next observe
take-Balanced [] r q w b = ground arith
take-Balanced (entry ∷ queue) r q w b = ground (
  arith,
  length-append {0} r.observed (outcome_write_error ∷ []),
  length-append {0} r.writes (entry ∷ []),
)

end-Balanced :
    (entry : RequestRecord) (failed : Bool) (nanos : ℕ) (r : AsyncRecorder)
    → r.writing ≡ some entry
    → Balanced r
    → Balanced (end_write failed nanos r)
unfolding end_write observe
end-Balanced entry failed nanos r w b = ground (
  arith,
  length-append {0} r.observed ((if failed then outcome_write_error else outcome_written) ∷ []),
)

-- What a step of the worker is, by what it is doing.
pub work-none :
    (failed : Bool) (nanos : ℕ) (r : AsyncRecorder)
    → r.writing ≡ none
    → work failed nanos r ≡ (if r.done then r else take_next r.queue r)
unfolding work
work-none failed nanos r w = ground arith

pub work-some :
    (failed : Bool) (nanos : ℕ) (entry : RequestRecord) (r : AsyncRecorder)
    → r.writing ≡ some entry
    → work failed nanos r ≡ end_write failed nanos r
unfolding work
work-some failed nanos entry r w = ground arith

pub work-Balanced :
    (failed : Bool) (nanos : ℕ) (r : AsyncRecorder) → Balanced r → Balanced (work failed nanos r)
unfolding work
work-Balanced failed nanos r b = elim (Option-cases r.writing) [
  | inl w ↦
      rw (w, work) (if-holds Balanced r.done _ _ (λ d. b) (λ d. take-Balanced r.queue r refl w b))
  | inr (entry, w) ↦ rw (w, work) (end-Balanced entry failed nanos r w b)
]

pub step-Balanced : (e : Event) (r : AsyncRecorder) → Balanced r → Balanced (step e r)
unfolding step shutdown give_up
step-Balanced (submits entry) r b = submit-Balanced entry r b
step-Balanced shuts_down r b = ground arith
step-Balanced gives_up r b = ground arith
step-Balanced (works failed nanos) r b = work-Balanced failed nanos r b

pub run_from-Balanced : (es : List Event) (r : AsyncRecorder) → Balanced r → Balanced (run es r)
unfolding run
run_from-Balanced [] r b = b
run_from-Balanced (e ∷ es) r b = run_from-Balanced es (step e r) (step-Balanced e r b)

-- In every interleaving of submissions, shutdowns, cancellations and steps of the worker, a new recorder
-- stays balanced: the queue is within its capacity, every submission counted is queued, in flight or
-- reported to the observer once, every record that the store was given is counted or in flight, and the
-- store is closed exactly when the worker is done, with nothing left and nothing accepted any more. The
-- counters are compared modulo 2^64.
pub run-Balanced_recorder :
    (capacity : ℕ) (es : List Event) → Balanced (run es (new_async_recorder capacity))
run-Balanced_recorder capacity es = run_from-Balanced es _ (new-Balanced capacity)
