-- ===== src/Recorder/Queue.antt =====
-- internal/persistence/recorder.go: the order in which the store is given the records.
use mathlib.Core.Path.{subst}
use mathlib.Core.List.{append-nil, append_assoc}
use route_forge.Base.{
  ℕ, ◌≡◌, refl, sym, Bool, false, List, [], ◌∷◌, ◌++◌, arith, Option-cases, if-holds, inl, inr,
  if◌then◌else◌,
}
use route_forge.History.{RequestRecord}
use route_forge.Recorder.{
  AsyncRecorder, new_async_recorder, observe, submit, shutdown, give_up, work, take_next, end_write,
}
use route_forge.Recorder.Steps.{
  Event, submits, shuts_down, gives_up, works, step, run, queued_by, accepted,
}

-- The records of a list were given to the store in that order, up to those that were dropped behind
-- them, which there are only after a cancellation, and to those still in the queue.
unfoldable pub InOrder : List RequestRecord → AsyncRecorder → Type 0
InOrder log r =
    (dropped : List RequestRecord) × (log ≡ r.writes ++ (dropped ++ r.queue))
    × (r.canceled ≡ false → dropped ≡ [])

module _ (log : List RequestRecord) where
  submit-InOrder :
      (entry : RequestRecord) (r : AsyncRecorder)
      → InOrder log r
      → InOrder (log ++ queued_by (submits entry) r) (submit entry r).1
  unfolding InOrder submit observe
  submit-InOrder entry r (dropped, e, c) = (
    dropped,
    ground (
      arith,
      append-nil log,
      append_assoc r.writes (dropped ++ r.queue) (entry ∷ []),
      append_assoc dropped r.queue (entry ∷ []),
    ),
    ground arith,
  )

  take-InOrder :
      (queue : List RequestRecord) (r : AsyncRecorder)
      → r.queue ≡ queue
      → InOrder log r
      → InOrder log (take_next queue r)
  unfolding InOrder take_next observe
  take-InOrder [] r q (dropped, e, c) = (dropped, ground arith, ground arith)
  take-InOrder (entry ∷ queue) r q (dropped, e, c) = (
    if r.canceled then dropped ++ (entry ∷ []) else [],
    ground
        (arith, append_assoc dropped (entry ∷ []) queue, append_assoc r.writes (entry ∷ []) queue),
    ground arith,
  )

  end-InOrder :
      (failed : Bool) (nanos : ℕ) (r : AsyncRecorder)
      → InOrder log r
      → InOrder log (end_write failed nanos r)
  unfolding InOrder end_write observe
  end-InOrder failed nanos r (dropped, e, c) = (dropped, e, c)

  work-InOrder :
      (failed : Bool) (nanos : ℕ) (r : AsyncRecorder)
      → InOrder log r
      → InOrder log (work failed nanos r)
  unfolding work
  work-InOrder failed nanos r o = elim (Option-cases r.writing) [
    | inl w ↦
        rw (w, work)
          (if-holds (InOrder log) r.done _ _ (λ d. o) (λ d. take-InOrder r.queue r refl o))
    | inr (entry, w) ↦ rw (w, work) (end-InOrder failed nanos r o)
  ]

  same-InOrder : (r : AsyncRecorder) → InOrder log r → InOrder (log ++ []) r
  same-InOrder r o = subst (λ l. InOrder l r) (sym (append-nil log)) o

  step-InOrder :
      (e : Event) (r : AsyncRecorder) → InOrder log r → InOrder (log ++ queued_by e r) (step e r)
  unfolding step InOrder shutdown give_up
  step-InOrder (submits entry) r o = submit-InOrder entry r o
  step-InOrder shuts_down r o = same-InOrder (shutdown r) o
  step-InOrder gives_up r (dropped, e, c) = same-InOrder (give_up r) (dropped, e, λ h. cc)
  step-InOrder (works failed nanos) r o =
      same-InOrder (work failed nanos r) (work-InOrder failed nanos r o)

run-all :
    (log : List RequestRecord) (es : List Event) (r : AsyncRecorder)
    → InOrder log r
    → InOrder (log ++ accepted es r) (run es r)
unfolding run
run-all log [] r o = same-InOrder log r o
run-all log (e ∷ es) r o =
    subst (λ l. InOrder l (run es (step e r)))
      (append_assoc log (queued_by e r) (accepted es (step e r)))
      (run-all (log ++ queued_by e r) es (step e r) (step-InOrder log e r o))

-- In every interleaving, the store is given the queued records in the order of their submissions, each
-- once: the queued records are those given to the store, then those that were dropped, then those in the
-- queue, and none is dropped unless the worker's context was canceled.
pub run-InOrder :
    (capacity : ℕ) (es : List Event)
    → InOrder (accepted es (new_async_recorder capacity)) (run es (new_async_recorder capacity))
unfolding InOrder
run-InOrder capacity es = run-all [] es _ ([], refl, λ h. refl)
