-- ===== src/Recorder/Drain.antt =====
-- internal/persistence/recorder.go: the worker ends after a shutdown.
use mathlib.Core.Path.{subst}
use route_forge.Base.{
  ℕ, ◌+◌, ◌*◌, ◌%◌, ◌^◌, ◌≤◌, ◌≡◌, refl, sym, Bool, true, false, none, some, List, [], ◌∷◌, length,
  arith, Option-cases, if-holds, inl, inr, if◌then◌else◌,
}
use route_forge.History.{RequestRecord}
use route_forge.Recorder.{
  AsyncRecorder, submit_closed, new_async_recorder, observe, submit, shutdown, work, take_next,
  end_write,
}
use route_forge.Recorder.Steps.{Event, shuts_down, step, run, work_all}
use route_forge.Recorder.Balance.{
  work-none, work-some, Balanced, in_flight, new-Balanced, run_from-Balanced, work-Balanced,
  step-Balanced,
}

-- The steps that the worker still has to take: two for a record in the queue, one for the write in
-- flight, and the last.
abbrev pub remaining : AsyncRecorder → ℕ
remaining r = if r.done then 0 else 2 * length r.queue + in_flight r.writing + 1

-- What one step of the worker does to a recorder that accepts nothing.
abbrev Progress : AsyncRecorder → AsyncRecorder → Type 0
Progress r r' =
    (r'.accepting ≡ false) × (remaining r' + 1 ≤ remaining r + (if r.done then 1 else 0))

take-Progress :
    (queue : List RequestRecord) (r : AsyncRecorder)
    → r.queue ≡ queue
    → r.writing ≡ none
    → r.accepting ≡ false
    → r.done ≡ false
    → Progress r (take_next queue r)
unfolding take_next observe
take-Progress [] r q w a d = ground arith
take-Progress (entry ∷ queue) r q w a d = ground arith

end-Progress :
    (failed : Bool) (nanos : ℕ) (entry : RequestRecord) (r : AsyncRecorder)
    → r.writing ≡ some entry
    → r.accepting ≡ false
    → Progress r (end_write failed nanos r)
unfolding end_write observe
end-Progress failed nanos entry r w a = ground arith

work-Progress :
    (failed : Bool) (nanos : ℕ) (r : AsyncRecorder)
    → r.accepting ≡ false
    → Progress r (work failed nanos r)
work-Progress failed nanos r a = elim (Option-cases r.writing) [
  | inl w ↦ subst (Progress r) (sym (work-none failed nanos r w)) (
      if-holds (Progress r) r.done _ _ (λ d. (a, ground arith))
        (λ d. take-Progress r.queue r refl w a d))
  | inr (entry, w) ↦
      subst (Progress r) (sym (work-some failed nanos entry r w))
        (end-Progress failed nanos entry r w a)
]

work_all-done :
    (answers : List (Bool × ℕ)) (r : AsyncRecorder)
    → Balanced r
    → r.accepting ≡ false
    → remaining r ≤ length answers
    → ((work_all answers r).done ≡ true)
      × ((work_all answers r).accepting ≡ false)
      × Balanced (work_all answers r)
unfolding work_all
work_all-done [] r b a h = (ground arith, a, b)
work_all-done ((failed, nanos) ∷ answers) r b a h =
    let p = work-Progress failed nanos r a in
    work_all-done answers (work failed nanos r) (work-Balanced failed nanos r b) p.0
      (ground (arith, p.1))

-- After any history and a shutdown, whatever the store answers: once the worker has taken as many steps
-- as remain, two for each queued record, one for a write in flight and one to end, it is done and the
-- store is closed, the queue is empty, each counted submission was reported to the observer (modulo
-- 2^64), and a further submission is refused and changes nothing.
pub shutdown-work_all :
    (capacity : ℕ) (es : List Event) (answers : List (Bool × ℕ)) (entry : RequestRecord)
    → let r = shutdown (run es (new_async_recorder capacity)) in
      remaining r ≤ length answers
      → let r' = work_all answers r in
        (r'.done ≡ true)
        × (r'.store_closed ≡ true)
        × (r'.queue ≡ [])
        × (r'.submitted % 2 ^ 64 ≡ length r'.observed % 2 ^ 64)
        × (submit entry r' ≡ (submit_closed, r'))
unfolding submit shutdown step
shutdown-work_all capacity es answers entry h =
    let r = shutdown (run es (new_async_recorder capacity)) in
    let b = step-Balanced shuts_down _ (run_from-Balanced es _ (new-Balanced capacity)) in
    let (d, a, b') = work_all-done answers r b refl h in
    let (q, w, c) = b'.finished d in ground (arith, b'.submissions)
