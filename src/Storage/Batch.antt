-- ===== src/Storage/Batch.antt =====
-- internal/persistence/postgres/store.go: the batch that a record of the gateway gives.
use route_forge.Base.{
  ℕ, suc, ◌+◌, ◌≤◌, ◌≡◌, refl, ap, Bool, true, Option, none, some, List, [], ◌∷◌, length, arith,
  le→leb,
}
use route_forge.Base.Result.{ok}
use route_forge.Outcome.{Error}
use route_forge.History.{AttemptRecord, RequestHistory, finish, final_outcome}
use route_forge.Storage.Attempts.{Fits, AllReady, le-later, within-outcome_text}
use route_forge.Storage.{
  Numbers, insert_attempt, within, valid_metadata, valid_counts, valid_attempts, validate_record,
  postgres_uint64, Statement, insert_request, attempt_numbers, attempt_statements, record_batch,
}

-- What the store relies on of a history.
pub record Storing (h : RequestHistory) : Type 0 where
  pub id : within 64 h.entry.request_id ≡ true
  pub policy : within 32 h.entry.routing_policy ≡ true
  pub model : length h.entry.logical_model ≤ 256
  pub attempts : AllReady 0 h.entry.attempts

postgres_uint64-Fits : (n : Option ℕ) → Fits n → postgres_uint64 n ≡ ok n
unfolding postgres_uint64
postgres_uint64-Fits none f = refl
postgres_uint64-Fits (some n) f = ground arith

attempt_numbers-ok :
    (a : AttemptRecord)
    → Fits a.input_tokens
    → Fits a.output_tokens
    → Fits a.total_tokens
    → Fits a.estimated_cost_micro_usd
    → (numbers : Numbers) × (attempt_numbers a ≡ ok numbers)
unfolding attempt_numbers
attempt_numbers-ok a i o t c = (
  record {
    input = a.input_tokens;
    output = a.output_tokens;
    total = a.total_tokens;
    cost = a.estimated_cost_micro_usd;
  },
  rw
      (
        postgres_uint64-Fits a.input_tokens i,
        postgres_uint64-Fits a.output_tokens o,
        postgres_uint64-Fits a.total_tokens t,
        postgres_uint64-Fits a.estimated_cost_micro_usd c,
      )
      refl,
)

attempt_statements-ok :
    (id : List ℕ) (i : ℕ) (attempts : List AttemptRecord)
    → AllReady i attempts
    → (rows : List Statement) × (attempt_statements id attempts ≡ ok rows)
      × (length rows ≡ length attempts)
unfolding attempt_statements
attempt_statements-ok id i [] ready = ([], refl, refl)
attempt_statements-ok id i (a ∷ attempts) ((valid, input, output, total, cost), ready) =
    let (numbers, is_numbers) = attempt_numbers-ok a input output total cost in
    let (rows, is_rows, size) = attempt_statements-ok id (i + 1) attempts ready in
    (insert_attempt id a numbers ∷ rows, rw (is_numbers, is_rows) refl, ap suc size)

valid_attempts-ready :
    (i : ℕ) (attempts : List AttemptRecord) → AllReady i attempts → valid_attempts i attempts ≡ true
unfolding valid_attempts
valid_attempts-ready i [] ready = refl
valid_attempts-ready i (a ∷ attempts) (first, ready) =
    rw (first.0, valid_attempts-ready (i + 1) attempts ready) refl

finish-metadata :
    (ctx_done : Bool) (e : Option Error) (now : ℕ) (h : RequestHistory)
    → Storing h
    → valid_metadata (finish ctx_done e now h) ≡ true
unfolding finish valid_metadata
finish-metadata ctx_done e now h s =
    rw
      (
        s.id,
        s.policy,
        le→leb _ _ s.model,
        within-outcome_text (final_outcome ctx_done e h.last_outcome),
      )
      refl

finish-counts :
    (ctx_done : Bool) (e : Option Error) (now : ℕ) (h : RequestHistory)
    → valid_counts (finish ctx_done e now h) ≡ true
unfolding finish valid_counts
finish-counts ctx_done e now h = ground (arith, le-later now h.entry.started_at)

-- What the store makes of a request that finishes: a statement for it and one for each attempt.
pub finish-batch :
    (ctx_done : Bool) (e : Option Error) (now : ℕ) (h : RequestHistory)
    → Storing h
    → let r = finish ctx_done e now h in
      (rows : List Statement) × (record_batch r ≡ ok (insert_request r ∷ rows))
      × (length rows ≡ length h.entry.attempts)
unfolding finish record_batch validate_record
finish-batch ctx_done e now h s =
    let r = finish ctx_done e now h in
    let (rows, is_rows, size) =
      attempt_statements-ok h.entry.request_id 0 h.entry.attempts s.attempts in
    (
      rows,
      rw
          (
            finish-metadata ctx_done e now h s,
            finish-counts ctx_done e now h,
            valid_attempts-ready 0 h.entry.attempts s.attempts,
            is_rows,
          )
          refl,
      size,
    )
