-- ===== src/Storage.antt =====
-- internal/persistence/postgres/store.go and reader.go: what is written to the database and asked of
-- it. PostgreSQL itself is outside: a batch is the list of its statements, and a statement of the
-- reader is the list of its pieces, whose concatenation is the text. A duration of a record is a number
-- here and never negative, and a text is measured in bytes, which are its characters if it is ASCII.
pub mod Attempts
pub mod Batch
pub mod Accepted
pub mod Constraints
pub mod Query
pub mod Binding
pub mod Schema
pub mod Whole
use route_forge.Base.{
  ℕ, ◌+◌, ◌-◌, ◌^◌, Bool, true, false, not, ◌&&◌, ◌||◌, Option, none, some, List, [], ◌∷◌, length,
  leb, ltb, ◌==◌, if◌then◌else◌,
}
use route_forge.Base.Result.{Result, ok, err, ◌>>=◌, ◌>>◌, require}
use route_forge.Accounting.Price.{is_empty}
use route_forge.History.{RequestRecord, AttemptRecord}

pub data StoreError : Type 0 where
  invalid_metadata invalid_counts invalid_attempt exceeds_bigint : StoreError

abbrev pub within : ℕ → List ℕ → Bool
within maximum text = not (is_empty text) && leb (length text) maximum

unfoldable pub valid_metadata : RequestRecord → Bool
valid_metadata r =
    within 64 r.request_id
    && (within 32 r.routing_policy && (leb (length r.logical_model) 256 && within 32 r.outcome))

unfoldable pub valid_counts : RequestRecord → Bool
valid_counts r =
    not (ltb r.completed_at r.started_at)
    && ((r.attempt_count == length r.attempts) && leb r.fallback_count r.attempt_count)

-- The attempt at an index.
unfoldable pub valid_attempt : ℕ → AttemptRecord → Bool
valid_attempt i a =
    (a.attempt_number == i + 1)
    && (within 64 a.provider
        && (within 256 a.resolved_provider_model
            && (within 32 a.outcome && not (ltb a.completed_at a.started_at))))

unfoldable pub valid_attempts : ℕ → List AttemptRecord → Bool
unfolding valid_attempt
valid_attempts i [] = true
valid_attempts i (a ∷ attempts) = valid_attempt i a && valid_attempts (i + 1) attempts

-- `validateRecord`.
unfoldable pub validate_record : RequestRecord → Result StoreError (Unit {0})
unfolding valid_metadata valid_counts valid_attempts
validate_record r = do
  require (valid_metadata r) invalid_metadata
  require (valid_counts r) invalid_counts
  require (valid_attempts 0 r.attempts) invalid_attempt

-- `postgresUint64`.
unfoldable pub postgres_uint64 : Option ℕ → Result StoreError (Option ℕ)
postgres_uint64 none = ok none
postgres_uint64 (some n) = if ltb (2 ^ 63 - 1) n then err exceeds_bigint else ok (some n)

-- The four numbers of an attempt as BIGINTs.
pub record Numbers : Type 0 where
  pub input : Option ℕ
  pub output : Option ℕ
  pub total : Option ℕ
  pub cost : Option ℕ

-- A statement of a batch: an attempt stands with the identifier of its request.
pub data Statement : Type 0 where
  insert_request : RequestRecord → Statement
  insert_attempt : List ℕ → AttemptRecord → Numbers → Statement

unfoldable pub attempt_numbers : AttemptRecord → Result StoreError Numbers
unfolding postgres_uint64
attempt_numbers a = do
  input ← postgres_uint64 a.input_tokens
  output ← postgres_uint64 a.output_tokens
  total ← postgres_uint64 a.total_tokens
  cost ← postgres_uint64 a.estimated_cost_micro_usd
  ok (record { input = input; output = output; total = total; cost = cost })

unfoldable pub attempt_statements : List ℕ → List AttemptRecord → Result StoreError (List Statement)
unfolding attempt_numbers
attempt_statements id [] = ok []
attempt_statements id (a ∷ attempts) = do
  numbers ← attempt_numbers a
  rest ← attempt_statements id attempts
  ok (insert_attempt id a numbers ∷ rest)

-- `recordBatch`.
unfoldable pub record_batch : RequestRecord → Result StoreError (List Statement)
unfolding validate_record attempt_statements
record_batch r = do
  validate_record r
  statements ← attempt_statements r.request_id r.attempts
  ok (insert_request r ∷ statements)
