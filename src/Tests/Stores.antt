-- ===== src/Tests/Stores.antt =====
-- internal/persistence/postgres: a record, a query and starts of the program.
use route_forge.Base.{
  ℕ, zero, suc, ◌≤◌, ◌≡◌, refl, Bool, true, false, none, some, List, [], ◌∷◌, ◌++◌,
}
use route_forge.Base.Int.{pos}
use route_forge.Base.Text.{codes}
use route_forge.History.{RequestRecord, begin_request_history, finish}
use route_forge.Outcome.{outcome_success, outcome_timeout}
use route_forge.Storage.Attempts.{Tried, try_all}
use route_forge.Storage.Accepted.{hit_by}
use route_forge.Storage.Query.{ListQuery, number, filters, list_sql, max_page_size, statement_of}
use route_forge.Storage.Binding.{reads, list_sql-reads}
use route_forge.Storage.Schema.{
  Database, Postgres, IsTransactional, with_script, with_version, starts,
}
use route_forge.Storage.Whole.{upgrade, Whole}

-- A timeout of one provider, and an answer of the next.
abbrev attempts : List Tried
attempts =
    record {
      name = codes "openai";
      model = codes "gpt";
      started = 1000;
      outcome = outcome_timeout;
      duration = pos 30000;
      ttfc = none;
      usage = none;
      cost = none;
      finished = 900;
    }
    ∷ record {
      name = codes "anthropic";
      model = codes "claude";
      started = 2000;
      outcome = outcome_success;
      duration = pos 5000;
      ttfc = some (pos 2000);
      usage =
          some (record { input_tokens = some 3; output_tokens = some 4; total_tokens = some 7 });
      cost = some 12;
      finished = 7000;
    }
    ∷ []

abbrev made : RequestRecord
unfolding hit_by finish try_all begin_request_history
made = finish false none 8000 (
    hit_by none (
      try_all attempts
        (begin_request_history (codes "rfreq_1") 500 (codes "latency") false (codes "auto"))))

abbrev asked : ListQuery
asked = record {
  limit = 50;
  before = none;
  provider = codes "openai";
  routing_policy = [];
  outcome = codes "timeout";
  streaming = some false;
  cache_hit = none;
  started_after = none;
  started_before = none;
}

list_sql-reads_example :
    (reads 0 (statement_of 50 (filters asked)).0 ≡ some 4)
    × ((statement_of 50 (filters asked)).1 ≡ (filters asked).args ++ (number 51 ∷ []))
    × (1 ≤ 50)
    × (50 ≤ max_page_size)
unfolding list_sql filters
list_sql-reads_example = list_sql-reads asked (statement_of 50 (filters asked)) refl

-- PostgreSQL with a number of statements that succeed before one fails, after which all succeed.
record Session : Type 0 where
  durable : Database
  seen : Database
  left : ℕ

abbrev attempted : ℕ → Session → (Session → Session) → Session × Bool
attempted zero s change = (record s { left = 100 }, false)
attempted (suc n) s change = (change (record s { left = n }), true)

abbrev postgres : Postgres
postgres = record {
  Session = Session;
  committed = λ s. s.durable;
  working = λ s. s.seen;
  begin = λ s. attempted s.left s (λ t. record t { seen = t.durable });
  run_script = λ v s. attempted s.left s (λ t. record t { seen = with_script v t.seen });
  insert_version = λ v s. attempted s.left s (λ t. record t { seen = with_version v t.seen });
  commit = λ s. attempted s.left s (λ t. record t { durable = t.seen });
  rollback = λ s. record s { seen = s.durable };
}

module _ (change : Session → Session) where
  attempted_keeps :
      (n : ℕ) (s : Session)
      → ((t : Session) → (change t).durable ≡ t.durable)
      → (attempted n s change).0.durable ≡ s.durable
  attempted_keeps zero s h = refl
  attempted_keeps (suc n) s h = h (record s { left = n })

  attempted_fails :
      (n : ℕ) (s : Session)
      → (attempted n s change).1 ≡ false
      → (attempted n s change).0.durable ≡ s.durable
  attempted_fails zero s e = refl
  attempted_fails (suc n) s e = cc

  attempted_sees :
      (f : Session → Database) (n : ℕ) (s : Session) (d : Database)
      → ((n : ℕ) → f (change (record s { left = n })) ≡ d)
      → (attempted n s change).1 ≡ true
      → f (attempted n s change).0 ≡ d
  attempted_sees f zero s d h e = cc
  attempted_sees f (suc n) s d h e = h n

abbrev transactional : IsTransactional postgres
transactional = record {
  begin_keeps = λ s. attempted_keeps _ s.left s (λ t. refl);
  begin_sees = λ s. attempted_sees _ (λ t. t.seen) s.left s s.durable (λ n. refl);
  script_keeps = λ v s. attempted_keeps _ s.left s (λ t. refl);
  script_sees = λ v s. attempted_sees _ (λ t. t.seen) s.left s _ (λ n. refl);
  version_keeps = λ v s. attempted_keeps _ s.left s (λ t. refl);
  version_sees = λ v s. attempted_sees _ (λ t. t.seen) s.left s _ (λ n. refl);
  commit_keeps = λ s. attempted_fails _ s.left s;
  commit_sees = λ s. attempted_sees _ (λ t. t.durable) s.left s _ (λ n. refl);
  rollback_keeps = λ s. refl;
}

-- A database with the first migration, on which the second of two statements fails.
abbrev first_only : Database
first_only = record { versions = 1 ∷ []; scripts = 1 ∷ [] }

abbrev session : Session
session = record { durable = first_only; seen = first_only; left = 2 }

-- The first start fails, and the second upgrades.
upgraded :
    ((starts postgres 1 session).0.durable ≡ first_only)
    × ((starts postgres 2 session).0.durable ≡ upgrade first_only)
unfolding starts
upgraded = (refl, refl)
