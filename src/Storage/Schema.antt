-- ===== src/Storage/Schema.antt =====
-- internal/persistence/postgres/store.go: `migrate`, which every start of the program runs in one
-- transaction under a lock. PostgreSQL is a parameter: a session with the committed database and the one
-- that its transaction sees. A database is the versions that are recorded as applied and the scripts that
-- have run on it.
use route_forge.Base.{
  ℕ, zero, suc, ◌≡◌, Bool, true, false, not, ◌||◌, List, [], ◌∷◌, ◌++◌, ◌==◌, if◌then◌else◌,
}
use route_forge.Base.Result.{Result, ok, err}

pub record Database : Type 0 where
  pub versions : List ℕ
  pub scripts : List ℕ

pub data MigrationError : Type 0 where
  unsupported_version statement_failed : MigrationError

-- The versions of `migrations`.
abbrev pub migrations : List ℕ
migrations = 1 ∷ 2 ∷ 3 ∷ []

abbrev pub is_applied : ℕ → List ℕ → Bool
is_applied v [] = false
is_applied v (w ∷ versions) = (v == w) || is_applied v versions

abbrev pub has_unsupported : List ℕ → Bool
has_unsupported [] = false
has_unsupported (w ∷ versions) = not (is_applied w migrations) || has_unsupported versions

abbrev pub with_script : ℕ → Database → Database
with_script v db = record db { scripts = db.scripts ++ (v ∷ []) }

abbrev pub with_version : ℕ → Database → Database
with_version v db = record db { versions = db.versions ++ (v ∷ []) }

-- What the program asks of PostgreSQL, each with whether it succeeds. `begin` is the transaction with
-- its lock and the table of the versions.
pub record Postgres : Type 1 where
  pub Session : Type 0
  pub committed : Session → Database
  pub working : Session → Database
  pub begin : Session → Session × Bool
  pub run_script : ℕ → Session → Session × Bool
  pub insert_version : ℕ → Session → Session × Bool
  pub commit : Session → Session × Bool
  pub rollback : Session → Session

-- A statement that succeeds changes what the transaction sees, and nothing but a commit that succeeds
-- changes what is committed.
pub record IsTransactional (p : Postgres) : Type 0 where
  pub begin_keeps : (s : p.Session) → p.committed (p.begin s).0 ≡ p.committed s
  pub begin_sees : (s : p.Session) → (p.begin s).1 ≡ true → p.working (p.begin s).0 ≡ p.committed s
  pub script_keeps : (v : ℕ) (s : p.Session) → p.committed (p.run_script v s).0 ≡ p.committed s
  pub script_sees :
      (v : ℕ) (s : p.Session)
      → (p.run_script v s).1 ≡ true
      → p.working (p.run_script v s).0 ≡ with_script v (p.working s)
  pub version_keeps : (v : ℕ) (s : p.Session) → p.committed (p.insert_version v s).0 ≡ p.committed s
  pub version_sees :
      (v : ℕ) (s : p.Session)
      → (p.insert_version v s).1 ≡ true
      → p.working (p.insert_version v s).0 ≡ with_version v (p.working s)
  pub commit_keeps :
      (s : p.Session) → (p.commit s).1 ≡ false → p.committed (p.commit s).0 ≡ p.committed s
  pub commit_sees :
      (s : p.Session) → (p.commit s).1 ≡ true → p.committed (p.commit s).0 ≡ p.working s
  pub rollback_keeps : (s : p.Session) → p.committed (p.rollback s) ≡ p.committed s

module _ (p : Postgres) where
  open p use {Session, committed, working, begin, run_script, insert_version, commit, rollback}

  -- A statement that fails rolls the transaction back, and otherwise the next step follows.
  abbrev pub unless_failed : Session × Bool → (Session → Session × Bool) → Session × Bool
  unless_failed (s, true) next = next s
  unless_failed (s, false) next = (rollback s, false)

  -- One round of the loop over the migrations.
  unfoldable pub apply_migration : ℕ → Session → Session × Bool
  apply_migration v s =
      if is_applied v (working s).versions
      then (s, true)
      else unless_failed (run_script v s) (λ t. unless_failed (insert_version v t) (λ u. (u, true)))

  abbrev pub go_on : Session × Bool → (Session → Session × Bool) → Session × Bool
  go_on (s, true) next = next s
  go_on (s, false) next = (s, false)

  unfoldable pub apply_all : List ℕ → Session → Session × Bool
  unfolding apply_migration
  apply_all [] s = (s, true)
  apply_all (v ∷ vs) s = go_on (apply_migration v s) (apply_all vs)

  -- The end of `migrate`, with its deferred rollback.
  abbrev pub committing : Session × Bool → Session × Result MigrationError (Unit {0})
  committing (s, true) = (rollback s, ok tt)
  committing (s, false) = (rollback s, err statement_failed)

  abbrev pub migrated : Session × Bool → Session × Result MigrationError (Unit {0})
  migrated (s, true) = committing (commit s)
  migrated (s, false) = (rollback s, err statement_failed)

  abbrev pub begun : Session × Bool → Session × Result MigrationError (Unit {0})
  begun (s, true) =
      if has_unsupported (working s).versions
      then (rollback s, err unsupported_version)
      else migrated (apply_all migrations s)
  begun (s, false) = (rollback s, err statement_failed)

  -- `migrate`.
  unfoldable pub migrate : Session → Session × Result MigrationError (Unit {0})
  unfolding apply_all
  migrate s = begun (begin s)

  abbrev pub is_done : Result MigrationError (Unit {0}) → Bool
  is_done (ok u) = true
  is_done (err e) = false

  -- Some starts of the program, and whether any of them succeeded.
  unfoldable pub starts : ℕ → Session → Session × Bool
  unfolding migrate
  starts zero s = (s, false)
  starts (suc n) s =
      let (t, done) = starts n s in let (u, result) = migrate t in (u, done || is_done result)
