-- ===== src/Storage/Whole.antt =====
-- internal/persistence/postgres/store.go: what `migrate` leaves behind, however it fails.
use route_forge.Base.{ℕ, ◌≡◌, Bool, true, false, List, [], ◌∷◌, ◌++◌, if◌then◌else◌}
use route_forge.Base.Result.{Result, ok, err}
use route_forge.Storage.Schema.{
  Database, MigrationError, migrations, is_applied, has_unsupported, with_script, with_version,
  Postgres, IsTransactional,
}

-- The migrations that a database lacks, in their order.
abbrev pub missing : List ℕ → List ℕ → List ℕ
missing versions [] = []
missing versions (v ∷ vs) =
    if is_applied v versions then missing versions vs else v ∷ missing versions vs

-- A database with the migrations that it lacks: each of their scripts has run once, after the others'.
abbrev pub upgrade : Database → Database
upgrade db = record {
  versions = db.versions ++ missing db.versions migrations;
  scripts = db.scripts ++ missing db.versions migrations;
}

-- What the loop makes of a database if all statements succeed.
unfoldable add_missing : List ℕ → Database → Database
add_missing [] db = db
add_missing (v ∷ vs) db =
    add_missing vs (if is_applied v db.versions then db else with_version v (with_script v db))

module _ (p : Postgres) (l : IsTransactional p) where
  open p use {Session, committed, working, begin, run_script, insert_version, commit, rollback}

  -- What a step leaves committed, and what the transaction sees once the step has succeeded.
  abbrev Sees : Session → (Database → Database) → Session × Bool → Type 0
  Sees s f r = (committed r.0 ≡ committed s) × (r.1 ≡ true → working r.0 ≡ f (working s))

  abbrev add_one : ℕ → Database → Database
  add_one v db = if is_applied v db.versions then db else with_version v (with_script v db)

  -- A start leaves a committed database as it was, or upgraded if it succeeded.
  abbrev Ends : Database → Session × Result MigrationError (Unit {0}) → Type 0
  Ends db (s, ok u) = (has_unsupported db.versions ≡ false) × (committed s ≡ upgrade db)
  Ends db (s, err e) = committed s ≡ db

  -- What some starts leave of a schema, with whether one of them succeeded.
  abbrev pub Whole : Database → Session × Bool → Type 0
  Whole db r =
      (committed r.0 ≡ (if r.1 then upgrade db else db))
      × (r.1 ≡ true → has_unsupported db.versions ≡ false)
