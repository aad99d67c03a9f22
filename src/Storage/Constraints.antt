-- ===== src/Storage/Constraints.antt =====
-- internal/gateway/persistence.go with internal/persistence/postgres/store.go and its
-- migrations/0001_initial.sql: the records that the gateway makes, in the checks of the store and the
-- constraints of the schema.
use route_forge.Base.{ℕ, ◌+◌, ◌≤◌, ◌≡◌, true, Option, none, some, List, [], ◌∷◌}
use route_forge.Base.Int.{ℤ, pos_part}
use route_forge.Base.Text.{codes, contains}
use route_forge.History.{AttemptRecord, RequestRecord}
use route_forge.Storage.Attempts.{Tried}

-- The outcomes that the schema lists.
abbrev pub outcomes : List (List ℕ)
outcomes =
    codes "success"
    ∷ codes "cancellation"
    ∷ codes "timeout"
    ∷ codes "unavailable"
    ∷ codes "rate_limited"
    ∷ codes "invalid_request"
    ∷ codes "internal"
    ∷ codes "other_failure"
    ∷ []

-- `ttfc_us IS NULL OR ttfc_us <= duration_us`.
abbrev pub Within : Option ℕ → ℕ → Type 0
Within none duration = Unit {0}
Within (some ttfc) duration = ttfc ≤ duration

-- The constraints on a row of an attempt; the number is positive, and no other attempt has it.
abbrev pub Checked : ℕ → AttemptRecord → Type 0
Checked i a =
    (a.attempt_number ≡ i + 1)
    × (a.started_at ≤ a.completed_at)
    × Within a.ttfc_us a.duration_us
    × (contains a.outcome outcomes ≡ true)

abbrev pub AllChecked : ℕ → List AttemptRecord → Type 0
AllChecked i [] = Unit {0}
AllChecked i (a ∷ attempts) = Checked i a × AllChecked (i + 1) attempts

-- The constraints on the row of a request.
abbrev pub RequestChecked : RequestRecord → Type 0
RequestChecked r =
    (r.started_at ≤ r.completed_at)
    × (r.fallback_count ≤ r.attempt_count)
    × (contains r.outcome outcomes ≡ true)

-- The first content of an attempt came no later than its end.
abbrev pub OnTime : Option ℤ → ℤ → Type 0
OnTime none duration = Unit {0}
OnTime (some ttfc) duration = pos_part ttfc ≤ pos_part duration

abbrev pub AllOnTime : List Tried → Type 0
AllOnTime [] = Unit {0}
AllOnTime (t ∷ ts) = OnTime t.ttfc t.duration × AllOnTime ts
