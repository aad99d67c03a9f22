-- ===== src/Load/Report.antt =====
-- internal/loadtest/load.go and metrics.go: the bounds of a load, the counts of its outcomes, and what
-- the counters of the server say of it. An int is an integer; none of the sums reaches the range's end.
use route_forge.Base.{
  ℕ, ◌+◌, ◌*◌, ◌^◌, Bool, true, false, not, ◌&&◌, ◌||◌, Option, none, some, List, [], ◌∷◌, ◌++◌,
  if◌then◌else◌,
}
use route_forge.Base.Dict.{lookup, insert, text_eq}
use route_forge.Base.Int.{ℤ, pos, ◌+ℤ◌, ◌-ℤ◌, ltb_ℤ}
use route_forge.Base.Result.{Result, ok, ◌>>◌, require}
use route_forge.Base.Text.{codes, same}
use route_forge.Accounting.Price.{is_empty}
use route_forge.Runtime.{is_zero}

pub record LoadConfig : Type 0 where
  pub port : ℤ
  pub concurrency : ℤ
  pub requests : ℤ
  pub warmup : ℤ
  pub max_duration : ℤ
  pub request_timeout : ℤ
  pub streaming : Bool
  pub cache_mode : List ℕ
  pub persistence : Bool
  pub sample_persistence : Bool

pub data LoadError : Type 0 where
  invalid_bounds invalid_cache_mode counters_reset : LoadError

abbrev pub between : ℕ → ℕ → ℤ → Bool
between low high n = not (ltb_ℤ n (pos low)) && not (ltb_ℤ (pos high) n)

unfoldable pub has_mode : LoadConfig → Bool
has_mode c =
    if c.streaming
    then same c.cache_mode (codes "bypass")
    else same c.cache_mode (codes "miss")
      || (same c.cache_mode (codes "warm_hit") || same c.cache_mode (codes "disabled"))

-- `Validate`.
unfoldable pub validate_load : LoadConfig → Result LoadError (Unit {0})
unfolding has_mode
validate_load c = do
  require
      (between 1 65535 c.port
        && (between 1 64 c.concurrency
            && (between 1 1000000 c.requests
                && (between 1 2000 c.warmup
                    && (between (10 ^ 6) (300 * 10 ^ 9) c.max_duration
                        && between (10 ^ 6) (30 * 10 ^ 9) c.request_timeout)))))
      invalid_bounds
  require (has_mode c) invalid_cache_mode

-- `counters`, without those that only samples use.
pub record ServerCounters : Type 0 where
  pub requests : ℤ
  pub attempts : ℤ
  pub hits : ℤ
  pub misses : ℤ
  pub lookup_errors : ℤ
  pub writes : ℤ
  pub write_errors : ℤ
  pub persisted : ℤ
  pub persistence_errors : ℤ
  pub dropped : ℤ

pub record Observations : Type 0 where
  pub counted : ServerCounters
  pub persistence_settled : Bool
  pub cache_mode_verified : Bool

abbrev pub minus : ServerCounters → ServerCounters → ServerCounters
minus after before = record {
  requests = after.requests -ℤ before.requests;
  attempts = after.attempts -ℤ before.attempts;
  hits = after.hits -ℤ before.hits;
  misses = after.misses -ℤ before.misses;
  lookup_errors = after.lookup_errors -ℤ before.lookup_errors;
  writes = after.writes -ℤ before.writes;
  write_errors = after.write_errors -ℤ before.write_errors;
  persisted = after.persisted -ℤ before.persisted;
  persistence_errors = after.persistence_errors -ℤ before.persistence_errors;
  dropped = after.dropped -ℤ before.dropped;
}

abbrev pub equal : ℤ → ℤ → Bool
equal a b = not (ltb_ℤ a b) && not (ltb_ℤ b a)

abbrev pub none_negative : List ℤ → Bool
none_negative [] = true
none_negative (n ∷ ns) = not (ltb_ℤ n (pos 0)) && none_negative ns

unfoldable pub verified_as : List ℕ → ℤ → ServerCounters → Bool
verified_as mode requests o =
    if same mode (codes "warm_hit")
    then equal o.hits requests && (is_zero o.misses && is_zero o.attempts)
    else if same mode (codes "miss")
    then equal o.misses requests
      && (is_zero o.hits && (equal o.attempts requests && equal o.writes requests))
    else if same mode (codes "disabled") || same mode (codes "bypass")
    then is_zero (o.hits +ℤ o.misses) && equal o.attempts requests
    else false

-- `settledCounters`: the test of its loop.
unfoldable pub is_settled : ServerCounters → ServerCounters → ℤ → Bool → Bool
is_settled before after requests persistence =
    not (ltb_ℤ (after.requests -ℤ before.requests) requests)
    && (not persistence
        || not (
            ltb_ℤ
              (after.persisted +ℤ after.persistence_errors +ℤ after.dropped -ℤ before.persisted
                -ℤ before.persistence_errors -ℤ before.dropped)
              requests))

-- `difference`.
unfoldable pub difference :
    ServerCounters → ServerCounters → LoadConfig → ℤ → Bool → Result LoadError Observations
unfolding verified_as
difference before after c requests settled = do
  let o = minus after before
  require
      (none_negative (
        o.requests ∷ o.attempts ∷ o.hits ∷ o.misses ∷ o.lookup_errors ∷ o.writes ∷ o.write_errors
        ∷ o.persisted ∷ o.persistence_errors ∷ o.dropped ∷ []))
      counters_reset
  ok (record {
    counted = o;
    persistence_settled = settled;
    cache_mode_verified =
        equal o.requests requests
        && (is_zero o.lookup_errors
            && (is_zero o.write_errors && verified_as c.cache_mode requests o));
  })

-- `observation`; a blank failure is a success.
pub record Observation : Type 0 where
  pub duration : ℤ
  pub ttfc : Option ℤ
  pub failure : List ℕ

-- What `Run` counts of the samples.
pub record Tallies : Type 0 where
  pub successes : ℕ
  pub failures : ℕ
  pub errors : List (List ℕ × ℕ)
  pub latencies : List ℤ
  pub ttfcs : List ℤ

abbrev pub seen_before : Option ℕ → ℕ
seen_before none = 0
seen_before (some n) = n

abbrev pub add_sample_ttfc : Option ℤ → List ℤ → List ℤ
add_sample_ttfc none ttfcs = ttfcs
add_sample_ttfc (some t) ttfcs = ttfcs ++ (t ∷ [])

unfoldable pub tally : Observation → Tallies → Tallies
tally s t =
    if is_empty s.failure
    then record t {
      latencies = t.latencies ++ (s.duration ∷ []);
      ttfcs = add_sample_ttfc s.ttfc t.ttfcs;
      successes = t.successes + 1;
    }
    else record t {
      latencies = t.latencies ++ (s.duration ∷ []);
      ttfcs = add_sample_ttfc s.ttfc t.ttfcs;
      failures = t.failures + 1;
      errors = insert s.failure (seen_before (lookup s.failure t.errors) + 1) t.errors;
    }

unfoldable pub tally_all : List Observation → Tallies → Tallies
unfolding tally
tally_all [] t = t
tally_all (s ∷ ss) t = tally_all ss (tally s t)
