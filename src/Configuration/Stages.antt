-- ===== src/Configuration/Stages.antt =====
-- internal/config/config.go and admin_auth.go: the values that `Load` reads, one loop or helper after
-- the other.
use Prim.Native.String.{String}
use route_forge.Base.{
  ℕ, ◌*◌, ◌%◌, Bool, false, not, ◌&&◌, ◌||◌, Option, none, some, List, [], ◌∷◌, length, leb, ◌==◌,
  if◌then◌else◌,
}
use route_forge.Base.Int.{ℤ, pos, pos_part, ltb_ℤ}
use route_forge.Base.Result.{Result, ok, err, ◌>>=◌, ◌>>◌, require}
use route_forge.Base.Text.{codes, same}
use route_forge.Accounting.{Rates}
use route_forge.Accounting.Price.{
  is_empty, no_number, parse_uint, trim_space, parse_usd_per_million,
}
use route_forge.Routing.Policy.{is_positive}
use route_forge.Configuration.{
  Url, Host, ValidationError, must_be_boolean, must_be_positive_integer, must_be_positive_duration,
  must_be_amount, percent_not_integer, session_ttl_invalid, auth_needs_admin, secret_invalid,
  origin_invalid, origin_not_loopback, origin_port_invalid, Flags, AdminAuth, Pricing, Counts,
  Durations, second, minute, getenv, env_or_default, parse_bool, atoi, is_port,
}

abbrev pub is_session_ttl : ℤ → Bool
is_session_ttl ttl =
    not (ltb_ℤ ttl (pos minute))
    && (not (ltb_ℤ (pos (24 * 60 * minute)) ttl) && (pos_part ttl % second == 0))

abbrev pub is_http : Url → Bool
is_http u = same u.scheme (codes "http") || same u.scheme (codes "https")

-- A URL that is only a scheme, a host and possibly a port.
unfoldable pub is_origin : Url → Bool
is_origin u =
    not u.has_user
    && (not (is_empty u.hostname)
        && (is_empty u.path
            && (is_empty u.raw_query && (not u.force_query && (is_empty u.fragment && is_http u)))))

abbrev pub is_secret : List ℕ → Bool
is_secret s = leb 32 (length s) && (leb (length s) 256 && same (trim_space s) s)

parse_price : String → List ℕ → Result ValidationError (Option ℕ)
parse_price key raw =
    if is_empty (trim_space raw) then ok none else elim (parse_usd_per_million raw) [
      | err e ↦ err (must_be_amount key)
      | ok price ↦ ok (some price)
    ]

-- What the loops over the numbers and over the durations take: a value that is read and positive.
abbrev positive : ValidationError → Option ℤ → Result ValidationError ℤ
positive e none = err e
positive e (some n) = if is_positive n then ok n else err e

percent_of : List ℕ → Result ValidationError (Option ℕ)
percent_of [] = ok none
percent_of (c ∷ s) =
    if no_number (c ∷ s) then err percent_not_integer else elim (parse_uint (c ∷ s)) [
      | none ↦ err percent_not_integer
      | some percent ↦ ok (some percent)
    ]

module _ (h : Host) where
  -- One round of the loop over the switches, which are off by default.
  unfoldable pub load_flag : String → Result ValidationError Bool
  load_flag key =
      if is_empty (trim_space (getenv h key))
      then ok false
      else elim (parse_bool (trim_space (getenv h key))) [
        | none ↦ err (must_be_boolean key)
        | some enabled ↦ ok enabled
      ]

  unfoldable pub load_flags : Result ValidationError Flags
  unfolding load_flag
  load_flags = do
    otel ← load_flag "ROUTEFORGE_OTEL_ENABLED"
    metrics ← load_flag "ROUTEFORGE_METRICS_ENABLED"
    postgres ← load_flag "ROUTEFORGE_POSTGRES_ENABLED"
    admin ← load_flag "ROUTEFORGE_ADMIN_ENABLED"
    auth ← load_flag "ROUTEFORGE_ADMIN_AUTH_ENABLED"
    cache ← load_flag "ROUTEFORGE_CACHE_ENABLED"
    ok (record {
      otel_enabled = otel;
      metrics_enabled = metrics;
      postgres_enabled = postgres;
      admin_enabled = admin;
      admin_auth_enabled = auth;
      cache_enabled = cache;
    })

  unfoldable pub load_session_ttl : Result ValidationError ℤ
  load_session_ttl =
      if is_empty (getenv h "ROUTEFORGE_ADMIN_SESSION_TTL")
      then ok (pos (8 * 60 * minute))
      else elim (h.parse_duration (getenv h "ROUTEFORGE_ADMIN_SESSION_TTL")) [
        | none ↦ err session_ttl_invalid
        | some ttl ↦ if is_session_ttl ttl then ok ttl else err session_ttl_invalid
      ]

  abbrev pub is_local : Url → Bool
  is_local u = same u.hostname (codes "localhost") || h.loopback_ip u.hostname

  unfoldable pub check_origin : Option Url → Result ValidationError (Unit {0})
  unfolding is_origin
  check_origin none = err origin_invalid
  check_origin (some u) = do
    require (is_origin u) origin_invalid
    require (not (same u.scheme (codes "http")) || is_local u) origin_not_loopback
    require (is_empty u.port || is_port u.port) origin_port_invalid

  unfoldable pub with_auth : Flags → ℤ → List ℕ → List ℕ → Result ValidationError AdminAuth
  unfolding check_origin
  with_auth flags ttl origin secret = do
    require flags.admin_enabled auth_needs_admin
    require (is_secret secret) secret_invalid
    check_origin (h.parse_url origin)
    ok (record { admin_session_ttl = ttl; admin_origin = origin; admin_secret = secret })

  unfoldable pub auth_of : Flags → ℤ → List ℕ → List ℕ → Result ValidationError AdminAuth
  unfolding with_auth
  auth_of flags ttl origin secret =
      if flags.admin_auth_enabled
      then with_auth flags ttl origin secret
      else ok (record { admin_session_ttl = ttl; admin_origin = origin; admin_secret = [] })

  -- `loadAdminAuth`.
  unfoldable pub load_admin_auth : Flags → Result ValidationError AdminAuth
  unfolding load_session_ttl auth_of
  load_admin_auth flags = do
    ttl ← load_session_ttl
    auth_of flags ttl (env_or_default h "ROUTEFORGE_ADMIN_ORIGIN" (codes "http://127.0.0.1:3001"))
        (getenv h "ROUTEFORGE_ADMIN_SECRET")

  unfoldable pub load_price : String → Result ValidationError (Option ℕ)
  unfolding parse_price
  load_price key = elim (h.lookup_env key) [ none ↦ ok none | some raw ↦ parse_price key raw ]

  unfoldable pub load_pricing : String → String → Result ValidationError Rates
  unfolding load_price
  load_pricing input_key output_key = do
    input ← load_price input_key
    output ← load_price output_key
    ok (record { input_rate = input; output_rate = output })

  unfoldable pub load_prices : Result ValidationError Pricing
  unfolding load_pricing
  load_prices = do
    openai ←
        load_pricing "ROUTEFORGE_PRICE_OPENAI_INPUT_USD_PER_MILLION"
          "ROUTEFORGE_PRICE_OPENAI_OUTPUT_USD_PER_MILLION"
    anthropic ←
        load_pricing "ROUTEFORGE_PRICE_ANTHROPIC_INPUT_USD_PER_MILLION"
          "ROUTEFORGE_PRICE_ANTHROPIC_OUTPUT_USD_PER_MILLION"
    mock ←
        load_pricing "ROUTEFORGE_PRICE_MOCK_INPUT_USD_PER_MILLION"
          "ROUTEFORGE_PRICE_MOCK_OUTPUT_USD_PER_MILLION"
    ok (record { openai_pricing = openai; anthropic_pricing = anthropic; mock_pricing = mock })

  unfoldable pub load_count : String → ℕ → Result ValidationError ℤ
  load_count key default =
      if is_empty (getenv h key)
      then ok (pos default)
      else positive (must_be_positive_integer key) (atoi (getenv h key))

  unfoldable pub load_counts : Result ValidationError Counts
  unfolding load_count
  load_counts = do
    threshold ← load_count "ROUTEFORGE_CIRCUIT_FAILURE_THRESHOLD" 3
    min_samples ← load_count "ROUTEFORGE_ROUTING_MIN_SAMPLES" 5
    interval ← load_count "ROUTEFORGE_ROUTING_EXPLORATION_INTERVAL" 10
    ok (record {
      circuit_failure_threshold = threshold;
      routing_min_samples = min_samples;
      routing_exploration_interval = interval;
    })

  unfoldable pub load_percent : Result ValidationError (Option ℕ)
  unfolding percent_of
  load_percent = elim (h.lookup_env "ROUTEFORGE_ROUTING_MAX_LATENCY_OVER_FASTEST_PERCENT") [
    | none ↦ ok none
    | some raw ↦ percent_of (trim_space raw)
  ]

  unfoldable pub load_duration : String → ℕ → Result ValidationError ℤ
  load_duration key default =
      if is_empty (getenv h key)
      then ok (pos default)
      else positive (must_be_positive_duration key) (h.parse_duration (getenv h key))

  unfoldable pub load_durations : Result ValidationError Durations
  unfolding load_duration
  load_durations = do
    read ← load_duration "ROUTEFORGE_READ_TIMEOUT" (15 * second)
    write ← load_duration "ROUTEFORGE_WRITE_TIMEOUT" (30 * second)
    idle ← load_duration "ROUTEFORGE_IDLE_TIMEOUT" (60 * second)
    shutdown ← load_duration "ROUTEFORGE_SHUTDOWN_TIMEOUT" (10 * second)
    provider ← load_duration "ROUTEFORGE_PROVIDER_TIMEOUT" (30 * second)
    stream_idle ← load_duration "ROUTEFORGE_STREAM_IDLE_TIMEOUT" (30 * second)
    open_duration ← load_duration "ROUTEFORGE_CIRCUIT_OPEN_DURATION" (30 * second)
    max_age ← load_duration "ROUTEFORGE_ROUTING_SAMPLE_MAX_AGE" (5 * minute)
    ttl ← load_duration "ROUTEFORGE_CACHE_TTL" (5 * minute)
    ok (record {
      read_timeout = read;
      write_timeout = write;
      idle_timeout = idle;
      shutdown_timeout = shutdown;
      provider_timeout = provider;
      stream_idle_timeout = stream_idle;
      circuit_open_duration = open_duration;
      routing_sample_max_age = max_age;
      cache_ttl = ttl;
    })
