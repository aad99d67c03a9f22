-- ===== src/Configuration/Checks.antt =====
-- internal/config/config.go and internal/cache/config.go: the checks at the end of `Load`.
use route_forge.Base.{
  ℕ, Bool, true, false, not, ◌&&◌, ◌||◌, Option, none, some, List, [], ◌∷◌, leb, ◌==◌,
  if◌then◌else◌,
}
use route_forge.Base.Int.{ℤ, pos, ltb_ℤ}
use route_forge.Base.Result.{Result, ok, err, ◌>>◌, require}
use route_forge.Base.Text.{codes, same}
use route_forge.Accounting.Price.{is_empty, parse_uint, trim_space}
use route_forge.Configuration.{
  Url, Host, ValidationError, cache_ttl_too_short, redis_url_required, otlp_endpoint_required,
  otlp_endpoint_invalid, admin_needs_postgres, admin_addr_invalid, admin_port_invalid,
  metrics_addr_required, metrics_addr_invalid, metrics_port_invalid, database_url_required,
  database_url_invalid, percent_missing, policy_unknown, openai_key_required,
  anthropic_key_required, provider_key_required, openai_model_required, anthropic_model_required,
  provider_unknown, Config, millisecond, atoi, is_port,
}
use route_forge.Configuration.Stages.{is_http}

abbrev pub Check : Type 0
Check = Result ValidationError (Unit {0})

-- `if condition { ... }` around a check.
abbrev pub when : Bool → Check → Check
when condition check = elim condition [ true ↦ check | false ↦ ok tt ]

-- `number < 1 || number > 65535` of a port of a Redis URL.
abbrev pub is_redis_port : Option ℤ → Bool
is_redis_port none = false
is_redis_port (some n) = not (ltb_ℤ n (pos 1)) && not (ltb_ℤ (pos 65535) n)

-- `strconv.ParseUint(database, 10, 31)`.
abbrev pub is_redis_database : Option ℕ → Bool
is_redis_database none = false
is_redis_database (some n) = leb n 2147483647

-- `strings.TrimPrefix(path, "/")`.
abbrev pub trim_slash : List ℕ → List ℕ
trim_slash [] = []
trim_slash (c ∷ s) = if c == b'/' then s else c ∷ s

-- `cache.ValidateURL`.
unfoldable pub is_redis_url : Option Url → Bool
is_redis_url none = false
is_redis_url (some u) =
    (same u.scheme (codes "redis") || same u.scheme (codes "rediss"))
    && (not (is_empty u.hostname)
        && (is_empty u.raw_query
            && (not u.force_query
                && (is_empty u.fragment
                    && ((is_empty u.port || is_redis_port (atoi u.port))
                        && (is_empty (trim_slash u.path)
                            || is_redis_database (parse_uint (trim_slash u.path))))))))

abbrev pub no_split : Option (List ℕ × List ℕ) → Bool
no_split none = true
no_split (some (host, port)) = false

abbrev pub split_host : Option (List ℕ × List ℕ) → List ℕ
split_host none = []
split_host (some (host, port)) = host

abbrev pub split_port : Option (List ℕ × List ℕ) → List ℕ
split_port none = []
split_port (some (host, port)) = port

unfoldable pub is_otlp_endpoint : Option Url → Bool
is_otlp_endpoint none = false
is_otlp_endpoint (some u) =
    not (is_empty u.host)
    && (not u.has_user && (is_http u && (is_empty u.raw_query && is_empty u.fragment)))

unfoldable pub is_database_url : Option Url → Bool
is_database_url none = false
is_database_url (some u) =
    (same u.scheme (codes "postgres") || same u.scheme (codes "postgresql"))
    && not (is_empty u.hostname)

abbrev pub is_none : Option ℕ → Bool
is_none none = true
is_none (some n) = false

module _ (h : Host) where
  unfoldable pub check_cache : Config → Check
  unfolding is_redis_url
  check_cache c = do
    require (not (ltb_ℤ c.durations.cache_ttl (pos millisecond))) cache_ttl_too_short
    require (not c.flags.cache_enabled || is_redis_url (h.parse_url c.redis_url)) redis_url_required

  -- `validateOTLPEndpoint`.
  unfoldable pub validate_otlp_endpoint : List ℕ → Check
  unfolding is_otlp_endpoint
  validate_otlp_endpoint endpoint = do
    require (not (is_empty endpoint)) otlp_endpoint_required
    require (is_otlp_endpoint (h.parse_url endpoint)) otlp_endpoint_invalid

  unfoldable pub check_admin : Config → Check
  check_admin c = do
    require c.flags.postgres_enabled admin_needs_postgres
    require (not (is_empty (split_host (h.split_host_port c.admin_addr)))) admin_addr_invalid
    require (is_port (split_port (h.split_host_port c.admin_addr))) admin_port_invalid

  -- `validateMetricsAddr`.
  unfoldable pub validate_metrics_addr : List ℕ → Check
  validate_metrics_addr address = do
    require (not (is_empty address)) metrics_addr_required
    require (not (no_split (h.split_host_port address))) metrics_addr_invalid
    require (is_port (split_port (h.split_host_port address))) metrics_port_invalid

  unfoldable pub check_database : Config → Check
  unfolding is_database_url
  check_database c = do
    require (not (is_empty c.database_url)) database_url_required
    require (is_database_url (h.parse_url c.database_url)) database_url_invalid

unfoldable pub check_policy : Config → Check
check_policy c =
    if same c.routing_policy (codes "deterministic")
      || (same c.routing_policy (codes "latency") || same c.routing_policy (codes "cost"))
    then ok tt
    else if same c.routing_policy (codes "cost_latency")
    then require (not (is_none c.max_latency_percent)) percent_missing
    else err policy_unknown

abbrev pub has_key : List ℕ → Bool
has_key key = not (is_empty (trim_space key))

unfoldable pub check_auto : Config → Check
check_auto c = do
  require (has_key c.openai_api_key || has_key c.anthropic_api_key) provider_key_required
  require (not (has_key c.openai_api_key) || not (is_empty c.general_openai_model))
      openai_model_required
  require (not (has_key c.anthropic_api_key) || not (is_empty c.general_anthropic_model))
      anthropic_model_required

unfoldable pub check_provider : Config → Check
unfolding check_auto
check_provider c =
    if same c.provider (codes "mock")
    then ok tt
    else if same c.provider (codes "openai")
    then require (has_key c.openai_api_key) openai_key_required
    else if same c.provider (codes "anthropic")
    then require (has_key c.anthropic_api_key) anthropic_key_required
    else if same c.provider (codes "auto")
    then check_auto c
    else err provider_unknown
