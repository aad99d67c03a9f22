-- ===== src/Configuration/Load.antt =====
-- internal/config/config.go: `Load`, and what a configuration that it returns satisfies.
use route_forge.Base.{ℕ, not, Option}
use route_forge.Base.Result.{Result, ok, ◌>>=◌, ◌>>◌, require}
use route_forge.Base.Text.{codes}
use route_forge.Accounting.Price.{is_empty, trim_space}
use route_forge.Configuration.{
  Host, ValidationError, addr_required, Flags, AdminAuth, Pricing, Counts, Durations, Config,
  getenv, env_or_default, to_lower, lower,
}
use route_forge.Configuration.Stages.{
  load_flags, load_admin_auth, load_prices, load_counts, load_percent, load_durations,
}
use route_forge.Configuration.Checks.{
  Check, when, check_cache, validate_otlp_endpoint, check_admin, validate_metrics_addr,
  check_database, check_policy, check_provider,
}

module _ (h : Host) where
  -- The texts of the configuration, with the values of the other stages.
  unfoldable pub config_of : Flags → AdminAuth → Pricing → Counts → Option ℕ → Durations → Config
  unfolding lower
  config_of flags auth pricing counts percent durations = record {
    addr = env_or_default h "ROUTEFORGE_ADDR" (codes "127.0.0.1:8080");
    routing_policy =
        to_lower
          (trim_space (env_or_default h "ROUTEFORGE_ROUTING_POLICY" (codes "deterministic")));
    provider = to_lower (trim_space (env_or_default h "ROUTEFORGE_PROVIDER" (codes "mock")));
    openai_api_key = getenv h "OPENAI_API_KEY";
    anthropic_api_key = getenv h "ANTHROPIC_API_KEY";
    general_openai_model = trim_space (getenv h "ROUTEFORGE_MODEL_GENERAL_OPENAI");
    general_anthropic_model = trim_space (getenv h "ROUTEFORGE_MODEL_GENERAL_ANTHROPIC");
    otlp_endpoint = trim_space (getenv h "ROUTEFORGE_OTEL_EXPORTER_OTLP_ENDPOINT");
    metrics_addr = trim_space (env_or_default h "ROUTEFORGE_METRICS_ADDR" (codes "127.0.0.1:9090"));
    database_url = trim_space (getenv h "ROUTEFORGE_DATABASE_URL");
    admin_addr = trim_space (env_or_default h "ROUTEFORGE_ADMIN_ADDR" (codes "127.0.0.1:8081"));
    redis_url = trim_space (getenv h "ROUTEFORGE_REDIS_URL");
    flags = flags;
    auth = auth;
    pricing = pricing;
    counts = counts;
    max_latency_percent = percent;
    durations = durations;
  }

  -- The checks, in the order of `Load`.
  unfoldable pub validate : Config → Check
  unfolding check_cache validate_otlp_endpoint check_admin validate_metrics_addr check_database
      check_policy check_provider
  validate c = do
    check_cache h c
    require (not (is_empty c.addr)) addr_required
    when c.flags.otel_enabled (validate_otlp_endpoint h c.otlp_endpoint)
    when c.flags.admin_enabled (check_admin h c)
    when c.flags.metrics_enabled (validate_metrics_addr h c.metrics_addr)
    when c.flags.postgres_enabled (check_database h c)
    check_policy c
    check_provider c

  -- `Load`: the stages in their order, then the checks.
  unfoldable pub load : Result ValidationError Config
  unfolding load_flags load_admin_auth load_prices load_counts load_percent load_durations config_of
      validate
  load = do
    flags ← load_flags h
    auth ← load_admin_auth h flags
    pricing ← load_prices h
    counts ← load_counts h
    percent ← load_percent h
    durations ← load_durations h
    validate (config_of flags auth pricing counts percent durations)
    ok (config_of flags auth pricing counts percent durations)
