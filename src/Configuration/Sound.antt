-- ===== src/Configuration/Sound.antt =====
-- internal/config/config.go: a configuration that `Load` returns satisfies what the program relies on.
use route_forge.Base.{◌^◌, ◌≤◌, ◌≡◌, ◌⊎◌, true, false, Option, some}
use route_forge.Base.Int.{pos_part}
use route_forge.Accounting.Price.{is_empty}
use route_forge.Configuration.{Url, Host, Config}
use route_forge.Configuration.Checks.{is_database_url, is_redis_url}
use route_forge.Configuration.Valid.{PositiveCounts, PositiveDurations, SessionTtl, Guarded}
use route_forge.Configuration.Origins.{IsWeb}
use route_forge.Configuration.Settings.{HasPort, KnownPolicy, KnownProvider}

-- An endpoint of OpenTelemetry: a URL of the web with a host and without a user, a query or a fragment.
abbrev pub IsOtlp : Option Url → Type 0
IsOtlp o =
    (u : Url) × (o ≡ some u)
    × IsWeb u
    × (is_empty u.host ≡ false)
    × (u.has_user ≡ false)
    × (is_empty u.raw_query ≡ true)
    × (is_empty u.fragment ≡ true)

-- What the checks promise of a configuration.
pub record IsValid (h : Host) (c : Config) : Type 0 where
  pub addr : is_empty c.addr ≡ false
  pub otlp : (c.flags.otel_enabled ≡ false) ⊎ IsOtlp (h.parse_url c.otlp_endpoint)
  pub counts : PositiveCounts c.counts
  pub durations : PositiveDurations c.durations
  pub cache_ttl : 10 ^ 6 ≤ pos_part c.durations.cache_ttl
  pub session : SessionTtl c.auth.admin_session_ttl
  pub authentication : (c.flags.admin_auth_enabled ≡ false) ⊎ Guarded h c.flags c.auth
  pub admin :
      (c.flags.admin_enabled ≡ false) ⊎ ((c.flags.postgres_enabled ≡ true) × HasPort h c.admin_addr)
  pub metrics : (c.flags.metrics_enabled ≡ false) ⊎ HasPort h c.metrics_addr
  pub database :
      (c.flags.postgres_enabled ≡ false) ⊎ (is_database_url (h.parse_url c.database_url) ≡ true)
  pub cache : (c.flags.cache_enabled ≡ false) ⊎ (is_redis_url (h.parse_url c.redis_url) ≡ true)
  pub named : is_empty c.routing_policy ≡ false
  pub policy : KnownPolicy c.routing_policy c.max_latency_percent
  pub provider : KnownProvider c
