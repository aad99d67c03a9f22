-- ===== src/Configuration.antt =====
-- internal/config: the configuration, and how the program reads one value of it from the environment.
-- `Host` holds what it asks of the outside: the environment, and the parsers of durations, URLs and
-- addresses of Go's library. `strings.ToLower` is modelled on ASCII text.
pub mod Stages
pub mod Checks
pub mod Load
pub mod Ports
pub mod Origins
pub mod Valid
pub mod Settings
pub mod Sound
use Prim.Native.String.{String}
use route_forge.Base.{
  ℕ, ◌+◌, ◌-◌, ◌^◌, ◌*◌, Bool, true, false, not, ◌&&◌, ◌||◌, Option, none, some, List, [], ◌∷◌, map,
  leb, ltb, ◌==◌, if◌then◌else◌,
}
use route_forge.Base.Int.{ℤ, pos, ◌-ℤ◌}
use route_forge.Base.Text.{codes, same}
use route_forge.Accounting.{Rates}
use route_forge.Accounting.Price.{is_empty, parse_uint}

-- `url.URL`, with the results of its methods `Hostname` and `Port`.
pub record Url : Type 0 where
  pub scheme : List ℕ
  pub has_user : Bool
  pub host : List ℕ
  pub hostname : List ℕ
  pub port : List ℕ
  pub path : List ℕ
  pub raw_query : List ℕ
  pub force_query : Bool
  pub fragment : List ℕ

-- `loopback_ip` is whether `net.ParseIP` reads an address and `IsLoopback` holds of it.
pub record Host : Type 0 where
  pub lookup_env : String → Option (List ℕ)
  pub parse_duration : List ℕ → Option ℤ
  pub parse_url : List ℕ → Option Url
  pub split_host_port : List ℕ → Option (List ℕ × List ℕ)
  pub loopback_ip : List ℕ → Bool

-- `ValidationError`: a constructor for each message, with the variable that some of them name.
pub data ValidationError : Type 0 where
  must_be_boolean must_be_positive_integer must_be_positive_duration : String → ValidationError
  must_be_amount : String → ValidationError
  percent_not_integer cache_ttl_too_short redis_url_required addr_required : ValidationError
  otlp_endpoint_required otlp_endpoint_invalid : ValidationError
  admin_needs_postgres admin_addr_invalid admin_port_invalid : ValidationError
  metrics_addr_required metrics_addr_invalid metrics_port_invalid : ValidationError
  database_url_required database_url_invalid : ValidationError
  percent_missing policy_unknown : ValidationError
  openai_key_required anthropic_key_required provider_key_required : ValidationError
  openai_model_required anthropic_model_required provider_unknown : ValidationError
  session_ttl_invalid auth_needs_admin secret_invalid : ValidationError
  origin_invalid origin_not_loopback origin_port_invalid : ValidationError

-- The fields of `Config` that the loops and helpers of `Load` set together.
pub record Flags : Type 0 where
  pub otel_enabled : Bool
  pub metrics_enabled : Bool
  pub postgres_enabled : Bool
  pub admin_enabled : Bool
  pub admin_auth_enabled : Bool
  pub cache_enabled : Bool

pub record AdminAuth : Type 0 where
  pub admin_session_ttl : ℤ
  pub admin_origin : List ℕ
  pub admin_secret : List ℕ

pub record Pricing : Type 0 where
  pub openai_pricing : Rates
  pub anthropic_pricing : Rates
  pub mock_pricing : Rates

pub record Counts : Type 0 where
  pub circuit_failure_threshold : ℤ
  pub routing_min_samples : ℤ
  pub routing_exploration_interval : ℤ

pub record Durations : Type 0 where
  pub read_timeout : ℤ
  pub write_timeout : ℤ
  pub idle_timeout : ℤ
  pub shutdown_timeout : ℤ
  pub provider_timeout : ℤ
  pub stream_idle_timeout : ℤ
  pub circuit_open_duration : ℤ
  pub routing_sample_max_age : ℤ
  pub cache_ttl : ℤ

pub record Config : Type 0 where
  pub addr : List ℕ
  pub routing_policy : List ℕ
  pub provider : List ℕ
  pub openai_api_key : List ℕ
  pub anthropic_api_key : List ℕ
  pub general_openai_model : List ℕ
  pub general_anthropic_model : List ℕ
  pub otlp_endpoint : List ℕ
  pub metrics_addr : List ℕ
  pub database_url : List ℕ
  pub admin_addr : List ℕ
  pub redis_url : List ℕ
  pub flags : Flags
  pub auth : AdminAuth
  pub pricing : Pricing
  pub counts : Counts
  pub max_latency_percent : Option ℕ
  pub durations : Durations

abbrev pub millisecond : ℕ
millisecond = 10 ^ 6

abbrev pub second : ℕ
second = 10 ^ 9

abbrev pub minute : ℕ
minute = 60 * second

unfoldable pub getenv : Host → String → List ℕ
getenv h key = elim (h.lookup_env key) [ none ↦ [] | some value ↦ value ]

unfoldable pub env_or_default : Host → String → List ℕ → List ℕ
env_or_default h key fallback = elim (h.lookup_env key) [ none ↦ fallback | some value ↦ value ]

unfoldable pub lower : ℕ → ℕ
lower c = if leb b'A' c && leb c b'Z' then c + 32 else c

abbrev pub to_lower : List ℕ → List ℕ
unfolding lower
to_lower s = map lower s

-- `strconv.ParseBool`.
unfoldable pub parse_bool : List ℕ → Option Bool
parse_bool s =
    if same s (codes "1")
      || (same s (codes "t")
          || (same s (codes "T")
              || (same s (codes "TRUE") || (same s (codes "true") || same s (codes "True")))))
    then some true
    else if same s (codes "0")
        || (same s (codes "f")
            || (same s (codes "F")
                || (same s (codes "FALSE") || (same s (codes "false") || same s (codes "False")))))
    then some false
    else none

in_int_range : ℕ → (ℕ → ℤ) → Option ℕ → Option ℤ
in_int_range most sign none = none
in_int_range most sign (some n) = if leb n most then some (sign n) else none

-- `strconv.Atoi`.
unfoldable pub atoi : List ℕ → Option ℤ
unfolding in_int_range
atoi [] = none
atoi (c ∷ s) =
    if c == b'-'
    then in_int_range (2 ^ 63) (λ n. pos 0 -ℤ pos n) (parse_uint s)
    else if c == b'+'
    then in_int_range (2 ^ 63 - 1) pos (parse_uint s)
    else in_int_range (2 ^ 63 - 1) pos (parse_uint (c ∷ s))

-- `strconv.ParseUint(port, 10, 16)`, and that it gives a port other than 0.
unfoldable pub parse_port : List ℕ → Option ℕ
parse_port s = elim (parse_uint s) [ none ↦ none | some n ↦ if leb n 65535 then some n else none ]

unfoldable pub is_port : List ℕ → Bool
unfolding parse_port
is_port s = elim (parse_port s) [ none ↦ false | some n ↦ not (n == 0) ]
