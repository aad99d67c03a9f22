-- ===== src/Tests/Startups.antt =====
-- internal/config and cmd/routeforge: a configuration, and the service that it gives.
use route_forge.Base.{
  ℕ, ◌-◌, ◌*◌, ◌^◌, ◌≡◌, refl, true, false, Option, none, some, List, [], ◌∷◌, length, take,
}
use route_forge.Base.Dict.{lookup, text_eq}
use route_forge.Base.Int.{ℤ, pos}
use route_forge.Base.Result.{err}
use route_forge.Base.Text.{codes, same}
use route_forge.Accounting.Price.{parse_uint, trim_space}
use route_forge.Configuration.{Url, Host, must_be_boolean, Config, getenv, parse_bool}
use route_forge.Configuration.Load.{load, config_of}

-- An automatic gateway with persistence, and an administration behind a login.
abbrev variables : List (List ℕ × List ℕ)
variables =
    (codes "ROUTEFORGE_PROVIDER", codes " Auto")
    ∷ (codes "OPENAI_API_KEY", codes "key")
    ∷ (codes "ROUTEFORGE_MODEL_GENERAL_OPENAI", codes "gpt")
    ∷ (codes "ROUTEFORGE_ROUTING_POLICY", codes "cost_latency")
    ∷ (codes "ROUTEFORGE_ROUTING_MAX_LATENCY_OVER_FASTEST_PERCENT", codes "20")
    ∷ (codes "ROUTEFORGE_PRICE_OPENAI_INPUT_USD_PER_MILLION", codes "0.15")
    ∷ (codes "ROUTEFORGE_PROVIDER_TIMEOUT", codes "90s")
    ∷ (codes "ROUTEFORGE_POSTGRES_ENABLED", codes "true")
    ∷ (codes "ROUTEFORGE_DATABASE_URL", codes "postgres://db/history")
    ∷ (codes "ROUTEFORGE_ADMIN_ENABLED", codes "1")
    ∷ (codes "ROUTEFORGE_ADMIN_AUTH_ENABLED", codes "TRUE")
    ∷ (codes "ROUTEFORGE_ADMIN_SECRET", codes "0123456789abcdef0123456789abcdef")
    ∷ []

abbrev url : List ℕ → List ℕ → List ℕ → Url
url scheme host path = record {
  scheme = scheme;
  has_user = false;
  host = host;
  hostname = host;
  port = [];
  path = path;
  raw_query = [];
  force_query = false;
  fragment = [];
}

abbrev seconds : Option ℕ → Option ℤ
seconds none = none
seconds (some n) = some (pos (n * 10 ^ 9))

abbrev urls : List (List ℕ × Url)
urls =
    (codes "postgres://db/history", url (codes "postgres") (codes "db") (codes "/history"))
    ∷ (codes "http://127.0.0.1:3001", url (codes "http") (codes "127.0.0.1") [])
    ∷ []

-- A host that reads whole seconds, and the URLs and the address that the example uses.
abbrev host : List (List ℕ × List ℕ) → Host
unfolding lookup parse_uint
host env = record {
  lookup_env = λ key. lookup (codes key) env;
  parse_duration = λ s. seconds (parse_uint (take (length s - 1) s));
  parse_url = λ s. lookup s urls;
  split_host_port =
      λ s. lookup s ((codes "127.0.0.1:8081", (codes "127.0.0.1", codes "8081")) ∷ []);
  loopback_ip = λ s. same s (codes "127.0.0.1");
}

-- The configuration that they make.
abbrev the : Config
unfolding config_of
the =
    config_of (host variables)
      (record {
        otel_enabled = false;
        metrics_enabled = false;
        postgres_enabled = true;
        admin_enabled = true;
        admin_auth_enabled = true;
        cache_enabled = false;
      })
      (record {
        admin_session_ttl = pos (8 * 3600 * 10 ^ 9);
        admin_origin = codes "http://127.0.0.1:3001";
        admin_secret = codes "0123456789abcdef0123456789abcdef";
      })
      (record {
        openai_pricing = record { input_rate = some 150000; output_rate = none };
        anthropic_pricing = record { input_rate = none; output_rate = none };
        mock_pricing = record { input_rate = none; output_rate = none };
      })
      (record {
        circuit_failure_threshold = pos 3;
        routing_min_samples = pos 5;
        routing_exploration_interval = pos 10;
      })
      (some 20)
      (record {
        read_timeout = pos (15 * 10 ^ 9);
        write_timeout = pos (30 * 10 ^ 9);
        idle_timeout = pos (60 * 10 ^ 9);
        shutdown_timeout = pos (10 * 10 ^ 9);
        provider_timeout = pos (90 * 10 ^ 9);
        stream_idle_timeout = pos (30 * 10 ^ 9);
        circuit_open_duration = pos (30 * 10 ^ 9);
        routing_sample_max_age = pos (300 * 10 ^ 9);
        cache_ttl = pos (300 * 10 ^ 9);
      })

-- A switch that is neither true nor false.
refused :
    load (host ((codes "ROUTEFORGE_CACHE_ENABLED", codes "on") ∷ []))
    ≡ err (must_be_boolean "ROUTEFORGE_CACHE_ENABLED")
unfolding load host trim_space getenv parse_bool
refused = refl
