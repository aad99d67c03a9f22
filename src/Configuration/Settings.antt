-- ===== src/Configuration/Settings.antt =====
-- internal/config/config.go: the addresses, the policies and the providers that the checks let
-- through.
use mathlib.Core.Path.{subst}
use mathlib.Core.Bool.{false≢true}
use route_forge.Base.{
  ℕ, ◌≤◌, ◌≡◌, refl, ◌⊎◌, inl, inr, ◌||◌, true, false, not, Option, some, List, [], ◌∷◌, arith,
  Option-cases,
}
use route_forge.Base.Result.{ok}
use route_forge.Base.Text.{codes, same}
use route_forge.Accounting.Price.{is_empty, parse_uint}
use route_forge.Routing.Policy.{
  policy_name, named_deterministic, named_latency, named_cost, named_cost_latency,
}
use route_forge.Configuration.{Host, Config, parse_port, is_port}
use route_forge.Configuration.Checks.{
  split_port, is_none, has_key, check_auto, check_policy, check_provider,
}
use route_forge.Configuration.Ports.{is_port_lem}

-- An address with a port that a listener can use.
abbrev pub HasPort : Host → List ℕ → Type 0
HasPort h address =
    (host : List ℕ) × (port : List ℕ) × (n : ℕ) × (h.split_host_port address ≡ some (host, port))
    × (parse_port port ≡ some n)
    × (1 ≤ n)
    × (n ≤ 65535)

pair-HasPort :
    (h : Host) (address : List ℕ) (host port : List ℕ)
    → h.split_host_port address ≡ some (host, port)
    → is_port port ≡ true
    → HasPort h address
pair-HasPort h address host port p e =
    let (n, parsed, low, high) = is_port_lem port e in (host, port, n, p, parsed, low, high)

pub split-HasPort :
    (h : Host) (address : List ℕ)
    → is_port (split_port (h.split_host_port address)) ≡ true
    → HasPort h address
unfolding is_port parse_port parse_uint
split-HasPort h address e = elim (Option-cases (h.split_host_port address)) [
  | inl n ↦ absurd (false≢true (subst (λ o. is_port (split_port o) ≡ true) n e))
  | inr (pair, p) ↦
      pair-HasPort h address pair.0 pair.1 p (subst (λ o. is_port (split_port o) ≡ true) p e)
]

-- A routing policy that the gateway knows, with the percentage that it needs.
abbrev pub KnownPolicy : List ℕ → Option ℕ → Type 0
KnownPolicy name percent =
    (policy_name name ≡ named_deterministic)
    ⊎ (policy_name name ≡ named_latency)
    ⊎ (policy_name name ≡ named_cost)
    ⊎ ((policy_name name ≡ named_cost_latency) × (is_none percent ≡ false))

pub check_policy-KnownPolicy :
    (c : Config) → check_policy c ≡ ok tt → KnownPolicy c.routing_policy c.max_latency_percent
unfolding check_policy policy_name
check_policy-KnownPolicy c e = ground arith

named-not-empty :
    (s word : List ℕ) → is_empty word ≡ false → same s word ≡ true → is_empty s ≡ false
named-not-empty [] [] w e = w
named-not-empty [] (b ∷ word) w e = cc
named-not-empty (a ∷ s) word w e = refl

pub check_policy-named : (c : Config) → check_policy c ≡ ok tt → is_empty c.routing_policy ≡ false
unfolding check_policy
check_policy-named c e = ground (
  arith,
  named-not-empty c.routing_policy (codes "deterministic") refl,
  named-not-empty c.routing_policy (codes "latency") refl,
  named-not-empty c.routing_policy (codes "cost") refl,
  named-not-empty c.routing_policy (codes "cost_latency") refl,
)

-- A provider that the program can build, with the key and the models that it needs.
abbrev pub KnownProvider : Config → Type 0
KnownProvider c =
    (same c.provider (codes "mock") ≡ true)
    ⊎ ((same c.provider (codes "openai") ≡ true) × (has_key c.openai_api_key ≡ true))
    ⊎ ((same c.provider (codes "anthropic") ≡ true) × (has_key c.anthropic_api_key ≡ true))
    ⊎ ((same c.provider (codes "auto") ≡ true)
        × ((has_key c.openai_api_key || has_key c.anthropic_api_key) ≡ true)
        × ((not (has_key c.openai_api_key) || not (is_empty c.general_openai_model)) ≡ true)
        × ((not (has_key c.anthropic_api_key) || not (is_empty c.general_anthropic_model)) ≡ true))

pub check_provider-KnownProvider : (c : Config) → check_provider c ≡ ok tt → KnownProvider c
unfolding check_provider check_auto
check_provider-KnownProvider c e = ground arith
