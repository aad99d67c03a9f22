-- ===== src/Runtime/Settings.antt =====
-- internal/gateway/runtime_routing.go: what an update of the settings does.
use route_forge.Base.{
  ℕ, ◌≤◌, ◌≡◌, refl, ◌⊎◌, inl, inr, Bool, true, false, ◌||◌, Option, none, some, List, arith,
  Bool-cases,
}
use route_forge.Base.Int.{ℤ, pos, ◌≤ℤ◌, ltb_ℤ}
use route_forge.Base.Text.{codes, same, same→eq}
use route_forge.Base.Result.{Result, ok, err}
use route_forge.Routing.Policy.{RoutingPolicy, ConfigError, new_routing_policy}
use route_forge.Runtime.{
  RoutingSettings, RuntimeRouting, SettingsError, invalid_settings, invalid_policy,
  percent_too_large, is_policy, updated, publish, publish_update, update_routing_settings,
  routing_settings,
}

-- The current policy is the one that its configuration describes.
abbrev pub IsConsistent : RuntimeRouting → Type 0
IsConsistent r =
    new_routing_policy r.current.config ≡ ok (r.current.policy, r.current.rank_eligible)

-- Settings in bounds: the interval and the percentage are at most a million, and the policy is known.
abbrev pub Permitted : RoutingSettings → Type 0
Permitted settings =
    (pos 1 ≤ℤ settings.exploration_interval)
    × (settings.exploration_interval ≤ℤ pos 1000000)
    × ((percent : ℕ) → settings.max_latency_over_fastest_percent ≡ some percent → percent ≤ 1000000)
    × ((settings.policy ≡ codes "deterministic")
        ⊎ (settings.policy ≡ codes "latency")
        ⊎ (settings.policy ≡ codes "cost")
        ⊎ (settings.policy ≡ codes "cost_latency"))

-- The settings are read back as they were written, and the rest of the configuration stays.
abbrev pub IsPublished : RoutingSettings → RuntimeRouting → RuntimeRouting → Type 0
IsPublished settings before after =
    (routing_settings after ≡ settings)
    × (after.current.config.min_samples ≡ before.current.config.min_samples)
    × (after.current.config.sample_max_age ≡ before.current.config.sample_max_age)
    × (after.exploration ≡ before.exploration)
    × IsConsistent after

-- The settings have no policy with the thresholds of the gateway.
abbrev pub HasNoPolicy : RoutingSettings → RuntimeRouting → Type 0
HasNoPolicy settings r =
    (e : ConfigError) × (new_routing_policy (record {
      policy = settings.policy;
      min_samples = r.current.config.min_samples;
      sample_max_age = r.current.config.sample_max_age;
      exploration_interval = settings.exploration_interval;
      max_latency_over_fastest_percent = settings.max_latency_over_fastest_percent;
    })
      ≡ err e)

-- What an update may come to.
abbrev pub Outcome :
    RoutingSettings
    → RuntimeRouting
    → RuntimeRouting × Result SettingsError RoutingSettings
    → Type 0
Outcome settings r result =
    ((result ≡ (r, err invalid_settings)) × ((¬ Permitted settings) ⊎ HasNoPolicy settings r))
    ⊎ ((result ≡ (r, err invalid_policy)) × (¬ Permitted settings))
    ⊎ ((result.1 ≡ ok settings) × Permitted settings × IsPublished settings r result.0)

abbrev Bounded : ℤ → Option ℕ → Type 0
Bounded n percent = (pos 1 ≤ℤ n) × (n ≤ℤ pos 1000000) × ((p : ℕ) → percent ≡ some p → p ≤ 1000000)

abbrev exceeds : ℤ → Option ℕ → Bool
exceeds n percent = ltb_ℤ n (pos 1) || (ltb_ℤ (pos 1000000) n || percent_too_large percent)

exceeds-Bounded : (n : ℤ) (percent : Option ℕ) → exceeds n percent ≡ false → Bounded n percent
exceeds-Bounded n none h = (ground arith, ground arith, λ p e. cc)
exceeds-Bounded n (some m) h = (ground arith, ground arith, λ p e. ground arith)

Bounded-exceeds : (n : ℤ) (percent : Option ℕ) → Bounded n percent → exceeds n percent ≡ false
Bounded-exceeds n none b = ground arith
Bounded-exceeds n (some m) b = ground (arith, b.2 m refl)

abbrev Named : List ℕ → Type 0
Named s =
    (s ≡ codes "deterministic")
    ⊎ (s ≡ codes "latency")
    ⊎ (s ≡ codes "cost")
    ⊎ (s ≡ codes "cost_latency")

is_policy-Named : (s : List ℕ) → is_policy s ≡ true → Named s
is_policy-Named s h = elim (Bool-cases (same s (codes "deterministic"))) [
  | inl a ↦ inl (same→eq s _ a)
  | inr a ↦ elim (Bool-cases (same s (codes "latency"))) [
    | inl b ↦ inr (inl (same→eq s _ b))
    | inr b ↦ elim (Bool-cases (same s (codes "cost"))) [
      | inl d ↦ inr (inr (inl (same→eq s _ d)))
      | inr d ↦ inr (inr (inr (same→eq s _ (ground arith))))
    ]
  ]
]

Named-is_policy : (s : List ℕ) → Named s → is_policy s ≡ true
Named-is_policy s h = elim h [
  | inl e ↦ rw e refl
  | inr (inl e) ↦ rw e refl
  | inr (inr (inl e)) ↦ rw e refl
  | inr (inr (inr e)) ↦ rw e refl
]

Permitted-parts :
    (settings : RoutingSettings)
    → Bounded settings.exploration_interval settings.max_latency_over_fastest_percent
    → Named settings.policy
    → Permitted settings
Permitted-parts settings (low, high, percent) named = (low, high, percent, named)

publish_update_lem :
    (settings : RoutingSettings) (r : RuntimeRouting)
    (p : Result ConfigError (RoutingPolicy × Bool))
    → new_routing_policy (updated settings r.current.config) ≡ p
    → Permitted settings
    → Outcome settings r (publish_update settings r p)
unfolding publish_update publish routing_settings
publish_update_lem settings r (err e) h permitted = inl (refl, inr (e, h))
publish_update_lem settings r (ok p) h permitted =
    inr (inr (refl, permitted, (refl, refl, refl, refl, h)))

-- An update of the settings fails and changes nothing, if they are not permitted or have no policy with
-- the thresholds of the gateway; or they are permitted, and it returns the settings as given: then they
-- are read back, the two thresholds of the configuration and the exploration counts stay, and the policy
-- is the one that the new configuration describes.
pub update_routing_settings_lem :
    (settings : RoutingSettings) (r : RuntimeRouting)
    → Outcome settings r (update_routing_settings settings r)
unfolding update_routing_settings
update_routing_settings_lem settings r =
    let n = settings.exploration_interval in
    let percent = settings.max_latency_over_fastest_percent in
    elim (Bool-cases (exceeds n percent)) [
      | inl b ↦ inl (
        rw b refl,
        inl (λ p.
            let bounded : Bounded n percent = (p.0, p.1, p.2) in
            let within = Bounded-exceeds n percent bounded in cc),
      )
      | inr b ↦ elim (Bool-cases (is_policy settings.policy)) [
        | inl q ↦
            rw (b, q)
              (publish_update_lem settings r
                (new_routing_policy (updated settings r.current.config)) refl
                (Permitted-parts settings (exceeds-Bounded n percent b)
                  (is_policy-Named settings.policy q)))
        | inr q ↦
            inr (inl (rw (b, q) refl, λ p. let named = Named-is_policy settings.policy p.3 in cc))
      ]
    ]
