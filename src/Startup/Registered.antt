-- ===== src/Startup/Registered.antt =====
-- internal/provider/registry.go: what the registry holds for a configuration.
use route_forge.Base.{
  ℕ, ◌≡◌, refl, Bool, true, false, ◌||◌, some, List, [], ◌∷◌, ◌++◌, if◌then◌else◌,
}
use route_forge.Base.Dict.{lookup, insert, text_eq}
use route_forge.Base.Text.{codes}
use route_forge.Configuration.{Config}
use route_forge.Configuration.Checks.{has_key}
use route_forge.Startup.{
  mock, openai, anthropic, Provider, name, Registry, new_registry, add_providers, get, providers_of,
  automatic,
}

module _ (c : Config) where
  unfoldable pub openai_of : Provider
  openai_of = openai c.durations.provider_timeout c.openai_api_key c.durations.stream_idle_timeout

  unfoldable pub anthropic_of : Provider
  anthropic_of =
      anthropic c.durations.provider_timeout c.anthropic_api_key c.durations.stream_idle_timeout

  -- The registry, by which of the two keys are set.
  unfoldable pub registry : Bool → Bool → Registry
  registry true true =
      (codes "mock", mock) ∷ (codes "openai", openai_of) ∷ (codes "anthropic", anthropic_of) ∷ []
  registry true false = (codes "mock", mock) ∷ (codes "openai", openai_of) ∷ []
  registry false true = (codes "mock", mock) ∷ (codes "anthropic", anthropic_of) ∷ []
  registry false false = (codes "mock", mock) ∷ []

  pub registry-eq :
      (o a : Bool)
      → has_key c.openai_api_key ≡ o
      → has_key c.anthropic_api_key ≡ a
      → new_registry (providers_of c) ≡ registry o a
  unfolding registry openai_of anthropic_of new_registry add_providers name insert
  registry-eq true true ho ha = rw (ho, ha) refl
  registry-eq true false ho ha = rw (ho, ha) refl
  registry-eq false true ho ha = rw (ho, ha) refl
  registry-eq false false ho ha = rw (ho, ha) refl

  pub get-mock : (o a : Bool) → get (codes "mock") (registry o a) ≡ some mock
  unfolding get registry lookup
  get-mock true true = refl
  get-mock true false = refl
  get-mock false true = refl
  get-mock false false = refl

  pub get-openai : (a : Bool) → get (codes "openai") (registry true a) ≡ some openai_of
  unfolding get registry lookup
  get-openai true = refl
  get-openai false = refl

  pub get-anthropic : (o : Bool) → get (codes "anthropic") (registry o true) ≡ some anthropic_of
  unfolding get registry lookup
  get-anthropic true = refl
  get-anthropic false = refl

  pub automatic-some :
      (o a : Bool)
      → (o || a) ≡ true
      → (n : List ℕ) × (ns : List (List ℕ)) × (automatic (registry o a) ≡ n ∷ ns)
  unfolding automatic get registry lookup openai_of anthropic_of name
  automatic-some true true h = (codes "openai", codes "anthropic" ∷ [], refl)
  automatic-some true false h = (codes "openai", [], refl)
  automatic-some false true h = (codes "anthropic", [], refl)
  automatic-some false false h = cc

  pub automatic-names :
      (o a : Bool)
      → automatic (registry o a)
        ≡ (if o then codes "openai" ∷ [] else []) ++ (if a then codes "anthropic" ∷ [] else [])
  unfolding automatic get registry lookup openai_of anthropic_of name
  automatic-names true true = refl
  automatic-names true false = refl
  automatic-names false true = refl
  automatic-names false false = refl
