-- ===== src/Service/Course.antt =====
-- internal/gateway/service.go: which streams `Stream` opens, and what its client is shown.
use mathlib.Core.List.{Perm}
use mathlib.Core.List.Perm
use route_forge.Base.{ℕ, ◌≡◌, Option, List, ◌++◌}
use route_forge.Outcome.{Error}
use route_forge.Runtime.{RoutingVersion}
use route_forge.Service.{Request, Chunk, World, Config, State, Opening}
use route_forge.Service.Passes.{Course}

module _ (w : World) (c : Config) (version : RoutingVersion) (r : Request) where
  -- The streams opened, the chunks shown and the result, from a state.
  abbrev FromHere : List (List ℕ) → State → State × Option Error → Type 0
  FromHere names s result =
      (os : List Opening) × (ks : List Chunk) × (result.0.opened ≡ s.opened ++ os)
      × (result.0.emitted ≡ s.emitted ++ ks)
      × Course w c version r names os ks result.1

  -- The providers in the order of the visits, with the streams opened, the chunks shown and the result.
  abbrev pub StreamRun : State → State × Option Error → Type 0
  StreamRun s result =
      (names : List (List ℕ)) × (os : List Opening) × (ks : List Chunk) × Perm names c.providers
      × (result.0.opened ≡ s.opened ++ os)
      × (result.0.emitted ≡ s.emitted ++ ks)
      × Course w c version r names os ks result.1
