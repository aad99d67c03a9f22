-- ===== src/Auth/Handler.antt =====
-- internal/adminapi/auth.go: the handler in front of the endpoints of the administration.
use route_forge.Base.{
  ℕ, Bool, true, false, not, ◌&&◌, ◌||◌, Option, none, some, List, [], ◌∷◌, if◌then◌else◌,
}
use route_forge.Base.Text.{codes, same}
use route_forge.Accounting.Price.{is_empty}
use route_forge.Auth.{
  Codes, Request, AuthConfig, Sessions, Answer, refused, session_status, logged_out, served,
  auth_failure, new_sessions, valid, login, logout,
}

abbrev pub is_json : Option (List ℕ) → Bool
is_json none = false
is_json (some media) = same media (codes "application/json")

abbrev pub is_origin : List ℕ → List (List ℕ) → Bool
is_origin origin [] = false
is_origin origin (o ∷ []) = same o origin
is_origin origin (o ∷ p ∷ others) = false

abbrev pub writes_routing : Request → Bool
writes_routing r = same r.path (codes "/admin/v1/routing/config") && same r.method (codes "PUT")

module _ (c : Codes) where
  unfoldable pub trusted_json : Request → List ℕ → Bool
  trusted_json r origin =
      is_empty r.raw_query
      && is_json (c.media_type r.content_type)
      && is_origin origin r.origins
      && not (same r.fetch_site (codes "cross-site"))

  abbrev pub session_answer : Request → ℕ → Option Sessions → Answer × Option Sessions
  session_answer r now none = (session_status false true, none)
  session_answer r now (some s) = let (b, s') = valid c r now s in (session_status true b, some s')

  abbrev pub begin_or_end :
      Request → ℕ → ℕ → Option (List ℕ) → Option Sessions → Answer × Option Sessions
  begin_or_end r now later random none = (refused 404 (codes "not_found"), none)
  begin_or_end r now later random (some s) =
      if not (trusted_json r s.origin)
      then (refused 403 (codes "forbidden"), some s)
      else if same r.path (codes "/admin/v1/auth/login")
      then (let (answer, s') = login c r now later random s in (answer, some s'))
      else (logged_out, some (logout c r s))

  abbrev pub guarded : Request → ℕ → Option Sessions → Answer × Option Sessions
  guarded r now none =
      (if writes_routing r then refused 403 (codes "forbidden") else served false, none)
  guarded r now (some s) =
      let (b, s') = valid c r now s in
      if not b
      then (auth_failure, some s')
      else if not (writes_routing r)
      then (served false, some s')
      else if not (trusted_json r s.origin)
      then (refused 403 (codes "forbidden"), some s')
      else (served true, some s')

  -- `authHandler`, with `none` for sessions that are not enabled. The request comes with the readings of
  -- the clock, the second of them for a login, and with the random bytes.
  unfoldable pub auth_handler :
      Request → ℕ → ℕ → Option (List ℕ) → Option Sessions → Answer × Option Sessions
  auth_handler r now later random s =
      if same r.path (codes "/admin/v1/auth/session")
      then (if not (same r.method (codes "GET")) || not (is_empty r.raw_query)
          then (refused 400 (codes "invalid_request"), s)
          else session_answer r now s)
      else if same r.path (codes "/admin/v1/auth/login")
          || same r.path (codes "/admin/v1/auth/logout")
      then (if not (same r.method (codes "POST"))
          then (refused 405 (codes "method_not_allowed"), s)
          else begin_or_end r now later random s)
      else guarded r now s

  -- `Authenticate`.
  unfoldable pub authenticate : AuthConfig → Option Sessions
  authenticate config = if config.enabled then some (new_sessions c config) else none
