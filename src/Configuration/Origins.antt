-- ===== src/Configuration/Origins.antt =====
-- internal/config/admin_auth.go: the origin of the administration.
use route_forge.Base.{
  ℕ, ◌≤◌, ◌≡◌, refl, ◌⊎◌, inl, inr, ◌||◌, true, false, not, Option, none, some, List, arith,
  Bool-cases,
}
use route_forge.Base.Result.{ok, require, >>-eq-ok, require-eq-ok}
use route_forge.Base.Text.{codes, same}
use route_forge.Accounting.Price.{is_empty}
use route_forge.Configuration.{Url, Host, origin_invalid, origin_not_loopback, parse_port, is_port}
use route_forge.Configuration.Ports.{is_port_lem}
use route_forge.Configuration.Stages.{check_origin, is_origin, is_local, is_http}

-- A URL of the web.
abbrev pub IsWeb : Url → Type 0
IsWeb u = (same u.scheme (codes "http") ≡ true) ⊎ (same u.scheme (codes "https") ≡ true)

-- An origin: a URL of a host without a user, a path, a query or a fragment, which is loopback unless it is
-- reached by HTTPS, and whose port, if it names one, can be used.
pub record SafeOrigin (h : Host) (u : Url) : Type 0 where
  pub web : IsWeb u
  pub anonymous : u.has_user ≡ false
  pub named : is_empty u.hostname ≡ false
  pub no_path : is_empty u.path ≡ true
  pub no_query : (is_empty u.raw_query ≡ true) × (u.force_query ≡ false)
  pub no_fragment : is_empty u.fragment ≡ true
  pub loopback :
      same u.scheme (codes "http") ≡ true
      → (same u.hostname (codes "localhost") ≡ true) ⊎ (h.loopback_ip u.hostname ≡ true)
  pub port :
      (is_empty u.port ≡ true) ⊎ ((n : ℕ) × (parse_port u.port ≡ some n) × (1 ≤ n) × (n ≤ 65535))

module _ (h : Host) where
  port-cases :
      (s : List ℕ)
      → (is_empty s || is_port s) ≡ true
      → (is_empty s ≡ true) ⊎ ((n : ℕ) × (parse_port s ≡ some n) × (1 ≤ n) × (n ≤ 65535))
  port-cases s e = elim (Bool-cases (is_empty s)) [
    | inl b ↦ inl b
    | inr b ↦ inr (is_port_lem s (ground arith))
  ]

  loopback-cases :
      (u : Url)
      → (not (same u.scheme (codes "http")) || is_local h u) ≡ true
      → same u.scheme (codes "http") ≡ true
      → (same u.hostname (codes "localhost") ≡ true) ⊎ (h.loopback_ip u.hostname ≡ true)
  loopback-cases u e web = elim (Bool-cases (same u.hostname (codes "localhost"))) [
    | inl b ↦ inl b
    | inr b ↦ inr (ground arith)
  ]

  pub IsWeb-cases : (u : Url) → is_http u ≡ true → IsWeb u
  IsWeb-cases u e = elim (Bool-cases (same u.scheme (codes "http"))) [
    | inl b ↦ inl b
    | inr b ↦ inr (ground arith)
  ]

  origin-Safe :
      (u : Url)
      → is_origin u ≡ true
      → (not (same u.scheme (codes "http")) || is_local h u) ≡ true
      → (is_empty u.port || is_port u.port) ≡ true
      → SafeOrigin h u
  unfolding is_origin
  origin-Safe u origin local port = record {
    web = IsWeb-cases u (ground arith);
    anonymous = ground arith;
    named = ground arith;
    no_path = ground arith;
    no_query = (ground arith, ground arith);
    no_fragment = ground arith;
    loopback = loopback-cases u local;
    port = port-cases u.port port;
  }

  pub check_origin-ok :
      (o : Option Url) → check_origin h o ≡ ok tt → (u : Url) × (o ≡ some u) × SafeOrigin h u
  unfolding check_origin
  check_origin-ok none e = cc
  check_origin-ok (some u) e =
      let (origin, e1) = >>-eq-ok (require (is_origin u) origin_invalid) _ e in
      let (local, port) =
        >>-eq-ok (require (not (same u.scheme (codes "http")) || is_local h u) origin_not_loopback)
          _ e1 in
      (
        u,
        refl,
        origin-Safe u (require-eq-ok _ _ origin) (require-eq-ok _ _ local) (require-eq-ok _ _ port),
      )
