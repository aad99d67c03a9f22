-- ===== src/Auth/Access.antt =====
-- internal/adminapi/auth.go: who passes the handler, and how long a session lives.
use mathlib.Core.Path.{subst}
use route_forge.Base.{
  ℕ, ◌+◌, ◌≤◌, ◌≡◌, refl, sym, ◌∙◌, true, false, not, ◌||◌, Option, none, some, List, [], ◌∷◌,
  length, arith, ltb, if-holds,
}
use route_forge.Base.Text.{codes, same, same→eq}
use route_forge.Base.Dict.{text_eq, lookup, insert}
use route_forge.Accounting.Price.{is_empty}
use route_forge.Auth.{
  Codes, Request, Sessions, Answer, logged_in, logged_out, session_status, served, no_room,
  unavailable, prune, without, alive, cookie_key, valid, admit_login, open_session, check_login,
  login, logout,
}
use route_forge.Auth.Handler.{trusted_json, writes_routing, guarded, auth_handler}
use route_forge.Auth.Entries.{
  lookup-remove_self, lookup-without, lookup-prune-none, lookup-prune-insert,
}

-- What base64 does: 32 bytes are 43 characters, which are read back.
abbrev pub IsCode : Codes → Type 0
IsCode c =
    (raw : List ℕ)
    → length raw ≡ 32
    → (c.decode (c.encode raw) ≡ some raw) × (length (c.encode raw) ≡ 43)

module _ (c : Codes) where
  open_session_lem :
      (r : Request) (now expiry : ℕ) (raw value : List ℕ) (s : Sessions)
      → (open_session c r now raw s).0 ≡ logged_in value expiry
      → let m = prune now s.entries in
        (lookup (c.digest raw) m ≡ none)
        × (c.encode raw ≡ value)
        × (now + s.ttl ≡ expiry)
        × ((open_session c r now raw s).1.entries
            ≡ insert (c.digest raw) expiry (without (cookie_key c r) m))
  unfolding open_session
  open_session_lem r now expiry raw value s h = ground arith

  -- The session of a cookie value.
  cookie_key-encode :
      (r : Request) (raw : List ℕ)
      → IsCode c
      → length raw ≡ 32
      → r.cookies ≡ c.encode raw ∷ []
      → cookie_key c r ≡ some (c.digest raw)
  unfolding cookie_key
  cookie_key-encode r raw i l h = rw h (ground (arith, i raw l))

  valid-key :
      (r : Request) (now : ℕ) (key : List ℕ) (s : Sessions)
      → cookie_key c r ≡ some key
      → (valid c r now s).0 ≡ alive now (lookup key (prune now s.entries))
  unfolding valid
  valid-key r now key s h = rw (h, valid) refl

  -- When base64 reads back what it writes, the cookie that a login was answered with lives for exactly
  -- the configured time: a request with that cookie alone is valid before the expiry and at no later
  -- reading of the clock, and after its logout it is not valid at any.
  pub session_lifetime :
      IsCode c
      → (r r' : Request) (now now' expiry : ℕ) (raw value : List ℕ) (s : Sessions) → length raw ≡ 32
      → (open_session c r now raw s).0 ≡ logged_in value expiry
      → r'.cookies ≡ value ∷ []
      → let s' = (open_session c r now raw s).1 in
        (expiry ≡ now + s.ttl)
        × ((valid c r' now' s').0 ≡ ltb now' expiry)
        × ((valid c r' now' (logout c r' s')).0 ≡ false)
  unfolding logout
  session_lifetime i r r' now now' expiry raw value s l h q =
      let m = prune now s.entries in
      let key = c.digest raw in
      let s' = (open_session c r now raw s).1 in
      let o = open_session_lem r now expiry raw value s h in
      let k = cookie_key-encode r' raw i l (subst (λ v. r'.cookies ≡ v ∷ []) (sym o.1) q) in
      let found =
        lookup-prune-insert key now' expiry _ (lookup-without key (cookie_key c r) m o.0) in
      let gone = lookup-prune-none key now' _ (lookup-remove_self key s'.entries) in
      (
        sym o.2,
        ground (arith, valid-key r' now' key s' k, found, o.3),
        ground (arith, valid-key r' now' key (logout c r' s') k, gone, k),
      )

  admit_login-secret : (now : ℕ) (s : Sessions) → (admit_login c now s).1.secret ≡ s.secret
  unfolding admit_login
  admit_login-secret now s = ground arith

  -- What must hold of a request for its answer, when sessions are enabled: what is served is behind a
  -- valid session, away from the login, and may write the routing only for a trusted PUT; a new session
  -- needs a trusted POST within the limit, with the secret.
  unfoldable pub Guards : Request → ℕ → ℕ → Sessions → Answer → Type 0
  Guards r now later s (served writes) =
      ((valid c r now s).0 ≡ true)
      × (same r.path (codes "/admin/v1/auth/login") ≡ false)
      × (writes ≡ writes_routing r)
      × (writes ≡ true → trusted_json c r s.origin ≡ true)
  Guards r now later s (logged_in value expiry) =
      (same r.path (codes "/admin/v1/auth/login") ≡ true)
      × (same r.method (codes "POST") ≡ true)
      × (trusted_json c r s.origin ≡ true)
      × ((admit_login c now s).0 ≡ true)
      × ((secret : List ℕ) × (c.login_secret r.body ≡ some secret)
          × (length secret ≤ 256)
          × (c.digest secret ≡ s.secret))
  Guards r now later s _ = Unit {0}

  -- The same when sessions are not enabled: what is served writes nothing and is no write of the routing,
  -- and nothing begins, checks or ends a session.
  unfoldable pub Open : Request → Answer → Type 0
  Open r (served writes) =
      (writes ≡ false)
      × (writes_routing r ≡ false)
      × (same r.path (codes "/admin/v1/auth/session") ≡ false)
      × (same r.path (codes "/admin/v1/auth/login") ≡ false)
      × (same r.path (codes "/admin/v1/auth/logout") ≡ false)
  Open r (logged_in value expiry) = ⊥
  Open r logged_out = ⊥
  Open r (session_status enabled valid) = (enabled ≡ false) × (valid ≡ true)
  Open r _ = Unit {0}

  module _ (r : Request) (now later : ℕ) (s : Sessions) where
    abbrev Good : Answer × Option Sessions → Type 0
    Good p = Guards r now later s p.0

    guarded-Good :
        same r.path (codes "/admin/v1/auth/login") ≡ false → Good (guarded c r now (some s))
    unfolding Guards
    guarded-Good p =
        if-holds Good (not (valid c r now s).0) _ _ (λ h. tt)
          (λ v.
            if-holds Good (not (writes_routing r)) _ _
              (λ w. (ground arith, p, ground arith, ground arith))
              (λ w.
                if-holds Good (not (trusted_json c r s.origin)) _ _ (λ h. tt)
                  (λ t. (ground arith, p, ground arith, ground arith))))

    abbrev Fine : Answer × Sessions → Type 0
    Fine p = Guards r now later s p.0

    open-Fine :
        (raw : List ℕ) (s' : Sessions)
        → ((value : List ℕ) (expiry : ℕ) → Guards r now later s (logged_in value expiry))
        → Fine (open_session c r later raw s')
    unfolding open_session Guards
    open-Fine raw s' g =
        let m = prune later s'.entries in
        if-holds Fine (no_room c r (c.digest raw) m) (unavailable, record s' { entries = m })
          (
            logged_in (c.encode raw) (later + s'.ttl),
            record s' {
              entries = insert (c.digest raw) (later + s'.ttl) (without (cookie_key c r) m);
            },
          )
          (λ h. tt) (λ h. g (c.encode raw) (later + s'.ttl))

    -- The facts about a login that precede the check of its secret.
    abbrev Asked : Type 0
    Asked =
        (same r.path (codes "/admin/v1/auth/login") ≡ true)
        × (same r.method (codes "POST") ≡ true)
        × (trusted_json c r s.origin ≡ true)
        × ((admit_login c now s).0 ≡ true)

    check-Fine :
        (random input : Option (List ℕ))
        → c.login_secret r.body ≡ input
        → Asked
        → Fine (check_login c r later random (admit_login c now s).1 input)
    unfolding check_login Guards
    check-Fine random none i a = tt
    check-Fine none (some secret) i a =
        if-holds Fine
          (ltb 256 (length secret) || not (same (c.digest secret) (admit_login c now s).1.secret)) _
          _ (λ h. tt) (λ h. tt)
    check-Fine (some raw) (some secret) i a =
        if-holds Fine
          (ltb 256 (length secret) || not (same (c.digest secret) (admit_login c now s).1.secret)) _
          _ (λ h. tt)
          (λ h. open-Fine raw _ (λ value expiry. (
            a.0,
            a.1,
            a.2,
            a.3,
            (
              secret,
              i,
              ground arith,
              same→eq (c.digest secret) _ (ground arith) ∙ admit_login-secret now s,
            ),
          )))

    login-Guards :
        (random : Option (List ℕ))
        → same r.path (codes "/admin/v1/auth/login") ≡ true
        → same r.method (codes "POST") ≡ true
        → trusted_json c r s.origin ≡ true
        → Guards r now later s (login c r now later random s).0
    unfolding Guards login
    login-Guards random p m t =
        if-holds Fine (not (admit_login c now s).0) _ _ (λ h. tt)
          (λ a. check-Fine random (c.login_secret r.body) refl (p, m, t, ground arith))

    auth_handler-Good :
        (random : Option (List ℕ)) → Good (auth_handler c r now later random (some s))
    unfolding Guards auth_handler
    auth_handler-Good random =
        if-holds Good (same r.path (codes "/admin/v1/auth/session")) _ _
          (λ h.
            if-holds Good (not (same r.method (codes "GET")) || not (is_empty r.raw_query)) _ _
              (λ h. tt) (λ h. tt))
          (λ h.
            if-holds Good
              (same r.path (codes "/admin/v1/auth/login")
                || same r.path (codes "/admin/v1/auth/logout"))
              _ _
              (λ q.
                if-holds Good (not (same r.method (codes "POST"))) _ _ (λ h. tt)
                  (λ m.
                    if-holds Good (not (trusted_json c r s.origin)) _ _ (λ h. tt)
                      (λ t.
                        if-holds Good (same r.path (codes "/admin/v1/auth/login")) _ _
                          (λ p. login-Guards random p (ground arith) (ground arith)) (λ p. tt))))
              (λ q. guarded-Good (ground arith)))

  auth_handler-Open :
      (r : Request) (now later : ℕ) (random : Option (List ℕ))
      → Open r (auth_handler c r now later random none).0
  unfolding Open auth_handler
  auth_handler-Open r now later random =
      let P : Answer × Option Sessions → Type 0 = λ p. Open r p.0 in
      if-holds P (same r.path (codes "/admin/v1/auth/session")) _ _
        (λ h.
          if-holds P (not (same r.method (codes "GET")) || not (is_empty r.raw_query)) _ _ (λ h. tt)
            (λ h. (refl, refl)))
        (λ h.
          if-holds P
            (same r.path (codes "/admin/v1/auth/login")
              || same r.path (codes "/admin/v1/auth/logout"))
            _ _ (λ q. if-holds P (not (same r.method (codes "POST"))) _ _ (λ h. tt) (λ m. tt))
            (λ q.
              if-holds (λ a. Open r a) (writes_routing r) _ _ (λ h. tt)
                (λ w. (refl, w, h, ground arith, ground arith))))

  -- What must hold of a request for its answer, with the sessions if they are enabled.
  abbrev pub Passes : Request → ℕ → ℕ → Option Sessions → Answer → Type 0
  Passes r now later none a = Open r a
  Passes r now later (some s) a = Guards r now later s a

  -- In front of everything else. When sessions are enabled, the handler serves a request only behind a
  -- valid session and away from the login, and lets it write the routing exactly for a PUT of the routing
  -- that is trusted; and it begins a session only for a trusted POST of a login that is within the limit
  -- and whose body holds the configured secret, by its digest. When they are not, it serves only requests
  -- that do not write the routing and are for none of the endpoints of the authentication, and begins and
  -- ends no session.
  pub auth_handler-Guards :
      (r : Request) (now later : ℕ) (random : Option (List ℕ)) (s : Option Sessions)
      → Passes r now later s (auth_handler c r now later random s).0
  auth_handler-Guards r now later random none = auth_handler-Open r now later random
  auth_handler-Guards r now later random (some s) = auth_handler-Good r now later s random
