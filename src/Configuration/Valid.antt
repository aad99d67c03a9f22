-- ===== src/Configuration/Valid.antt =====
-- internal/config/config.go: what a configuration that `Load` returns satisfies.
use Prim.Native.String.{String}
use mathlib.Core.Path.{subst}
use route_forge.Base.{
  ℕ, ◌*◌, ◌%◌, ◌^◌, ◌≤◌, ◌<◌, ◌≡◌, refl, ◌⊎◌, inl, inr, true, false, some, List, length, arith,
  Bool-cases, sym,
}
use route_forge.Base.Int.{ℤ, pos_part}
use route_forge.Base.Result.{ok, require, >>=-eq-ok, >>-eq-ok, require-eq-ok, ok-injective}
use route_forge.Base.Text.{codes, same→eq}
use route_forge.Accounting.Price.{trim_space}
use route_forge.Configuration.{
  Url, second, minute, Host, auth_needs_admin, secret_invalid, Flags, AdminAuth, Counts, Durations,
  getenv, env_or_default,
}
use route_forge.Configuration.Stages.{
  load_session_ttl, check_origin, with_auth, auth_of, is_secret, load_admin_auth, load_counts,
  load_durations, load_duration, load_count,
}
use route_forge.Configuration.Origins.{SafeOrigin, check_origin-ok}

abbrev pub Positive : ℤ → Type 0
Positive n = 0 < pos_part n

pub record PositiveCounts (c : Counts) : Type 0 where
  pub threshold : Positive c.circuit_failure_threshold
  pub min_samples : Positive c.routing_min_samples
  pub interval : Positive c.routing_exploration_interval

pub record PositiveDurations (d : Durations) : Type 0 where
  pub read : Positive d.read_timeout
  pub write : Positive d.write_timeout
  pub idle : Positive d.idle_timeout
  pub shutdown : Positive d.shutdown_timeout
  pub provider : Positive d.provider_timeout
  pub stream_idle : Positive d.stream_idle_timeout
  pub open_duration : Positive d.circuit_open_duration
  pub max_age : Positive d.routing_sample_max_age
  pub ttl : Positive d.cache_ttl

module _ (h : Host) where
  load_count-Positive :
      (key : String) (default : ℕ) {n : ℤ}
      → 0 < default
      → load_count h key default ≡ ok n
      → Positive n
  unfolding load_count
  load_count-Positive key default d e = ground arith

  load_duration-Positive :
      (key : String) (default : ℕ) {n : ℤ}
      → 0 < default
      → load_duration h key default ≡ ok n
      → Positive n
  unfolding load_duration
  load_duration-Positive key default d e = ground arith

  pub load_counts-PositiveCounts : {c : Counts} → load_counts h ≡ ok c → PositiveCounts c
  unfolding load_counts
  load_counts-PositiveCounts e =
      let (a, ea, e1) = >>=-eq-ok (load_count h "ROUTEFORGE_CIRCUIT_FAILURE_THRESHOLD" 3) _ e in
      let (b, eb, e2) = >>=-eq-ok (load_count h "ROUTEFORGE_ROUTING_MIN_SAMPLES" 5) _ e1 in
      let (c, ec, e3) =
        >>=-eq-ok (load_count h "ROUTEFORGE_ROUTING_EXPLORATION_INTERVAL" 10) _ e2 in
      ground (
        arith,
        load_count-Positive _ _ _ ea,
        load_count-Positive _ _ _ eb,
        load_count-Positive _ _ _ ec,
      )

  pub load_durations-PositiveDurations :
      {d : Durations} → load_durations h ≡ ok d → PositiveDurations d
  unfolding load_durations
  load_durations-PositiveDurations e0 =
      let (d0, p0, e1) = >>=-eq-ok (load_duration h "ROUTEFORGE_READ_TIMEOUT" (15 * second)) _ e0 in
      let (d1, p1, e2) =
        >>=-eq-ok (load_duration h "ROUTEFORGE_WRITE_TIMEOUT" (30 * second)) _ e1 in
      let (d2, p2, e3) = >>=-eq-ok (load_duration h "ROUTEFORGE_IDLE_TIMEOUT" (60 * second)) _ e2 in
      let (d3, p3, e4) =
        >>=-eq-ok (load_duration h "ROUTEFORGE_SHUTDOWN_TIMEOUT" (10 * second)) _ e3 in
      let (d4, p4, e5) =
        >>=-eq-ok (load_duration h "ROUTEFORGE_PROVIDER_TIMEOUT" (30 * second)) _ e4 in
      let (d5, p5, e6) =
        >>=-eq-ok (load_duration h "ROUTEFORGE_STREAM_IDLE_TIMEOUT" (30 * second)) _ e5 in
      let (d6, p6, e7) =
        >>=-eq-ok (load_duration h "ROUTEFORGE_CIRCUIT_OPEN_DURATION" (30 * second)) _ e6 in
      let (d7, p7, e8) =
        >>=-eq-ok (load_duration h "ROUTEFORGE_ROUTING_SAMPLE_MAX_AGE" (5 * minute)) _ e7 in
      let (d8, p8, e9) = >>=-eq-ok (load_duration h "ROUTEFORGE_CACHE_TTL" (5 * minute)) _ e8 in
      ground (
        arith,
        load_duration-Positive _ _ (omega arith) p0,
        load_duration-Positive _ _ (omega arith) p1,
        load_duration-Positive _ _ (omega arith) p2,
        load_duration-Positive _ _ (omega arith) p3,
        load_duration-Positive _ _ (omega arith) p4,
        load_duration-Positive _ _ (omega arith) p5,
        load_duration-Positive _ _ (omega arith) p6,
        load_duration-Positive _ _ (omega arith) p7,
        load_duration-Positive _ _ (omega arith) p8,
      )

-- The bounds on the administration's sessions.
abbrev pub SessionTtl : ℤ → Type 0
SessionTtl ttl =
    (60 * 10 ^ 9 ≤ pos_part ttl) × (pos_part ttl ≤ 86400 * 10 ^ 9) × (pos_part ttl % 10 ^ 9 ≡ 0)

-- With authentication on, the secret has 32 to 256 bytes and no space around it, and the origin is safe.
abbrev pub Guarded : Host → Flags → AdminAuth → Type 0
Guarded h flags auth =
    (flags.admin_enabled ≡ true)
    × (32 ≤ length auth.admin_secret)
    × (length auth.admin_secret ≤ 256)
    × (trim_space auth.admin_secret ≡ auth.admin_secret)
    × ((u : Url) × (h.parse_url auth.admin_origin ≡ some u) × SafeOrigin h u)

module _ (h : Host) where
  load_session_ttl-SessionTtl : {ttl : ℤ} → load_session_ttl h ≡ ok ttl → SessionTtl ttl
  unfolding load_session_ttl
  load_session_ttl-SessionTtl e = ground arith

  with_auth-Guarded :
      (flags : Flags) (ttl : ℤ) (origin secret : List ℕ) {auth : AdminAuth}
      → with_auth h flags ttl origin secret ≡ ok auth
      → (auth.admin_session_ttl ≡ ttl) × Guarded h flags auth
  unfolding with_auth
  with_auth-Guarded flags ttl origin secret {auth} e =
      let (on, e1) = >>-eq-ok (require flags.admin_enabled auth_needs_admin) _ e in
      let (sized, e2) = >>-eq-ok (require (is_secret secret) secret_invalid) _ e1 in
      let (seen, e3) = >>-eq-ok (check_origin h (h.parse_url origin)) _ e2 in
      let (u, parsed, safe) = check_origin-ok h (h.parse_url origin) seen in
      let is_sized = require-eq-ok (is_secret secret) secret_invalid sized in
      let trimmed = same→eq (trim_space secret) secret (ground arith) in
      let a : AdminAuth = record {
        admin_session_ttl = ttl;
        admin_origin = origin;
        admin_secret = secret;
      } in
      let made : a ≡ auth = ok-injective e3 in
      subst (λ a. (a.admin_session_ttl ≡ ttl) × Guarded h flags a) made
        (
          refl,
          (
            require-eq-ok flags.admin_enabled _ on,
            ground arith,
            ground arith,
            trimmed,
            (u, parsed, safe),
          ),
        )

  auth_of-Guarded :
      (flags : Flags) (ttl : ℤ) (origin secret : List ℕ) {auth : AdminAuth}
      → auth_of h flags ttl origin secret ≡ ok auth
      → (auth.admin_session_ttl ≡ ttl) × ((flags.admin_auth_enabled ≡ false) ⊎ Guarded h flags auth)
  unfolding auth_of
  auth_of-Guarded flags ttl origin secret {auth} e = elim (Bool-cases flags.admin_auth_enabled) [
    | inl on ↦
        let same_run : with_auth h flags ttl origin secret ≡ ok auth = ground arith in
        let (same_ttl, guarded) = with_auth-Guarded flags ttl origin secret same_run in
        (same_ttl, inr guarded)
    | inr off ↦ (ground arith, inl off)
  ]

  pub load_admin_auth-Guarded :
      (flags : Flags) {auth : AdminAuth}
      → load_admin_auth h flags ≡ ok auth
      → SessionTtl auth.admin_session_ttl
        × ((flags.admin_auth_enabled ≡ false) ⊎ Guarded h flags auth)
  unfolding load_admin_auth
  load_admin_auth-Guarded flags e =
      let (ttl, e1, e2) = >>=-eq-ok (load_session_ttl h) _ e in
      let (same_ttl, guarded) =
        auth_of-Guarded flags ttl
          (env_or_default h "ROUTEFORGE_ADMIN_ORIGIN" (codes "http://127.0.0.1:3001"))
          (getenv h "ROUTEFORGE_ADMIN_SECRET") e2 in
      (subst SessionTtl (sym same_ttl) (load_session_ttl-SessionTtl e1), guarded)
