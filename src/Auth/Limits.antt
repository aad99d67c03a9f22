-- ===== src/Auth/Limits.antt =====
-- internal/adminapi/auth.go: the number of sessions, and of logins in a minute, under any interleaving
-- of requests.
use mathlib.Core.Path.{subst}
use route_forge.Base.{
  ℕ, ◌+◌, ◌≤◌, ◌<◌, ◌≡◌, true, Option, none, some, List, [], ◌∷◌, length, arith, Option-cases,
  if◌then◌else◌, inl, inr,
}
use route_forge.Base.Dict.{text_eq, lookup, total-insert-none}
use route_forge.Auth.{
  Codes, Request, AuthConfig, Sessions, max_sessions, max_logins, minute, new_sessions, remove,
  prune, is_some, is_entry, without, cookie_key, valid, admit_login, open_session, logout,
}
use route_forge.Auth.Entries.{lookup-without, length-remove, length-remove-some, length-prune}

-- The operations that requests make on the sessions, each under the lock: a login's count at a reading
-- of the clock, its new session, a logout, and a check.
pub data Event : Type 0 where
  admits : ℕ → Event
  opens : Request → ℕ → List ℕ → Event
  logs_out : Request → Event
  checks : Request → ℕ → Event

pub record Bounded (s : Sessions) : Type 0 where
  pub sessions : length s.entries ≤ max_sessions
  pub logins : s.logins ≤ max_logins

length-without :
    (old : Option (List ℕ)) (m : List (List ℕ × ℕ))
    → (length (without old m) ≤ length m)
      × (is_entry old m ≡ true → length (without old m) + 1 ≤ length m)
length-without none m = (omega arith, λ h. cc)
length-without (some key) m = (length-remove key m, go)
  where
    go : is_some (lookup key m) ≡ true → length (remove key m) + 1 ≤ length m
    go h = elim (Option-cases (lookup key m)) [
      | inl n ↦ cc
      | inr (expiry, e) ↦ length-remove-some key expiry m e
    ]

module _ (c : Codes) where
  unfoldable pub step : Event → Sessions → Sessions
  step (admits now) s = (admit_login c now s).1
  step (opens r now raw) s = (open_session c r now raw s).1
  step (logs_out r) s = logout c r s
  step (checks r now) s = (valid c r now s).1

  unfoldable pub run : List Event → Sessions → Sessions
  run [] s = s
  run (e ∷ es) s = run es (step e s)

  admit-Bounded : (now : ℕ) (s : Sessions) → Bounded s → Bounded (admit_login c now s).1
  unfolding admit_login
  admit-Bounded now s b = ground arith

  valid-Bounded : (r : Request) (now : ℕ) (s : Sessions) → Bounded s → Bounded (valid c r now s).1
  unfolding valid
  valid-Bounded r now s b = ground (arith, length-prune now s.entries)

  logout-Bounded : (r : Request) (s : Sessions) → Bounded s → Bounded (logout c r s)
  unfolding logout
  logout-Bounded r s b = ground (arith, (length-without (cookie_key c r) s.entries).0)

  open-Bounded :
      (r : Request) (now : ℕ) (raw : List ℕ) (s : Sessions)
      → Bounded s
      → Bounded (open_session c r now raw s).1
  unfolding open_session
  open-Bounded r now raw s b =
      let m = prune now s.entries in
      let old = cookie_key c r in
      let key = c.digest raw in
      let shorter = length-without old m in
      let grown = total-insert-none (λ x. x) key (now + s.ttl) (without old m) in
      ground
        (arith, length-prune now s.entries, shorter.0, shorter.1, grown, lookup-without key old m)

  step-Bounded : (e : Event) (s : Sessions) → Bounded s → Bounded (step e s)
  unfolding step
  step-Bounded (admits now) s b = admit-Bounded now s b
  step-Bounded (opens r now raw) s b = open-Bounded r now raw s b
  step-Bounded (logs_out r) s b = logout-Bounded r s b
  step-Bounded (checks r now) s b = valid-Bounded r now s b

  run_from-Bounded : (es : List Event) (s : Sessions) → Bounded s → Bounded (run es s)
  unfolding run
  run_from-Bounded [] s b = b
  run_from-Bounded (e ∷ es) s b = run_from-Bounded es (step e s) (step-Bounded e s b)

  -- In every interleaving of requests there are at most 128 sessions, and the count of the logins of the
  -- minute is at most 20.
  pub run-Bounded :
      (config : AuthConfig) (es : List Event) → Bounded (run es (new_sessions c config))
  unfolding new_sessions
  run-Bounded config es =
      run_from-Bounded es _ (record { sessions = omega arith; logins = omega arith })

  -- The logins that are admitted in a history, and those histories in which every login comes before a
  -- moment.
  abbrev pub admitted : List Event → Sessions → ℕ
  admitted [] s = 0
  admitted (admits now ∷ es) s =
      let rest = admitted es (step (admits now) s) in
      if (admit_login c now s).0 then rest + 1 else rest
  admitted (e ∷ es) s = admitted es (step e s)

  abbrev pub AllBefore : ℕ → List Event → Type 0
  AllBefore end [] = Unit {0}
  AllBefore end (admits now ∷ es) = (now < end) × AllBefore end es
  AllBefore end (e ∷ es) = AllBefore end es

  -- Only the count of a login changes the window and the number of its logins.
  open-kept :
      (r : Request) (now : ℕ) (raw : List ℕ) (s : Sessions)
      → let s' = (open_session c r now raw s).1 in (s.window ≡ s'.window) × (s.logins ≡ s'.logins)
  unfolding open_session
  open-kept r now raw s = ground arith

  valid-kept :
      (r : Request) (now : ℕ) (s : Sessions)
      → let s' = (valid c r now s).1 in (s.window ≡ s'.window) × (s.logins ≡ s'.logins)
  unfolding valid
  valid-kept r now s = ground arith

  admitted_in_window :
      (es : List Event) (s : Sessions)
      → s.logins ≤ max_logins
      → AllBefore (s.window + minute) es
      → s.logins + admitted es s ≤ max_logins
  unfolding step admit_login open_session logout valid
  admitted_in_window [] s b a = omega arith
  admitted_in_window (admits now ∷ es) s b a =
      ground (arith, admitted_in_window es (step (admits now) s))
  admitted_in_window (opens r now raw ∷ es) s b a =
      let s' = step (opens r now raw) s in
      let k = open-kept r now raw s in
      let a' = subst (λ w. AllBefore (w + minute) es) k.0 a in
      omega (arith, k.1, admitted_in_window es s' (omega (arith, k.1)) a')
  admitted_in_window (logs_out r ∷ es) s b a = admitted_in_window es (logout c r s) b a
  admitted_in_window (checks r now ∷ es) s b a =
      let s' = step (checks r now) s in
      let k = valid-kept r now s in
      let a' = subst (λ w. AllBefore (w + minute) es) k.0 a in
      omega (arith, k.1, admitted_in_window es s' (omega (arith, k.1)) a')

  -- After any history, however requests interleave, at most 20 logins are admitted before the minute
  -- that the window began is over.
  pub admitted_bound :
      (config : AuthConfig) (before es : List Event)
      → let s = run before (new_sessions c config) in
        AllBefore (s.window + minute) es → s.logins + admitted es s ≤ max_logins
  admitted_bound config before es a = admitted_in_window es _ (run-Bounded config before).logins a
