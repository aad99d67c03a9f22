-- ===== src/Tests/Logins.antt =====
-- internal/adminapi/auth.go: a login with a secret of one byte, and codes that stand for the libraries'.
use mathlib.Core.Path.{subst}
use route_forge.Base.{
  ℕ, ◌+◌, ◌≤◌, ◌≡◌, refl, ap, arith, length-append, true, false, some, List, [], ◌∷◌, ◌++◌,
  replicate, take, length, ltb,
}
use route_forge.Base.Text.{codes}
use route_forge.Base.Dict.{lookup, insert}
use route_forge.Auth.{
  Codes, Request, AuthConfig, Sessions, max_logins, new_sessions, open_session, valid, logout,
  prune, remove, cookie_key, admit_login,
}
use route_forge.Auth.Handler.{auth_handler}
use route_forge.Auth.Limits.{
  Event, admits, opens, logs_out, checks, run, step, Bounded, run-Bounded, admitted, admitted_bound,
}
use route_forge.Auth.Access.{IsCode, session_lifetime, Passes, auth_handler-Guards}

abbrev plain_codes : Codes
plain_codes = record {
  digest = λ s. s;
  encode = λ raw. raw ++ replicate 11 0;
  decode = λ value. some (take 32 value);
  media_type = λ s. some s;
  login_secret = λ body. some body;
}

abbrev config : AuthConfig
config = record { enabled = true; secret = codes "s"; ttl = 100; origin = codes "https://admin" }

abbrev raw : List ℕ
raw = replicate 32 7

abbrev cookie : List ℕ
cookie = raw ++ replicate 11 0

abbrev asks : Request
asks = record {
  method = codes "POST";
  path = codes "/admin/v1/auth/login";
  raw_query = [];
  cookies = cookie ∷ [];
  content_type = codes "application/json";
  origins = codes "https://admin" ∷ [];
  fetch_site = [];
  body = codes "s";
}

abbrev no_sessions : Sessions
unfolding new_sessions
no_sessions = new_sessions plain_codes config

abbrev history : List Event
history =
    admits 70000000000 ∷ opens asks 70000000001 raw ∷ checks asks 70000000050 ∷ logs_out asks ∷ []

run-Bounded_example : Bounded (run plain_codes history (new_sessions plain_codes config))
run-Bounded_example = run-Bounded plain_codes config history

admitted_bound_example :
    let s = run plain_codes history (new_sessions plain_codes config) in
    s.logins + admitted plain_codes (admits 70000000060 ∷ []) s ≤ max_logins
unfolding run step new_sessions admit_login open_session logout valid cookie_key
admitted_bound_example =
    admitted_bound plain_codes config history (admits 70000000060 ∷ []) (omega arith, tt)

take-append : (xs ys : List ℕ) → take (length xs) (xs ++ ys) ≡ xs
take-append [] ys = refl
take-append (x ∷ xs) ys = ap (λ l. x ∷ l) (take-append xs ys)

plain_codes-IsCode : IsCode plain_codes
plain_codes-IsCode s h = (
  ap some (subst (λ n. take n (s ++ replicate 11 0) ≡ s) h (take-append s (replicate 11 0))),
  omega (arith, h, length-append s (replicate 11 0)),
)

session_lifetime_example :
    let s' = (open_session plain_codes asks 5 raw no_sessions).1 in
    (105 ≡ 5 + no_sessions.ttl)
    × ((valid plain_codes asks 50 s').0 ≡ ltb 50 105)
    × ((valid plain_codes asks 50 (logout plain_codes asks s')).0 ≡ false)
unfolding open_session new_sessions prune cookie_key lookup insert remove
session_lifetime_example =
    session_lifetime plain_codes plain_codes-IsCode asks asks 5 50 105 raw cookie no_sessions refl
      refl refl

auth_handler-Guards_example :
    Passes plain_codes asks 70000000000 70000000001
      (some no_sessions)
      (auth_handler plain_codes asks 70000000000 70000000001 (some raw) (some no_sessions)).0
auth_handler-Guards_example =
    auth_handler-Guards plain_codes asks 70000000000 70000000001 (some raw) (some no_sessions)
