-- ===== src/Auth.antt =====
-- internal/adminapi/auth.go: the sessions of the administration, login and logout. The digest, the
-- base64 and media type codes and the decoder of the login's body are fields of `Codes`; the clock's
-- readings and the random bytes are arguments. A time is a number of nanoseconds from the zero time. A
-- mutex makes each operation on the sessions atomic; a login is two.
pub mod Handler
pub mod Entries
pub mod Limits
pub mod Access
use route_forge.Base.{
  ℕ, ◌+◌, Bool, true, false, not, ◌&&◌, ◌||◌, Option, none, some, List, [], ◌∷◌, length, ltb, leb,
  ◌==◌, if◌then◌else◌,
}
use route_forge.Base.Dict.{text_eq, lookup, insert}
use route_forge.Base.Text.{codes, same}
use route_forge.Accounting.Price.{is_empty}

abbrev pub max_sessions : ℕ
max_sessions = 128

abbrev pub max_logins : ℕ
max_logins = 20

abbrev pub minute : ℕ
minute = 60000000000

-- `sha256.Sum256`, the strict raw URL code of base64 in both directions, `mime.ParseMediaType`, and what
-- the decoder makes of a login's body: its secret, unless the body is malformed, too long or followed by
-- more.
pub record Codes : Type 0 where
  pub digest : List ℕ → List ℕ
  pub encode : List ℕ → List ℕ
  pub decode : List ℕ → Option (List ℕ)
  pub media_type : List ℕ → Option (List ℕ)
  pub login_secret : List ℕ → Option (List ℕ)

-- `cookies` are the values of the cookies with the session's name.
pub record Request : Type 0 where
  pub method : List ℕ
  pub path : List ℕ
  pub raw_query : List ℕ
  pub cookies : List (List ℕ)
  pub content_type : List ℕ
  pub origins : List (List ℕ)
  pub fetch_site : List ℕ
  pub body : List ℕ

pub record AuthConfig : Type 0 where
  pub enabled : Bool
  pub secret : List ℕ
  pub ttl : ℕ
  pub origin : List ℕ

pub record Sessions : Type 0 where
  pub entries : List (List ℕ × ℕ)
  pub secret : List ℕ
  pub ttl : ℕ
  pub origin : List ℕ
  pub window : ℕ
  pub logins : ℕ

-- The answers: an error with its status and code; the status of the session, whether sessions are
-- enabled and whether this one is authenticated; a login, with the cookie's value and expiry; a logout;
-- or what the handler behind serves, and whether it may write the routing.
pub data Answer : Type 0 where
  refused : ℕ → List ℕ → Answer
  session_status : Bool → Bool → Answer
  logged_in : List ℕ → ℕ → Answer
  logged_out : Answer
  served : Bool → Answer

abbrev pub auth_failure : Answer
auth_failure = refused 401 (codes "unauthorized")

abbrev pub unavailable : Answer
unavailable = refused 503 (codes "auth_unavailable")

-- `delete` on a map, for one key.
unfoldable pub remove : List ℕ → List (List ℕ × ℕ) → List (List ℕ × ℕ)
remove key [] = []
remove key ((k, expiry) ∷ entries) =
    if same k key then remove key entries else (k, expiry) ∷ remove key entries

unfoldable pub prune : ℕ → List (List ℕ × ℕ) → List (List ℕ × ℕ)
prune now [] = []
prune now ((k, expiry) ∷ entries) =
    if not (ltb now expiry) then prune now entries else (k, expiry) ∷ prune now entries

abbrev pub single : List (List ℕ) → Option (List ℕ)
single [] = none
single (value ∷ []) = some value
single (value ∷ other ∷ others) = none

abbrev pub is_some : Option ℕ → Bool
is_some none = false
is_some (some expiry) = true

abbrev alive : ℕ → Option ℕ → Bool
alive now none = false
alive now (some expiry) = ltb now expiry

abbrev pub is_entry : Option (List ℕ) → List (List ℕ × ℕ) → Bool
is_entry none entries = false
is_entry (some key) entries = is_some (lookup key entries)

abbrev pub without : Option (List ℕ) → List (List ℕ × ℕ) → List (List ℕ × ℕ)
without none entries = entries
without (some key) entries = remove key entries

module _ (c : Codes) where
  unfoldable pub new_sessions : AuthConfig → Sessions
  new_sessions config = record {
    entries = [];
    secret = c.digest config.secret;
    ttl = config.ttl;
    origin = config.origin;
    window = 0;
    logins = 0;
  }

  abbrev decoded_key : Option (List ℕ) → Option (List ℕ)
  decoded_key none = none
  decoded_key (some raw) = if length raw == 32 then some (c.digest raw) else none

  -- The key of the one cookie of the session.
  unfoldable pub cookie_key : Request → Option (List ℕ)
  cookie_key r = elim (single r.cookies) [
    | none ↦ none
    | some value ↦ if length value == 43 then decoded_key (c.decode value) else none
  ]

  -- `valid`: the key is found in what is left of the sessions, before its expiry.
  unfoldable pub valid : Request → ℕ → Sessions → Bool × Sessions
  unfolding prune lookup
  valid r now s = elim (cookie_key r) [
    | none ↦ (false, s)
    | some key ↦
        (alive now (lookup key (prune now s.entries)), record s { entries = prune now s.entries })
  ]

  -- The first part of `login`: whether it is within the limit of its minute.
  unfoldable pub admit_login : ℕ → Sessions → Bool × Sessions
  admit_login now s =
      let s' = if leb (s.window + minute) now then record s { window = now; logins = 0 } else s in
      if leb max_logins s'.logins then (false, s') else (true, record s' { logins = s'.logins + 1 })

  -- Whether a new key is taken, or the map is full and the request has no session to replace.
  abbrev pub no_room : Request → List ℕ → List (List ℕ × ℕ) → Bool
  no_room r key entries =
      let old = cookie_key r in
      is_some (lookup key entries)
      || (leb max_sessions (length entries) && not (is_entry old entries))

  -- The last part of `login`: a new session for the random bytes, in place of the one that the request
  -- came with.
  unfoldable pub open_session : Request → ℕ → List ℕ → Sessions → Answer × Sessions
  open_session r now raw s =
      let entries = prune now s.entries in
      let key = c.digest raw in
      let expiry = now + s.ttl in
      if no_room r key entries then (unavailable, record s { entries = entries }) else (
        logged_in (c.encode raw) expiry,
        record s { entries = insert key expiry (without (cookie_key r) entries) },
      )

  -- `login` behind the limit: the random bytes are `none` when they cannot be read.
  unfoldable pub check_login :
      Request → ℕ → Option (List ℕ) → Sessions → Option (List ℕ) → Answer × Sessions
  check_login r now random s none = (auth_failure, s)
  check_login r now random s (some secret) =
      if ltb 256 (length secret) || not (same (c.digest secret) s.secret)
      then (auth_failure, s)
      else elim random [ none ↦ (unavailable, s) | some raw ↦ open_session r now raw s ]

  -- `login`, at two readings of the clock.
  unfoldable pub login : Request → ℕ → ℕ → Option (List ℕ) → Sessions → Answer × Sessions
  login r now later random s =
      let (admitted, s') = admit_login now s in
      if not admitted
      then (refused 429 (codes "login_limited"), s')
      else check_login r later random s' (c.login_secret r.body)

  unfoldable pub logout : Request → Sessions → Sessions
  logout r s = record s { entries = without (cookie_key r) s.entries }
