-- ===== src/Auth.antt =====
-- Sessions of the panel and the middleware that asks for one, internal/server/auth.go. The clock
-- and the random token are arguments, and a session's expiry is a time in seconds.
pub mod History
use telemux.Base.{
  [], ℕ, ◌+◌, String, Bool, true, false, ◌&&◌, ◌||◌, not, Option, none, some, ◌==◌, string_eq, ltb,
  if◌then◌else◌, starts_with,
}
use telemux.Base.Dict.{Dict, lookup, insert, erase}

pub record Auth : Type 0 where
  pub user : String
  pub pass : String
  pub enabled : Bool
  pub ttl : ℕ
  pub sessions : Dict ℕ

-- What the handlers look at in a request: the path, and the session cookie if there is one.
pub record Request : Type 0 where
  pub path : String
  pub cookie : Option String

unfoldable pub new_auth : String → String → Auth
new_auth user pass = record {
  user = if user == "" then "admin" else user;
  pass = pass;
  enabled = not (pass == "");
  ttl = 86400;
  sessions = [];
}

-- The body of `valid` under the lock, for the value of the cookie.
valid_session : ℕ → String → Auth → Bool × Auth
valid_session now token a = elim (lookup token a.sessions) [
  | none ↦ (false, a)
  | some exp ↦
      if ltb exp now then (false, record a { sessions = erase token a.sessions }) else (true, a)
]

unfoldable pub valid : ℕ → Request → Auth → Bool × Auth
unfolding valid_session
valid now r a = elim r.cookie [ none ↦ (false, a) | some token ↦ valid_session now token a ]

unfoldable pub is_public : String → Bool
is_public path =
    if path == "/healthz"
      || path == "/api/login"
      || path == "/api/me"
      || starts_with path "/api/cluster/"
      || starts_with path "/join/"
    then true
    else if not (starts_with path "/api/")
    then true
    else false

-- What the middleware does with a request: on to the handler, or 401.
pub data Gate : Type 0 where
  passed unauthorized : Gate

-- `!a.enabled || a.isPublic(path) || a.valid(r)`: the session is looked at only where the first two
-- are false.
unfoldable pub wrap : ℕ → Request → Auth → Gate × Auth
unfolding valid
wrap now r a =
    if not a.enabled || is_public r.path
    then (passed, a)
    else let (here, a') = valid now r a in (if here then passed else unauthorized, a')

-- `auth_enabled` and `authed` of GET /api/me.
unfoldable pub me : ℕ → Request → Auth → (Bool × Bool) × Auth
unfolding valid
me now r a =
    if not a.enabled
    then ((a.enabled, true), a)
    else let (here, a') = valid now r a in ((a.enabled, here), a')

-- POST /api/login: the token of the new session, or `none` for 401. A body that is no JSON leaves
-- both texts empty.
unfoldable pub login : ℕ → String → String → String → Auth → Option String × Auth
login now token username password a =
    if not a.enabled || not (username == a.user) || not (password == a.pass)
    then (none, a)
    else (some token, record a { sessions = insert token (now + a.ttl) a.sessions })

-- POST /api/logout
unfoldable pub logout : Request → Auth → Auth
logout r a = elim r.cookie [
  | none ↦ a
  | some token ↦ record a { sessions = erase token a.sessions }
]
