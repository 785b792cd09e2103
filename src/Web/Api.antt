-- ===== src/Web/Api.antt =====
-- The API client, internal/server/web/src/api.ts. `fetch` is given by what it comes back with; the
-- texts of a number and of a value that is no text, and `encodeURIComponent`, are parameters.
use telemux.Base.{
  ℕ, String, ◌<>◌, Bool, ◌&&◌, Option, none, some, Result, ok, err, leb, nat_eq, if◌then◌else◌,
}
use telemux.Base.Int.{ℤ, pos}
use telemux.Web.Value.{Value, undefined, null, str, obj, Members, no_members, member, get}

-- `RequestInit` with the URL.
pub record Request : Type 0 where
  pub method : String
  pub url : String
  pub content_type : Option String
  pub body : Option Value

-- The body is `none` where it is no JSON, and `json()` rejects.
pub record Response : Type 0 where
  pub status : ℕ
  pub body : Option Value

pub data Fetched : Type 0 where
  response : Response → Fetched
  rejected : String → Fetched

-- `r.ok`
abbrev pub is_ok : Response → Bool
is_ok r = leb 200 r.status && leb r.status 299

abbrev pub get_request : String → Request
get_request url = record { method = "GET"; url = url; content_type = none; body = none }

unfoldable pub post : String → Option Value → Request
post url body = record {
  method = "POST";
  url = url;
  content_type = some "application/json";
  body = body;
}

-- A field that is not given is `undefined`.
pub record NewUser : Type 0 where
  pub username : String
  pub expiration_at : Value
  pub max_tcp_conns : Value

-- `JSON.stringify` leaves out a field that is `undefined`.
abbrev with_field : String → Value → Members → Members
with_field k undefined fs = fs
with_field k v fs = member k v fs

unfoldable pub new_user_body : NewUser → Value
new_user_body u = obj (
    member "username" (str u.username) (
      with_field "expiration_at" u.expiration_at
        (with_field "max_tcp_conns" u.max_tcp_conns no_members)))

-- A string or `null`.
abbrev pub nullable : Option String → Value
nullable none = null
nullable (some s) = str s

module _ (show : ℕ → String) (to_text : Value → String) where
  -- `new Error(v).message`
  message_of : Value → String
  message_of (str s) = s
  message_of v = to_text v

  or_status : Result String Value → String → String
  unfolding message_of
  or_status (err _) msg = msg
  or_status (ok undefined) msg = msg
  or_status (ok null) msg = msg
  or_status (ok v) msg = message_of v

  -- The body's `error`, or the status where there is none.
  unfoldable pub error_message : Response → String
  unfolding or_status
  error_message r = elim r.body [
    | none ↦ show r.status
    | some v ↦ or_status (get v "error") (show r.status)
  ]

  read_json : Option Value → Result String Value
  read_json none = err "Unexpected end of JSON input"
  read_json (some v) = ok v

  read_response : Response → Result String Value
  unfolding error_message read_json
  read_response r =
      if is_ok r
      then if nat_eq r.status 204 then ok undefined else read_json r.body
      else err (error_message r)

  -- What the promise of `j` settles to.
  unfoldable pub j : Fetched → Result String Value
  unfolding read_response
  j (rejected message) = err message
  j (response r) = read_response r

-- The methods of `api` with their arguments.
pub data Call : Type 0 where
  me logout version role sync_status sync_now nodes : Call
  login : String → String → Call
  users : Option ℤ → Option ℤ → Call
  create_user : NewUser → Call
  delete_user : String → Call
  renew_user : String → Option String → Call
  enable_user : String → Bool → Call

abbrev pub given_or : Option ℤ → ℤ → ℤ
given_or none d = d
given_or (some n) d = n

module _ (show_int : ℤ → String) (encode_uri_component : String → String) where
  user_url : String → String
  user_url username = "/api/users/" <> encode_uri_component username

  -- What each method hands to `fetch`.
  unfoldable pub request : Call → Request
  unfolding user_url post new_user_body
  request me = get_request "/api/me"
  request (login username password) =
      post "/api/login" (
        some (obj (member "username" (str username) (member "password" (str password) no_members))))
  request logout = post "/api/logout" none
  request version = get_request "/api/version"
  request role = get_request "/api/role"
  request sync_status = get_request "/api/sync/status"
  request sync_now = record (get_request "/api/sync") { method = "POST" }
  request nodes = get_request "/api/nodes"
  request (users limit offset) = get_request (
      "/api/users?limit="
      <> show_int (given_or limit (pos 50))
      <> "&offset="
      <> show_int (given_or offset (pos 0)))
  request (create_user u) = post "/api/users" (some (new_user_body u))
  request (delete_user username) = record (get_request (user_url username)) { method = "DELETE" }
  request (renew_user username expiration_at) =
      post (user_url username <> "/renew")
        (some (obj (member "expiration_at" (nullable expiration_at) no_members)))
  request (enable_user username on) =
      post (user_url username <> "/" <> (if on then "enable" else "disable")) none
