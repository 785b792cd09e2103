-- ===== src/Telemt.antt =====
-- The client of a node's machine API, internal/telemt. The HTTP round trip is a function on a world
-- `W`, and what `encoding/json` reads from a body is a parameter. The texts of errors are kept
-- without the method, the path and the nested error that the code adds to them.
pub mod Verdicts
pub mod Received
pub mod Requests
use telemux.Base.{
  ℕ, String, ◌<>◌, Bool, true, false, ◌&&◌, Option, none, some, List, [], ◌∷◌, ◌++◌, map, Result,
  ok, err, ◌==◌, string_eq, nat_eq, leb, ltb, if◌then◌else◌, ◌||◌,
}
use telemux.Base.Int.{ℤ}
use telemux.Base.Text.{contains, trim_space, trim_slashes}
use telemux.Diff.{RemoteUser, SyncOp, OpKind, create, patch, delete, other, PatchFields}
use telemux.Sync.{NodeError, classified, plain, NodeApi}

pub record Client : Type 0 where
  pub base_url : String
  pub auth_header : String

unfoldable pub new : String → String → Client
new base_url auth_header = record { base_url = trim_slashes base_url; auth_header = auth_header }

-- The JSON that the client writes: an object of these, in order.
pub data JsonValue : Type 0 where
  null : JsonValue
  bool : Bool → JsonValue
  num : ℤ → JsonValue
  str : String → JsonValue

abbrev pub Body : Type 0
Body = List (String × JsonValue)

-- A header that is not set is `none`.
pub record Request : Type 0 where
  pub method : String
  pub url : String
  pub authorization : Option String
  pub content_type : Option String
  pub if_match : Option String
  pub body : Option Body

-- The answer to a request: an error of the round trip, or a status and the text of the body.
pub data Answer : Type 0 where
  failed : String → Answer
  answered : ℕ → String → Answer

pub record Envelope : Type 0 where
  pub is_ok : Bool
  pub payload : String
  pub revision : String

-- The fields of `userInfo` that are used.
pub record UserInfo : Type 0 where
  pub username : String
  pub enabled : Bool
  pub max_tcp_conns : Option ℤ
  pub expiration_rfc3339 : Option String

pub record Health : Type 0 where
  pub status : String
  pub read_only : Bool

-- `json.Unmarshal` into each type; `none` is an error.
pub record Decoder : Type 0 where
  pub envelope : String → Option Envelope
  pub users : String → Option (List UserInfo)
  pub health : String → Option Health

-- `if s != "" { req.Header.Set(…, s) }`
abbrev header_unless_empty : String → Option String
header_unless_empty s = if s == "" then none else some s

pub record ApiError : Type 0 where
  pub status : ℕ
  pub body : String

unfoldable pub revision_conflict : ApiError → Bool
revision_conflict e = nat_eq e.status 409 && contains e.body "revision"

unfoldable pub read_only : ApiError → Bool
read_only e = nat_eq e.status 403 && contains e.body "read_only"

unfoldable pub already_done : ApiError → Bool
already_done e =
    if nat_eq e.status 404 then true else nat_eq e.status 409 && contains e.body "user_exists"

-- An `*APIError` as the synchronisation sees it.
unfoldable pub node_error : ApiError → NodeError
unfolding revision_conflict read_only already_done
node_error e =
    classified
      (record {
        revision_conflict = revision_conflict e;
        read_only = read_only e;
        already_done = already_done e;
      })
      e.body

-- The optional members of `createReq`, left out when empty.
abbrev unless_empty : String → String → Body
unless_empty k s = if s == "" then [] else (k, str s) ∷ []

abbrev pub if_some {ℓ} : {A : Type ℓ} → String → (A → JsonValue) → Option A → Body
if_some k f none = []
if_some k f (some a) = (k, f a) ∷ []

unfoldable pub create_body : SyncOp → Body
create_body op =
    ("username", str op.username) ∷ []
    ++ unless_empty "secret" op.secret
    ++ if_some "max_tcp_conns" num op.max_tcp_conns
    ++ if_some "expiration_rfc3339" str op.expiration_rfc3339
    ++ ("enabled", bool true) ∷ []

-- A pointer: `nil` becomes null.
abbrev pub pointer {ℓ} : {A : Type ℓ} → (A → JsonValue) → Option A → JsonValue
pointer f none = null
pointer f (some a) = f a

-- The map of the patch, which is written with its keys sorted.
unfoldable pub patch_body : PatchFields → Body
patch_body f =
    if_some "enabled" bool f.enabled
    ++ (if f.set_expiration
        then ("expiration_rfc3339", pointer str f.expiration_rfc3339) ∷ []
        else [])
    ++ (if f.set_max_tcp_conns then ("max_tcp_conns", pointer num f.max_tcp_conns) ∷ [] else [])

module _ (c : Client) where
  mutation : String → String → Option Body → String → Request
  mutation method path body if_match = record {
    method = method;
    url = c.base_url <> path;
    authorization = header_unless_empty c.auth_header;
    content_type = elim body [ none ↦ none | some _ ↦ some "application/json" ];
    if_match = header_unless_empty if_match;
    body = body;
  }

  -- The request of `ApplyOp`, or the error for an operation that it does not know.
  unfoldable pub op_request : SyncOp → OpKind → String → Result String Request
  unfolding mutation create_body patch_body
  op_request op create if_match = ok (mutation "POST" "/v1/users" (some (create_body op)) if_match)
  op_request op patch if_match =
      ok (mutation "PATCH" ("/v1/users/" <> op.username) (some (patch_body op.fields)) if_match)
  op_request op delete if_match = ok (mutation "DELETE" ("/v1/users/" <> op.username) none if_match)
  op_request op (other kind) if_match = err ("неизвестная операция: " <> kind)

  get_request : String → Request
  get_request path = record {
    method = "GET";
    url = c.base_url <> path;
    authorization = header_unless_empty c.auth_header;
    content_type = none;
    if_match = none;
    body = none;
  }

  module _ (json : Decoder) {W : Type 0} (send : Request → W → Answer × W) where
    mutated_envelope : Option Envelope → Result NodeError String
    mutated_envelope none = err (plain "разбор envelope")
    mutated_envelope (some env) = ok env.revision

    -- `mutate`, from the answer on.
    unfoldable pub mutated : Answer → Result NodeError String
    unfolding mutated_envelope
    mutated (failed e) = err (plain e)
    mutated (answered status body) =
        if ltb status 200 || leb 300 status
        then err (node_error (record { status = status; body = trim_space body }))
        else mutated_envelope (json.envelope body)

    apply_request : Result String Request → W → Result NodeError String × W
    unfolding mutated
    apply_request (err e) w = (err (plain e), w)
    apply_request (ok r) w = let (answer, w') = send r w in (mutated answer, w')

    unfoldable pub apply_op : SyncOp → String → W → Result NodeError String × W
    unfolding apply_request op_request
    apply_op op if_match w = apply_request (op_request op op.kind if_match) w

    checked_envelope : Option Envelope → Result String Envelope
    checked_envelope none = err "разбор envelope"
    checked_envelope (some env) = if env.is_ok then ok env else err "ok=false"

    -- `get`, from the answer on.
    got : Answer → Result String Envelope
    unfolding checked_envelope
    got (failed e) = err e
    got (answered status body) =
        if nat_eq status 200 then checked_envelope (json.envelope body) else err (trim_space body)

    remote_user : UserInfo → RemoteUser
    remote_user u = record {
      username = u.username;
      enabled = u.enabled;
      expiration_rfc3339 = u.expiration_rfc3339;
      max_tcp_conns = u.max_tcp_conns;
    }

    listed : String → Option (List UserInfo) → Result String (List RemoteUser × String)
    unfolding remote_user
    listed revision none = err "/v1/users: разбор data"
    listed revision (some raw) = ok (map remote_user raw, revision)

    users_of : Result String Envelope → Result String (List RemoteUser × String)
    unfolding listed
    users_of (err e) = err e
    users_of (ok env) = listed env.revision (json.users env.payload)

    unfoldable pub list_users : W → Result String (List RemoteUser × String) × W
    unfolding got users_of get_request
    list_users w =
        let (answer, w') = send (get_request "/v1/users") w in (users_of (got answer), w')

    health_of : Result String Envelope → Result String Health
    health_of (err e) = err e
    health_of (ok env) = elim (json.health env.payload) [
      | none ↦ err "/v1/health: разбор data"
      | some h ↦ ok h
    ]

    unfoldable pub health : W → Result String Health × W
    unfolding got health_of get_request
    health w = let (answer, w') = send (get_request "/v1/health") w in (health_of (got answer), w')

    -- The client as the node's API of the synchronisation.
    abbrev pub client_api : NodeApi W
    client_api = record { list_users = list_users; apply_op = apply_op }
