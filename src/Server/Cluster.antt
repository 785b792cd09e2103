-- ===== src/Server/Cluster.antt =====
-- internal/server/cluster.go: the routes of the cluster, and the heartbeat. The store acts on a world;
-- what `encoding/json` reads from a body is given, `none` for an error. `Deps.Cluster` is there, as
-- cmd/telemux/main.go sets it.
use Prim.Native.String.{len, slice}
use telemux.Base.{
  ℕ, String, ◌<>◌, Bool, true, false, Option, none, some, List, [], ◌∷◌, Result, ok, err, ◌==◌,
  string_eq, if◌then◌else◌, starts_with,
}
use telemux.Role.{Role, role_text, is_master, detect}
use telemux.Store.{Node}

pub record ClusterStore (W : Type 0) : Type 0 where
  pub list_nodes : W → Result String (List Node) × W
  pub upsert_node : Node → W → Result String (Unit {0}) × W
  pub create_join_token : String → ℕ → W → Result String (Unit {0}) × W
  pub consume_join_token : String → W → Result String Bool × W
  pub is_in_recovery : W → Result String Bool × W

-- The fields of `Deps` that these routes read.
pub record Deps : Type 0 where
  pub version : String
  pub cluster_secret : String
  pub public_url : String
  pub self_code : String
  pub self_address : String
  pub self_telemt_url : String
  pub master_url : String

-- strings.TrimPrefix
unfoldable pub trim_prefix : String → String → String
trim_prefix s p = if starts_with s p then slice s (len p) (len s) else s

-- `header` is the value of Authorization, empty where there is none.
unfoldable pub cluster_authed : String → String → Bool
cluster_authed secret header =
    if secret == "" then false else trim_prefix header "Bearer " == secret

-- The routes: the list of nodes; a heartbeat with its header and its body; a request for a token with
-- its header and the token that crypto/rand draws; a node that joins.
pub data Request : Type 0 where
  lists : Request
  beats : String → Option Node → Request
  asks_token : String → Result String String → Request
  joins : String → Request

-- A list of nodes that is empty is a nil slice, and is sent as null.
pub data Response : Type 0 where
  nodes : Option (List Node) → Response
  done : Response
  join_token : String → String → Response
  bundle : String → String → Response
  refused : ℕ → String → Response

or_null : List Node → Option (List Node)
or_null [] = none
or_null (n ∷ ns) = some (n ∷ ns)

unfoldable pub nodes_answered : Result String (List Node) → Response
unfolding or_null
nodes_answered (err e) = refused 503 e
nodes_answered (ok ns) = nodes (or_null ns)

beat_answered : Result String (Unit {0}) → Response
beat_answered (err e) = refused 503 e
beat_answered (ok _) = done

module _ (deps : Deps) {W : Type 0} (cluster : ClusterStore W) where
  token_answered : String → Result String (Unit {0}) → Response
  token_answered tok (err e) = refused 503 e
  token_answered tok (ok _) =
      join_token tok ("curl -fsSL " <> deps.public_url <> "/join/" <> tok <> " | sudo bash")

  join_answered : Result String Bool → Response
  join_answered (err e) = refused 503 e
  join_answered (ok false) = refused 410 "токен недействителен/использован/истёк"
  join_answered (ok true) = bundle deps.public_url deps.version

  unfoldable pub heartbeat : Option Node → W → Response × W
  unfolding beat_answered
  heartbeat none w = (refused 400 "нужен JSON с непустым code", w)
  heartbeat (some n) w =
      if n.code == ""
      then (refused 400 "нужен JSON с непустым code", w)
      else (let (answer, w') = cluster.upsert_node n w in (beat_answered answer, w'))

  unfoldable pub new_join_token : Result String String → W → Response × W
  unfolding token_answered
  new_join_token (err e) w = (refused 500 e, w)
  new_join_token (ok tok) w =
      let (answer, w') = cluster.create_join_token tok 3600 w in (token_answered tok answer, w')

  unfoldable pub serve : Request → W → Response × W
  unfolding nodes_answered heartbeat new_join_token join_answered
  serve lists w = let (answer, w') = cluster.list_nodes w in (nodes_answered answer, w')
  serve (beats header body) w =
      if cluster_authed deps.cluster_secret header
      then heartbeat body w
      else (refused 401 "неверный cluster-secret", w)
  serve (asks_token header drawn) w =
      if cluster_authed deps.cluster_secret header
      then new_join_token drawn w
      else (refused 401 "неверный cluster-secret", w)
  serve (joins tok) w =
      let (answer, w') = cluster.consume_join_token tok w in (join_answered answer, w')

  -- The node that describes itself.
  self : Role → Node
  self r = record {
    code = deps.self_code;
    name = "";
    address = deps.self_address;
    telemt_api_url = deps.self_telemt_url;
    role = role_text r;
    enabled = false;
    last_seen_at = none;
  }

  -- A POST of the heartbeat: its URL, its Authorization, its body.
  pub record Post : Type 0 where
    pub url : String
    pub authorization : Option String
    pub body : Node

  report_as : Role → W → Option Post × W
  unfolding self
  report_as r w =
      if is_master r
      then (none, (cluster.upsert_node (self r) w).1)
      else if deps.master_url == ""
      then (none, w)
      else (
        some (record {
          url = deps.master_url <> "/api/cluster/heartbeat";
          authorization =
              if deps.cluster_secret == "" then none else some ("Bearer " <> deps.cluster_secret);
          body = self r;
        }),
        w,
      )

  -- `reportHeartbeat`, with the request that it sends if any; its answer only goes to the log.
  unfoldable pub report_heartbeat : W → Option Post × W
  unfolding report_as
  report_heartbeat w =
      if deps.self_code == ""
      then (none, w)
      else (let (answer, w') = cluster.is_in_recovery w in
          elim (detect answer) [ err e ↦ (none, w') | ok r ↦ report_as r w' ])
