-- ===== src/System/Http.antt =====
-- The server as a whole, `New`, `Handler` and `routes` of internal/server/server.go as `runServe` of
-- cmd/telemux/main.go sets it up: the middleware, the mux, and behind it every route over the store,
-- the node and the sessions.
use telemux.Base.{◌∷◌, List, [], ℕ, String, Bool, Option, none, some, Result}
use telemux.Diff.Safety.{Float64}
use telemux.Sync.{NodeApi, DesiredSource, Options}
use telemux.Auth.{Auth, Gate, passed, unauthorized, wrap, login, logout, me}
use telemux.Auth
use telemux.Store.{Db, Node, is_in_recovery}
use telemux.Store.Users.{list_desired}
use telemux.Server.Runs.{SyncStatus}
use telemux.Server.Users.{
  UserAdmin, NewUser, Write, creates, deletes, renews, enables, disables, handle, list_users,
}
use telemux.Server.Users
use telemux.Server.Cluster.{ClusterStore, Deps, serve, lists, beats, asks_token, joins}
use telemux.Server.Cluster
use telemux.Server.Routes.{Server, respond, healthz, get_version, get_role, get_status, post_sync}
use telemux.Server.Routes
use telemux.Server.Index.{Bundle, Page, handle_index}
use telemux.Server.Mux.{
  Route, at_healthz, at_version, at_role, at_status, at_sync, at_me, at_login, at_logout, at_users,
  at_new_user, at_user, at_renew, at_enable, at_disable, at_nodes, at_heartbeat, at_join_token,
  at_join, at_index,
}
use telemux.System.Panel.{store_admin, store_cluster}

-- A request, with the clock when it is served and what crypto/rand draws for it. A cookie or a
-- parameter that is not there is `none` or empty; `now_after` is the clock at the end of a run.
pub record Incoming : Type 0 where
  pub method : String
  pub url : String
  pub cookie : Option String
  pub authorization : String
  pub limit : String
  pub offset : String
  pub body : String
  pub now : ℕ
  pub now_after : ℕ
  pub drawn_session : String
  pub drawn_token : Result String String

-- What encoding/json reads from a body into the structures of the handlers, `none` for an error.
pub record Decoder : Type 0 where
  pub credentials : String → String × String
  pub new_user : String → Option NewUser
  pub renewal : String → Option (Option ℕ)
  pub node : String → Option Node

pub data Reply : Type 0 where
  no_session : Reply
  about_me : Bool × Bool → Reply
  about_login : Option String → Reply
  logged_out : Reply
  of_users : Users.Response → Reply
  of_cluster : Cluster.Response → Reply
  of_server : Routes.Response → Reply
  of_index : Page → Reply
  -- 404 or 405 of the mux.
  no_route : Reply

pub record State (N : Type 0) : Type 0 where
  pub auth : Auth
  pub last_sync : SyncStatus
  pub dirty : Bool
  pub db : Db
  pub node : N

-- What the server is set up with, and what it uses of packages outside the repository.
pub record Site (N : Type 0) : Type 1 where
  pub parse_time : String → Option ℕ
  pub f : Float64
  pub format_time : ℕ → String
  pub collates : String → String → Bool
  pub opts : Options f
  pub node : NodeApi N
  pub deps : Deps
  pub decoder : Decoder
  pub bundle : Bundle
  pub mux : String → String → Option Route
  pub path : String → String

module _ {N : Type 0} where
  abbrev pub at_db : {A : Type 0} → (Db → A × Db) → Db × N → A × (Db × N)
  at_db f (db, n) = let (a, db') = f db in (a, (db', n))

  abbrev pub at_node : {A : Type 0} → (N → A × N) → Db × N → A × (Db × N)
  at_node f (db, n) = let (a, n') = f n in (a, (db, n'))

  abbrev pub both_node : NodeApi N → NodeApi (Db × N)
  both_node node = record {
    list_users = at_node node.list_users;
    apply_op = λ op rev. at_node (node.apply_op op rev);
  }

  abbrev pub both_source : (String → String → Bool) → (ℕ → String) → DesiredSource (Db × N)
  both_source collates format_time = record {
    list_desired = at_db (list_desired collates format_time);
  }

  with_users : Users.Response × Bool × Db → State N → Reply × State N
  with_users (answer, dirty, db) s = (of_users answer, record s { dirty = dirty; db = db })

  with_listed : Users.Response × Db → State N → Reply × State N
  with_listed (answer, db) s = (of_users answer, record s { db = db })

  with_cluster : Cluster.Response × Db → State N → Reply × State N
  with_cluster (answer, db) s = (of_cluster answer, record s { db = db })

  with_server : Routes.Response × Server (Db × N) → State N → Reply × State N
  with_server (answer, server) s = (
    of_server answer,
    record s { last_sync = server.last_sync; db = server.world.0; node = server.world.1 },
  )

  with_auth : Reply → Auth → State N → Reply × State N
  with_auth answer a s = (answer, record s { auth = a })

  module _ (site : Site N) where
    unfoldable pub to_server : Routes.Request → State N → Reply × State N
    unfolding with_server
    to_server r s =
        with_server
          (respond site.parse_time site.f site.deps.version (at_db is_in_recovery)
            (both_node site.node) (both_source site.collates site.format_time) site.opts r
            (record { last_sync = s.last_sync; world = (s.db, s.node) }))
          s

    unfoldable pub to_users : Write → State N → Reply × State N
    unfolding with_users
    to_users w s = with_users (handle (store_admin site.collates) w s.dirty s.db) s

    to_cluster : Cluster.Request → State N → Reply × State N
    unfolding with_cluster
    to_cluster r s = with_cluster (serve site.deps (store_cluster site.collates) r s.db) s

    unfoldable pub seen : Incoming → Auth.Request
    seen q = record { path = site.path q.url; cookie = q.cookie }

    -- The handler of a route: those of server.go, then `auth.routes`, `routesUsers`, `routesCluster`.
    unfoldable pub dispatch : Route → Incoming → State N → Reply × State N
    unfolding to_server to_users to_cluster with_listed with_auth seen
    dispatch at_healthz q s = to_server healthz s
    dispatch at_version q s = to_server get_version s
    dispatch at_role q s = to_server get_role s
    dispatch at_status q s = to_server get_status s
    dispatch at_sync q s = to_server (post_sync q.now_after) s
    dispatch at_me q s =
        let (answer, a) = me q.now (seen q) s.auth in with_auth (about_me answer) a s
    dispatch at_login q s =
        let (user, password) = site.decoder.credentials q.body in
        let (answer, a) = login q.now q.drawn_session user password s.auth in
        with_auth (about_login answer) a s
    dispatch at_logout q s = with_auth logged_out (logout (seen q) s.auth) s
    dispatch at_users q s =
        with_listed (list_users (store_admin site.collates) q.limit q.offset s.db) s
    dispatch at_new_user q s = to_users (creates (site.decoder.new_user q.body)) s
    dispatch (at_user name) q s = to_users (deletes name) s
    dispatch (at_renew name) q s = to_users (renews name (site.decoder.renewal q.body)) s
    dispatch (at_enable name) q s = to_users (enables name) s
    dispatch (at_disable name) q s = to_users (disables name) s
    dispatch at_nodes q s = to_cluster lists s
    dispatch at_heartbeat q s = to_cluster (beats q.authorization (site.decoder.node q.body)) s
    dispatch at_join_token q s = to_cluster (asks_token q.authorization q.drawn_token) s
    dispatch (at_join token) q s = to_cluster (joins token) s
    dispatch at_index q s = (of_index (handle_index site.bundle (site.path q.url)), s)

    unfoldable pub routed : Option Route → Incoming → State N → Reply × State N
    routed none q s = (no_route, s)
    routed (some r) q s = dispatch r q s

    unfoldable pub gated : Gate → Option Route → Incoming → State N → Reply × State N
    unfolding routed
    gated unauthorized r q s = (no_session, s)
    gated passed r q s = routed r q s

    -- `Handler`
    unfoldable pub handler : Incoming → State N → Reply × State N
    unfolding gated seen
    handler q s =
        let (gate, a) = wrap q.now (seen q) s.auth in
        gated gate (site.mux q.method q.url) q (record s { auth = a })

    -- Requests one after another, with the replies.
    unfoldable pub served : List Incoming → State N → List Reply × State N
    served [] s = ([], s)
    served (q ∷ qs) s =
        let (answer, s1) = handler q s in let (answers, s2) = served qs s1 in (answer ∷ answers, s2)
