-- ===== src/System/Typed.antt =====
-- The server's answers are of the types that the panel's client declares.
pub mod Values
pub mod Answered
use telemux.Server.Users.{
  enables, renews, deletes, creates, Write, change, create_answered, perform, list_users, UserAdmin,
  disables, handle, barred, require_master, page_answered,
}
use telemux.Web.Types.{
  is_string, is_me, is_version, is_object, is_array_of, or_null, every, is_role, is_sync_status,
  is_node, is_user,
}
use telemux.Base.{
  nat_eq, not, if◌then◌else◌, Option-cases, ℕ, String, Bool, true, false, ◌&&◌, Option, none, some,
  List, [], ◌∷◌, Result, ok, err, ◌≡◌, refl, arith, string_eq, Result-cases, inl, inr,
}
use telemux.Store.{store_failed, StoreError, is_in_recovery, user_exists, User, Node}
use telemux.Web.Api.{is_ok, Response, j, response}
use telemux.System.Http.{
  about_login, logged_out, about_me, dispatch, Site, routed, State, Incoming, no_session, no_route,
  to_server, gated, handler, seen, Reply, of_server, of_users, of_cluster,
}
use telemux.Server.Routes.{version_is, respond, post_sync, role_answered, status_is}
use telemux.Server.Cluster.{
  serve, Deps, ClusterStore, lists, beats, asks_token, joins, nodes_answered,
}
use telemux.Server.Mux.{
  Route, at_role, at_status, at_users, at_nodes, at_healthz, at_index, at_login, at_logout, at_user,
  at_new_user, at_renew, at_enable, at_disable, at_heartbeat, at_join_token, at_join, at_me,
  at_version, at_sync,
}
use telemux.System.Panel.{store_admin, store_cluster}
use telemux.System.Typed.Values.{status_value-typed, page_value-typed, node_values-typed}
use telemux.Web.Settled.{answers_as}
use telemux.Role.{detect, Role}
use telemux.Auth.{login, me, logout, Gate, passed, unauthorized, wrap}
use telemux.Server.Query.{atoi_default}
use telemux.Base.Int.{pos, ℤ}
use telemux.Server.Users
use telemux.Server.Cluster
use telemux.Sync.{SyncError}
use telemux.Server.Runs.{SyncStatus}
use telemux.Web.Value.{Value, get_opt, null, str, num}
use telemux.Web.View.Kept.{or_failed, is_page, is_node_list}
use telemux.System.Answers.{
  user_value, node_value, user_values, node_values, status_value, page_value, answer_of,
  error_answer,
}
use telemux.System.Typed.Answered.{
  Answers, typed_for, is_json, roles-typed, me-typed, login-typed, logout-typed, version-typed,
  status-typed, pages-typed, handle-typed, serve-typed, nodes_served-typed,
}

module _ (format_time : ℕ → String) (error_text : SyncError → String) {N : Type 0}
    (site : Site N) where
  dispatch-typed :
      (r : Route) (q : Incoming) (s : State N)
      → is_json r ≡ true
      → Answers format_time error_text (typed_for r) (dispatch site r q s).0
  unfolding dispatch typed_for respond list_users
  dispatch-typed at_healthz q s h = absurd (ground arith)
  dispatch-typed at_index q s h = absurd (ground arith)
  dispatch-typed at_me q s h = me-typed format_time error_text (me q.now (seen site q) s.auth).0
  dispatch-typed at_login q s h =
      let (user, password) = site.decoder.credentials q.body in
      login-typed format_time error_text (login q.now q.drawn_session user password s.auth).0
  dispatch-typed at_logout q s h = logout-typed format_time error_text
  dispatch-typed at_version q s h = version-typed format_time error_text site.deps.version
  dispatch-typed at_role q s h = roles-typed format_time error_text (is_in_recovery s.db).0
  dispatch-typed at_status q s h = status-typed format_time error_text s.last_sync
  dispatch-typed at_sync q s h =
      status-typed format_time error_text (to_server site (post_sync q.now_after) s).1.last_sync
  dispatch-typed at_users q s h =
      pages-typed format_time error_text (store_admin site.collates) (atoi_default q.limit (pos 20))
        (atoi_default q.offset (pos 0)) _
  dispatch-typed at_new_user q s h =
      handle-typed format_time error_text (store_admin site.collates)
        (creates (site.decoder.new_user q.body)) s.dirty s.db
  dispatch-typed (at_user name) q s h =
      handle-typed format_time error_text (store_admin site.collates) (deletes name) s.dirty s.db
  dispatch-typed (at_renew name) q s h =
      handle-typed format_time error_text (store_admin site.collates)
        (renews name (site.decoder.renewal q.body)) s.dirty s.db
  dispatch-typed (at_enable name) q s h =
      handle-typed format_time error_text (store_admin site.collates) (enables name) s.dirty s.db
  dispatch-typed (at_disable name) q s h =
      handle-typed format_time error_text (store_admin site.collates) (disables name) s.dirty s.db
  dispatch-typed at_nodes q s h =
      nodes_served-typed format_time error_text site.deps (store_cluster site.collates) s.db
  dispatch-typed at_heartbeat q s h =
      serve-typed format_time error_text site.deps (store_cluster site.collates)
        (beats q.authorization (site.decoder.node q.body)) s.db
  dispatch-typed at_join_token q s h =
      serve-typed format_time error_text site.deps (store_cluster site.collates)
        (asks_token q.authorization q.drawn_token) s.db
  dispatch-typed (at_join token) q s h =
      serve-typed format_time error_text site.deps (store_cluster site.collates) (joins token) s.db

  gated-typed :
      (g : Gate) (r : Route) (q : Incoming) (s : State N)
      → is_json r ≡ true
      → Answers format_time error_text (typed_for r) (gated site g (some r) q s).0
  unfolding gated routed answers_as answer_of error_answer get_opt string_eq
  gated-typed unauthorized r q s h = refl
  gated-typed passed r q s h = dispatch-typed r q s h

  -- Every request that the mux hands to a route of the API is answered with JSON, whoever asks and
  -- whatever the state of the server: a success carries a value of the type that the panel's
  -- client declares for that route, or null for an empty list of nodes, and any other status an object with the text of an error.
  pub handler-typed :
      (q : Incoming) (s : State N) (r : Route)
      → site.mux q.method q.url ≡ some r
      → is_json r ≡ true
      → answers_as (typed_for r) (answer_of format_time error_text (handler site q s).0) ≡ true
  unfolding handler
  handler-typed q s r found h =
      let looked = wrap q.now (seen site q) s.auth in
      rw (found, handler) (gated-typed looked.0 r q (record s { auth = looked.1 }) h)
