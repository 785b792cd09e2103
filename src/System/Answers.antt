-- ===== src/System/Answers.antt =====
-- What the server's replies are to the panel's client: a status, and the JSON that `writeJSON` and
-- `writeErr` of internal/server/server.go encode, by the tags of the structures and the maps of the
-- handlers. A body that is no JSON is `none`.
use telemux.Base.{
  ℕ, String, true, Option, none, some, List, [], ◌∷◌, ◌==◌, string_eq, if◌then◌else◌,
}
use telemux.Base.Int.{ℤ, pos}
use telemux.Store.{User, Node}
use telemux.Sync.{Mode, shadow, apply, other, SyncError}
use telemux.Server.Runs.{SyncStatus}
use telemux.Server.Users.{created, listed}
use telemux.Server.Users
use telemux.Server.Cluster.{nodes, join_token, bundle}
use telemux.Server.Cluster
use telemux.Server.Routes.{alive, version_is, role_is, status_is}
use telemux.Server.Routes
use telemux.Server.Index.{Page, served, page, missing, not_built}
use telemux.Web.Value.{
  Value, null, obj, arr, str, num, bool, Members, member, no_members, Elements, element,
  no_elements,
}
use telemux.Web.Api.{Response}
use telemux.System.Http.{
  Reply, no_session, about_me, about_login, logged_out, of_users, of_cluster, of_server, of_index,
  no_route,
}

abbrev with_status : ℕ → Value → Response
with_status code v = record { status = code; body = some v }

-- `writeErr`
unfoldable pub error_answer : ℕ → String → Response
error_answer code e = with_status code (obj (member "error" (str e) no_members))

ok_answer : Response
ok_answer = with_status 200 (obj (member "ok" (bool true) no_members))

abbrev mode_text : Mode → String
mode_text shadow = "shadow"
mode_text apply = "apply"
mode_text (other s) = s

module _ (format_time : ℕ → String) (error_text : SyncError → String) where
  -- A pointer to a time, or to a number.
  abbrev time_or_null : Option ℕ → Value
  time_or_null none = null
  time_or_null (some t) = str (format_time t)

  abbrev number_or_null : Option ℤ → Value
  number_or_null none = null
  number_or_null (some n) = num n

  unfoldable pub user_value : User → Value
  user_value u = obj (
      member "username" (str u.username) (
        member "secret" (str u.secret) (
          member "expiration_at" (time_or_null u.expiration_at) (
            member "max_tcp_conns" (number_or_null u.max_tcp_conns) (
              member "enabled" (bool u.enabled)
                (member "created_at" (str (format_time u.created_at)) no_members))))))

  unfoldable pub node_value : Node → Value
  node_value n = obj (
      member "code" (str n.code) (
        member "name" (str n.name) (
          member "address" (str n.address) (
            member "telemt_api_url" (str n.telemt_api_url) (
              member "role" (str n.role) (
                member "enabled" (bool n.enabled)
                  (member "last_seen_at" (time_or_null n.last_seen_at) no_members)))))))

  unfoldable pub user_values : List User → Elements
  user_values [] = no_elements
  user_values (u ∷ us) = element (user_value u) (user_values us)

  unfoldable pub node_values : List Node → Elements
  node_values [] = no_elements
  node_values (n ∷ ns) = element (node_value n) (node_values ns)

  -- `omitempty`
  error_member : Option SyncError → Members
  error_member none = no_members
  error_member (some e) =
      if error_text e == "" then no_members else member "error" (str (error_text e)) no_members

  unfoldable pub status_value : SyncStatus → Value
  unfolding error_member
  status_value st = obj (
      member "at" (str (format_time st.at)) (
        member "mode" (str (mode_text st.mode)) (
          member "creates" (num (pos st.creates)) (
            member "patches" (num (pos st.patches)) (
              member "deletes" (num (pos st.deletes)) (
                member "applied" (num (pos st.applied)) (
                  member "failed" (num (pos st.failed))
                    (member "aborted" (bool st.aborted) (error_member st.error)))))))))

  unfoldable pub page_value : List User → ℕ → ℤ → ℤ → Value
  unfolding user_values
  page_value us total limit offset = obj (
      member "data" (arr (user_values us)) (
        member "paging"
          (obj (
            member "total" (num (pos total))
              (member "limit" (num limit) (member "offset" (num offset) no_members))))
          no_members))

  node_list : Option (List Node) → Value
  unfolding node_values
  node_list none = null
  node_list (some ns) = arr (node_values ns)

  users_answer : Users.Response → Response
  unfolding error_answer ok_answer page_value user_value
  users_answer (created u) = with_status 201 (user_value u)
  users_answer Users.Response.done = ok_answer
  users_answer (listed us total limit offset) = with_status 200 (page_value us total limit offset)
  users_answer (Users.Response.refused code e) = error_answer code e

  cluster_answer : Cluster.Response → Response
  unfolding error_answer ok_answer node_list
  cluster_answer (nodes ns) = with_status 200 (obj (member "nodes" (node_list ns) no_members))
  cluster_answer Cluster.Response.done = ok_answer
  cluster_answer (join_token token command) = with_status 200 (
      obj (
        member "command" (str command)
          (member "expires" (str "1h") (member "token" (str token) no_members))))
  cluster_answer (bundle url version) = with_status 200 (
      obj (
        member "master_url" (str url) (
          member "note"
            (str "join-bundle: дальше — конфиг Patroni/реплики + mTLS-cert (в разработке)")
            (member "version" (str version) no_members))))
  cluster_answer (Cluster.Response.refused code e) = error_answer code e

  server_answer : Routes.Response → Response
  unfolding error_answer status_value
  server_answer alive = record { status = 200; body = none }
  server_answer (version_is v) = with_status 200 (obj (member "version" (str v) no_members))
  server_answer (role_is name master) =
      with_status 200 (obj (member "is_master" (bool master) (member "role" (str name) no_members)))
  server_answer (status_is st) = with_status 200 (status_value st)
  server_answer (Routes.Response.refused code e) = error_answer code e

  index_answer : Page → Response
  index_answer (served path) = record { status = 200; body = none }
  index_answer (page html) = record { status = 200; body = none }
  index_answer missing = record { status = 404; body = none }
  index_answer not_built = record { status = 500; body = none }

  unfoldable pub answer_of : Reply → Response
  unfolding users_answer cluster_answer server_answer index_answer error_answer ok_answer
  answer_of no_session = error_answer 401 "unauthorized"
  answer_of (about_me (enabled, authed)) =
      with_status 200
        (obj (member "auth_enabled" (bool enabled) (member "authed" (bool authed) no_members)))
  answer_of (about_login none) = error_answer 401 "неверный логин или пароль"
  answer_of (about_login (some token)) = ok_answer
  answer_of logged_out = ok_answer
  answer_of (of_users r) = users_answer r
  answer_of (of_cluster r) = cluster_answer r
  answer_of (of_server r) = server_answer r
  answer_of (of_index p) = index_answer p
  answer_of no_route = record { status = 404; body = none }
