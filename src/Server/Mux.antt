-- ===== src/Server/Mux.antt =====
-- The routes that the server registers, `routes` of internal/server/server.go and auth.go,
-- `routesUsers` and `routesCluster`. http.ServeMux is a function from a method and the escaped path
-- of a URL to a route, with the values of the path's wildcards unescaped.
use telemux.Base.{String, ◌<>◌, Bool, true, ◌&&◌, ◌||◌, Option, none, some, ◌==◌, string_eq, ◌≡◌}

pub data Route : Type 0 where
  at_healthz at_version at_role at_status at_sync : Route
  at_me at_login at_logout : Route
  at_users at_new_user : Route
  at_user at_renew at_enable at_disable : String → Route
  at_nodes at_heartbeat at_join_token : Route
  at_join : String → Route
  at_index : Route

unfoldable pub verb : Route → String
verb at_sync = "POST"
verb at_login = "POST"
verb at_logout = "POST"
verb at_new_user = "POST"
verb (at_user _) = "DELETE"
verb (at_renew _) = "POST"
verb (at_enable _) = "POST"
verb (at_disable _) = "POST"
verb at_heartbeat = "POST"
verb at_join_token = "POST"
verb _ = "GET"

-- The path of a pattern with its wildcard filled in; the pattern of `handleIndex` fits every path.
unfoldable pub filled : Route → Option String
filled at_healthz = some "/healthz"
filled at_version = some "/api/version"
filled at_role = some "/api/role"
filled at_status = some "/api/sync/status"
filled at_sync = some "/api/sync"
filled at_me = some "/api/me"
filled at_login = some "/api/login"
filled at_logout = some "/api/logout"
filled at_users = some "/api/users"
filled at_new_user = some "/api/users"
filled (at_user name) = some ("/api/users/" <> name)
filled (at_renew name) = some ("/api/users/" <> (name <> "/renew"))
filled (at_enable name) = some ("/api/users/" <> (name <> "/enable"))
filled (at_disable name) = some ("/api/users/" <> (name <> "/disable"))
filled at_nodes = some "/api/nodes"
filled at_heartbeat = some "/api/cluster/heartbeat"
filled at_join_token = some "/api/cluster/join-token"
filled (at_join token) = some ("/join/" <> token)
filled at_index = none

unfoldable pub fits : Route → String → Bool
fits r path = elim (filled r) [ none ↦ true | some p ↦ path == p ]

-- A pattern for GET also takes HEAD.
unfoldable pub takes : String → String → Bool
takes registered m = m == registered || (registered == "GET" && m == "HEAD")

-- The mux hands a request only to a route whose pattern fits its method and its path; `path` is what
-- net/url makes of the escaped path.
pub record IsSound (mux : String → String → Option Route) (path : String → String) : Type 0 where
  pub sound :
      (m url : String) (r : Route)
      → mux m url ≡ some r
      → (takes (verb r) m && fits r (path url)) ≡ true
