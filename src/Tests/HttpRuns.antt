-- ===== src/Tests/HttpRuns.antt =====
-- The whole server, and the panel with it, at concrete requests.
use telemux.Base.{
  ok, ◌⊎◌, ℕ, zero, ap, String, true, false, none, some, List, [], ◌∷◌, All, ◌≡◌, ◌≢◌, refl, arith,
  ◌==◌, string_eq, if◌then◌else◌,
}
use telemux.Tests.Sites.{
  first, path_of, mux, mux-IsSound, decoder, files, site, closed, asks, intruder,
}
use telemux.Base.Int.{ℤ, pos}
use telemux.Base.Dict.{lookup}
use telemux.Cli.{env_or}
use telemux.Sync.{SyncError}
use telemux.Auth.{new_auth, valid, wrap, is_public}
use telemux.Web.Value.{Value}
use telemux.Web.Api.{Call, request, users, delete_user, response, j}
use telemux.Web.Settled.{Settles}
use telemux.Web.Dashboard.{initial, Source, from_version, from_role, from_sync, from_users}
use telemux.Web.App.{App, loading, panel, all, answered, LoginForm, login_form}
use telemux.Web.App.Events.{step, take_task}
use telemux.Server.Mux.{takes, fits, verb, filled}
use telemux.System.Http.{seen, Incoming, State, handler, served, gated, routed, dispatch, to_users}
use telemux.System.Answers.{answer_of}
use telemux.System.Guarded.{is_open, Untouched, handler-guarded}
use telemux.System.Unique.{IsKeyed}
use telemux.System.Marks.{served-Signals}
use telemux.Store.Table.{affected}
use telemux.Store.{is_in_recovery, select}
use telemux.Server.Users.{handle, perform, require_master}
use telemux.Role.{detect}
use telemux.Role
use telemux.System.Serve.{ServeFlags, Packages, serve_defaults, site_of, start_of}
use telemux.System.Closed.{start-guarded}
use telemux.System.Reads.{route_for, may_fail}
use telemux.System.Calls.{with_segment, query, with_query, sent, request-route_for, call-Settles}
use telemux.System.Expired.{Stranger, call_for, loaded_by, step-expired}
use telemux.Tests.Samples.{parse_sample, fractions}
use telemux.Tests.SyncRuns.{World, node, disturbed}
use telemux.Tests.StoreRuns.{db, db-IsUnique, tokens-IsUnique, text_order, format_sample}

-- Somebody else is logged in.
abbrev in_use : State World
in_use = record closed { auth = record (new_auth "admin" "pw") { sessions = ("real", 5000) ∷ [] } }

handler-guarded_example :
    (is_open (handler site intruder in_use).0 ≡ true)
    × Untouched in_use (handler site intruder in_use).1
unfolding valid new_auth string_eq lookup
handler-guarded_example = handler-guarded site intruder in_use mux-IsSound refl refl

abbrev packages : Packages World
packages = record {
  parse_time = parse_sample;
  f = fractions;
  format_time = format_sample;
  collates = text_order;
  decoder = decoder;
  bundle = files;
  mux = mux;
  path = path_of;
  new_client = λ api auth. node;
}

abbrev env : String → String
env key = if key == "TELEMUX_ADMIN_PASSWORD" then "pw" else ""

abbrev flags : ServeFlags
flags = serve_defaults env

-- A wrong password, and a user to delete.
abbrev attacks : List Incoming
attacks = asks "POST" "/api/login" "guess" ∷ intruder ∷ []

password_set : env "TELEMUX_ADMIN_PASSWORD" ≢ ""
unfolding string_eq
password_set e =
    let wrong : false ≡ true = ap (λ (t : String). t == "") e in absurd (ground (arith, wrong))

start-guarded_example :
    All
      (λ answer. is_open answer ≡ true)
      (served
        (site_of packages "v1.2.3" env flags)
        attacks
        (start_of packages "v1.2.3" env db disturbed)).0
    × Untouched
        (start_of packages "v1.2.3" env db disturbed)
        (served
          (site_of packages "v1.2.3" env flags)
          attacks
          (start_of packages "v1.2.3" env db disturbed)).1
unfolding start_of new_auth env_or string_eq
start-guarded_example =
    start-guarded packages "v1.2.3" env flags db disturbed attacks mux-IsSound password_set
      (refl, (refl, tt))

abbrev show_sample : ℕ → String
show_sample n = "status"

abbrev text_sample : Value → String
text_sample v = "value"

abbrev int_sample : ℤ → String
int_sample (pos zero) = "0"
int_sample n = "50"

abbrev failure_sample : SyncError → String
failure_sample e = "error"

abbrev unescaped : String → String
unescaped s = s

abbrev deletion : Call
deletion = delete_user "sub_b"

request-route_for_example :
    ((request int_sample unescaped (users none none)).method ≡ verb (route_for (users none none)))
    × ((path : String) × (filled (with_segment unescaped (route_for (users none none))) ≡ some path)
        × ((request int_sample unescaped (users none none)).url
            ≡ with_query path (query int_sample unescaped (users none none))))
request-route_for_example = request-route_for int_sample unescaped (users none none)

abbrev by_admin : String → String → Incoming
by_admin method url = record (asks method url "") { cookie = some "real" }

abbrev first_page : Incoming
first_page = by_admin "GET" "/api/users?limit=50&offset=0"

-- The administrator's request cannot fail.
first_page_safe : may_fail site (users none none) first_page in_use ≡ false
unfolding wrap valid new_auth lookup string_eq is_public seen
first_page_safe = refl

call-Settles_example :
    Settles
      (sent (users none none))
      (answer_of format_sample failure_sample (handler site first_page in_use).0)
      (j show_sample text_sample
        (response (answer_of format_sample failure_sample (handler site first_page in_use).0)))
    × ((may_fail site (users none none) first_page in_use ≡ true)
        ⊎ ((v : Value) × (j show_sample text_sample (
                response
                  (answer_of format_sample failure_sample (handler site first_page in_use).0))
              ≡ ok v)))
unfolding request route_for query verb string_eq filled mux first takes fits
call-Settles_example =
    call-Settles int_sample unescaped show_sample text_sample format_sample failure_sample site
      (users none none) first_page in_use "/api/users" refl refl refl refl

abbrev url_for : Source → String
url_for from_version = "/api/version"
url_for from_role = "/api/role"
url_for from_sync = "/api/sync/status"
url_for from_users = "/api/users?limit=50&offset=0"

abbrev ask : Source → Incoming × State World
ask src = (asks "GET" (url_for src) "", closed)

strangers : (src : Source) → Stranger site (call_for src) (ask src)
unfolding filled route_for new_auth valid string_eq lookup
strangers from_version = (refl, refl, refl)
strangers from_role = (refl, refl, refl)
strangers from_sync = (refl, refl, refl)
strangers from_users = (refl, refl, refl)

abbrev waiting : App
waiting = record { screen = panel initial; mounts = 1; tasks = (1, loading) ∷ [] }

step-expired_example :
    (app' : App) × (form : LoginForm) × (step unescaped
        (answered 0
          (all [] (loaded_by site show_sample text_sample format_sample failure_sample ask)))
        waiting
      ≡ some (app', []))
    × (app'.screen ≡ login_form form)
    × (app'.tasks ≡ [])
unfolding take_task
step-expired_example =
    step-expired site show_sample text_sample format_sample failure_sample unescaped 0 [] waiting 1
      [] ask refl strangers

db-IsKeyed : IsKeyed db
unfolding affected
db-IsKeyed = (db-IsUnique, λ k. omega arith, tokens-IsUnique)

-- A renewal without a body.
abbrev refused_command : List Incoming
refused_command = by_admin "POST" "/api/users/sub_b/renew" ∷ []

served-Signals_example :
    (in_use.dirty ≡ false) × ((served site refused_command in_use).1.db.users ≡ in_use.db.users)
unfolding served handler gated routed dispatch to_users handle perform mux first wrap valid new_auth
    lookup string_eq require_master is_in_recovery select is_public takes verb fits filled detect
    Role.is_master
served-Signals_example = served-Signals site refused_command in_use db-IsKeyed refl
