-- ===== src/Web/App.antt =====
-- The panel as a machine, internal/server/web/src/App.tsx: its screens, the handlers that wait for
-- an answer, and what each event does. An answer may come at any time and in any order.
pub mod Events
use telemux.Base.{
  ℕ, zero, suc, ◌+◌, String, Bool, true, false, not, Option, none, some, List, [], ◌∷◌, ◌++◌,
  Result, ok, err, ◌==◌, string_eq, nat_eq, if◌then◌else◌,
}
use telemux.Web.Value.{null, Value, undefined, bool, get, truthy, and_also}
use telemux.Web.Api.{Call, me, login, logout, version, role, sync_status, nodes, users, NewUser}
use telemux.Web.Api
use telemux.Web.Dashboard.{
  Dashboard, initial, Loaded, Source, promise_all, refresh_data, load_nodes, log_out, refresh_nodes,
  Next, Action, sync_now, create_user, enable_user, delete_user, act_started, act_settled,
}

pub record LoginForm : Type 0 where
  pub user : String
  pub password : String
  pub error : String

abbrev pub empty_form : LoginForm
empty_form = record { user = ""; password = ""; error = "" }

-- `needLogin` is null, true or false.
pub data Screen : Type 0 where
  blank : Screen
  login_form : LoginForm → Screen
  panel : Dashboard → Screen

-- A handler that waits: at the first and at the second `await` of `refresh`, in `act`, and so on.
pub data Task : Type 0 where
  checking logging_in logging_out loading loading_nodes : Task
  acting : Action → Task

-- `mounts` counts the dashboards shown so far. A task belongs to the one that was there when it
-- began: what it sets on a dashboard that is gone has no effect.
pub record App : Type 0 where
  pub screen : Screen
  pub mounts : ℕ
  pub tasks : List (ℕ × Task)

pub data Answer : Type 0 where
  one : Result String Value → Answer
  all : List Source → Loaded → Answer

pub data Event : Type 0 where
  typed_user typed_password typed_name : String → Event
  submitted clicked_refresh clicked_logout clicked_create timer : Event
  clicked_sync : Event
  clicked_enable : String → Bool → Event
  -- With the answer to `confirm`.
  clicked_delete : String → Bool → Event
  -- The task at a place in the list goes on.
  answered : ℕ → Answer → Event

-- The new state and the calls that are made.
abbrev Effect : Type 0
Effect = App × List Call

-- `refresh` up to its first `await`.
abbrev pub refresh_calls : List Call
refresh_calls = version ∷ role ∷ sync_status ∷ users none none ∷ []

wait : ℕ → Task → App → App
wait g t app = record app { tasks = app.tasks ++ (g, t) ∷ [] }

refresh : ℕ → App → Effect
unfolding wait
refresh g app = (wait g loading app, refresh_calls)

-- `checkAuth`, when the page has been loaded.
unfoldable pub start : Effect
start = (record { screen = blank; mounts = 0; tasks = (0, checking) ∷ [] }, me ∷ [])

-- main.tsx: `App` is rendered where the page has the element `root`; createRoot throws where it has
-- none.
unfoldable pub rendered : Bool → Option Effect
unfolding start
rendered has_root = if has_root then some start else none

-- `setNeedLogin(false)`: a dashboard that was not there is mounted, and refreshes.
show_panel : App → Effect
unfolding refresh
show_panel app = elim app.screen [
  | panel d ↦ (app, [])
  | _ ↦ refresh (app.mounts + 1) (record app { screen = panel initial; mounts = app.mounts + 1 })
]

-- `setNeedLogin(true)`
unfoldable pub show_login : App → App
show_login app = elim app.screen [
  | login_form f ↦ app
  | _ ↦ record app { screen = login_form empty_form }
]

on_screen : (Dashboard → Dashboard) → Screen → Screen
on_screen f blank = blank
on_screen f (login_form l) = login_form l
on_screen f (panel d) = panel (f d)

-- A dashboard's setters, called by a task of the dashboard `g`.
unfoldable pub set_panel : ℕ → (Dashboard → Dashboard) → App → App
unfolding on_screen
set_panel g f app =
    if nat_eq g app.mounts then record app { screen = on_screen f app.screen } else app

-- The dashboard that is there, or any where there is none.
unfoldable pub current : Screen → Dashboard
current (panel d) = d
current _ = initial

-- `catch (e) { setErr(e.message) }`
set_error : String → Screen → Screen
set_error e (login_form l) = login_form (record l { error = e })
set_error e s = s

abbrev chosen : Value → Value → Value
chosen enabled authed = and_also enabled (bool (not (truthy authed)))

-- `m.auth_enabled && !m.authed`
needs_login : Value → Result String Value
needs_login m = elim (get m "auth_enabled") [
  | err e ↦ err e
  | ok enabled ↦ elim (get m "authed") [ err e ↦ err e | ok authed ↦ ok (chosen enabled authed) ]
]

auth_checked : Result String Value → Result String Value
unfolding needs_login
auth_checked (err e) = err e
auth_checked (ok m) = needs_login m

-- `needLogin` of the component: null shows nothing, and any other value the form or the panel.
check_settled : Result String Value → App → Effect
unfolding show_panel show_login
check_settled (ok null) app = (record app { screen = blank }, [])
check_settled (ok need) app = if truthy need then (show_login app, []) else show_panel app
check_settled (err e) app = show_panel app

login_settled : Result String Value → App → Effect
unfolding show_panel set_error
login_settled (ok _) app = show_panel app
login_settled (err e) app = (record app { screen = set_error e app.screen }, [])

unfoldable pub after_data : ℕ → Dashboard × Next → App → Effect
unfolding wait set_panel show_login
after_data g (d, load_nodes) app = (wait g loading_nodes (set_panel g (λ _. d) app), nodes ∷ [])
after_data g (d, log_out) app = (show_login (set_panel g (λ _. d) app), [])

after_act : ℕ → Bool → App → Effect
unfolding refresh
after_act g true app = refresh g app
after_act g false app = (app, [])

-- A task goes on with the answer that it waits for.
unfoldable pub resume : ℕ → Task → Answer → App → Option Effect
unfolding check_settled auth_checked login_settled after_data after_act current set_panel show_login
resume g checking (one r) app = some (check_settled (auth_checked r) app)
resume g logging_in (one r) app = some (login_settled r app)
resume g logging_out (one r) app = some (show_login app, [])
resume g loading (all order loaded) app =
    some (after_data g (refresh_data (promise_all order loaded) (current app.screen)) app)
resume g loading_nodes (one r) app = some (set_panel g (refresh_nodes r) app, [])
resume g (acting a) (one r) app = some (
    after_act g (act_settled a r (current app.screen)).1
      (set_panel g (λ d. (act_settled a r d).0) app))
resume g _ _ app = none
