-- ===== src/Web/App/Events.antt =====
-- The events of the panel and what each does, internal/server/web/src/App.tsx.
pub mod Safety
pub mod Shown
use telemux.Base.{
  ℕ, zero, suc, ◌+◌, String, Bool, true, false, not, Option, none, some, List, [], ◌∷◌, ◌++◌,
  Result, ok, err, ◌==◌, string_eq, nat_eq, if◌then◌else◌,
}
use telemux.Web.Value.{Value, undefined, bool, get, truthy, and_also}
use telemux.Web.Api.{Call, me, login, logout, version, role, sync_status, nodes, users, NewUser}
use telemux.Web.Api
use telemux.Web.Dashboard.{
  Dashboard, initial, Loaded, Source, promise_all, refresh_data, load_nodes, log_out, refresh_nodes,
  Next, Action, sync_now, create_user, enable_user, delete_user, act_started, act_settled,
}
use telemux.Web.App.{
  LoginForm, empty_form, Screen, blank, login_form, panel, Task, checking, logging_in, logging_out,
  loading, loading_nodes, acting, App, Answer, one, all, Event, typed_user, typed_password,
  typed_name, submitted, clicked_refresh, clicked_logout, clicked_create, timer, clicked_sync,
  clicked_enable, clicked_delete, answered, Effect, refresh_calls, wait, refresh, show_panel,
  show_login, on_screen, set_panel, current, set_error, chosen, needs_login, auth_checked,
  check_settled, login_settled, after_data, after_act, resume,
}

abbrev pub call_of : Action → Call
call_of sync_now = Call.sync_now
call_of (create_user name) =
    Call.create_user
      (record { username = name; expiration_at = undefined; max_tcp_conns = undefined })
call_of (enable_user name on) = Call.enable_user name on
call_of (delete_user name) = Call.delete_user name

-- `act` up to its first `await`.
act : Action → App → Effect
unfolding wait set_panel
act a app = (wait app.mounts (acting a) (set_panel app.mounts act_started app), call_of a ∷ [])

-- The task at a place in the list, and the list without it.
unfoldable pub take_task : ℕ → List (ℕ × Task) → Option ((ℕ × Task) × List (ℕ × Task))
take_task i [] = none
take_task zero (t ∷ ts) = some (t, ts)
take_task (suc i) (t ∷ ts) = elim (take_task i ts) [
  | none ↦ none
  | some (u, rest) ↦ some (u, t ∷ rest)
]

unfoldable pub resume_at : ℕ → Answer → App → Option Effect
unfolding take_task resume
resume_at i a app = elim (take_task i app.tasks) [
  | none ↦ none
  | some ((g, t), rest) ↦ resume g t a (record app { tasks = rest })
]

module _ (trim : String → String) where
  -- `createUser`
  create : String → App → Effect
  unfolding act
  create new_name app =
      let name = trim new_name in if name == "" then (app, []) else act (create_user name) app

  on_form : Event → LoginForm → App → Option Effect
  unfolding wait
  on_form (typed_user s) f app =
      some (record app { screen = login_form (record f { user = s }) }, [])
  on_form (typed_password s) f app =
      some (record app { screen = login_form (record f { password = s }) }, [])
  on_form submitted f app = some (wait app.mounts logging_in app, login f.user f.password ∷ [])
  on_form _ f app = none

  on_panel : Event → Dashboard → App → Option Effect
  unfolding create refresh
  on_panel (typed_name s) d app =
      some (record app { screen = panel (record d { new_name = s }) }, [])
  on_panel clicked_refresh d app = some (refresh app.mounts app)
  on_panel timer d app = some (refresh app.mounts app)
  on_panel clicked_logout d app = some (wait app.mounts logging_out app, logout ∷ [])
  on_panel clicked_create d app = some (create d.new_name app)
  on_panel clicked_sync d app = some (act sync_now app)
  on_panel (clicked_enable name on) d app = some (act (enable_user name on) app)
  on_panel (clicked_delete name true) d app = some (act (delete_user name) app)
  on_panel (clicked_delete name false) d app = some (app, [])
  on_panel _ d app = none

  on_ui : Event → Screen → App → Option Effect
  unfolding on_form on_panel
  on_ui e blank app = none
  on_ui e (login_form f) app = on_form e f app
  on_ui e (panel d) app = on_panel e d app

  -- What an event does; `none` where it cannot happen.
  unfoldable pub step : Event → App → Option Effect
  unfolding on_ui resume_at
  step (answered i a) app = resume_at i a app
  step e app = on_ui e app.screen app
