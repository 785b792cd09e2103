-- ===== src/System/Expired.antt =====
-- What the panel does when its session is no longer valid.
use telemux.Base.{
  ℕ, String, true, false, Option, none, some, List, [], Result, err, ◌≡◌, inl, inr, refl, ap, arith,
  string_eq,
}
use telemux.Sync.{SyncError}
use telemux.Auth.{wrap, valid, is_public, unauthorized}
use telemux.Auth
use telemux.Web.Value.{Value, get, get_opt}
use telemux.Web.Api.{error_message, Call, version, role, sync_status, users, response, j}
use telemux.Web.Dashboard.{
  Dashboard, Loaded, Source, from_version, from_role, from_sync, from_users, result_of, promise_all,
  refresh_data, log_out, Next,
}
use telemux.Web.Dashboard.Refresh.{refresh_data_failed}
use telemux.Web.App.{
  App, Task, loading, all, answered, login_form, LoginForm, Screen, blank, panel, resume, current,
  set_panel, show_login, after_data,
}
use telemux.Web.App.Events.{step, take_task, resume_at}
use telemux.Server.Mux.{Route, filled}
use telemux.System.Http.{Incoming, Site, State, handler, gated, seen}
use telemux.System.Answers.{answer_of, error_answer}
use telemux.System.Reads.{route_for}

-- The calls of a refresh.
abbrev pub call_for : Source → Call
call_for from_version = version
call_for from_role = role
call_for from_sync = sync_status
call_for from_users = users none none

show_login-form :
    (screen : Screen) (mounts : ℕ) (tasks : List (ℕ × Task))
    → let app = show_login (record { screen = screen; mounts = mounts; tasks = tasks }) in
      (form : LoginForm) × (app.screen ≡ login_form form) × (app.tasks ≡ tasks)
unfolding show_login
show_login-form blank mounts tasks = (_, refl, refl)
show_login-form (login_form f) mounts tasks = (_, refl, refl)
show_login-form (panel d) mounts tasks = (_, refl, refl)

set_panel-tasks :
    (g : ℕ) (f : Dashboard → Dashboard) (app : App) → (set_panel g f app).tasks ≡ app.tasks
unfolding set_panel
set_panel-tasks g f app = ground arith

module _ {N : Type 0} (site : Site N) where
  -- A request for the path of a call, that has no valid session where one is asked for.
  abbrev pub Stranger : Call → Incoming × State N → Type 0
  Stranger c (q, s) =
      (filled (route_for c) ≡ some (site.path q.url))
      × (s.auth.enabled ≡ true)
      × ((valid q.now (record { path = site.path q.url; cookie = q.cookie }) s.auth).0 ≡ false)

  module _ (show : ℕ → String) (to_text : Value → String) (format_time : ℕ → String)
      (error_text : SyncError → String) where
    -- What the promise of a call comes to.
    abbrev pub promised : Incoming × State N → Result String Value
    promised (q, s) =
        j show to_text (response (answer_of format_time error_text (handler site q s).0))

    abbrev pub loaded_by : (Source → Incoming × State N) → Loaded
    loaded_by ask = record {
      version = promised (ask from_version);
      role = promised (ask from_role);
      sync = promised (ask from_sync);
      users = promised (ask from_users);
    }

    call_for-private :
        (src : Source)
        → (path : String) × (filled (route_for (call_for src)) ≡ some path)
          × (is_public path ≡ false)
    unfolding filled route_for is_public string_eq
    call_for-private from_version = (_, refl, refl)
    call_for-private from_role = (_, refl, refl)
    call_for-private from_sync = (_, refl, refl)
    call_for-private from_users = (_, refl, refl)

    wrap-unauthorized :
        (now : ℕ) (r : Auth.Request) (a : Auth.Auth)
        → a.enabled ≡ true
        → is_public r.path ≡ false
        → (valid now r a).0 ≡ false
        → (wrap now r a).0 ≡ unauthorized
    unfolding wrap
    wrap-unauthorized now r a on hidden stranger = ground arith

    gated-unauthorized :
        (r : Option Route) (q : Incoming) (s : State N)
        → j show to_text
            (response (answer_of format_time error_text (gated site unauthorized r q s).0))
          ≡ err "unauthorized"
    unfolding gated answer_of error_answer j error_message get get_opt string_eq
    gated-unauthorized r q s = refl

    promised-unauthorized :
        (src : Source) (asked : Incoming × State N)
        → Stranger (call_for src) asked
        → promised asked ≡ err "unauthorized"
    unfolding handler seen
    promised-unauthorized src (q, s) (there, on, stranger) =
        let (path, this, hidden) = call_for-private src in
        let looked = wrap q.now (record { path = site.path q.url; cookie = q.cookie }) s.auth in
        let out =
          wrap-unauthorized q.now (record { path = site.path q.url; cookie = q.cookie }) s.auth on
            (ground (arith, this, hidden)) stranger in
        rw (out, handler)
          (gated-unauthorized (site.mux q.method q.url) q (record s { auth = looked.1 }))

    loaded_by-unauthorized :
        (ask : Source → Incoming × State N)
        → ((src : Source) → Stranger (call_for src) (ask src))
        → (src : Source) → result_of (loaded_by ask) src ≡ err "unauthorized"
    loaded_by-unauthorized ask h from_version =
        promised-unauthorized from_version (ask from_version) (h from_version)
    loaded_by-unauthorized ask h from_role =
        promised-unauthorized from_role (ask from_role) (h from_role)
    loaded_by-unauthorized ask h from_sync =
        promised-unauthorized from_sync (ask from_sync) (h from_sync)
    loaded_by-unauthorized ask h from_users =
        promised-unauthorized from_users (ask from_users) (h from_users)

    refresh_data-log_out :
        (order : List Source) (d : Dashboard) (ask : Source → Incoming × State N)
        → ((src : Source) → Stranger (call_for src) (ask src))
        → refresh_data (promise_all order (loaded_by ask)) d ≡ (d, log_out)
    refresh_data-log_out order d ask h =
        elim (refresh_data_failed order (loaded_by ask) d from_version "unauthorized"
          (loaded_by-unauthorized ask h from_version)) [
            | inl (out, _) ↦ out
            | inr (x, not_that, _, (src, failed)) ↦
                absurd (ground (arith, loaded_by-unauthorized ask h src))
          ]

    -- A refresh of the panel whose four requests reach the server without a valid session, while a
    -- password is set, ends at the login form, in whatever order the answers come and whatever else
    -- the panel is waiting for, and makes no further call.
    pub step-expired :
        (trim : String → String) (i : ℕ) (order : List Source) (app : App) (mounted : ℕ)
        (rest : List (ℕ × Task)) (ask : Source → Incoming × State N)
        → take_task i app.tasks ≡ some ((mounted, loading), rest)
        → ((src : Source) → Stranger (call_for src) (ask src))
        → (app' : App) × (form : LoginForm) × (step trim
              (answered i (all order (loaded_by ask)))
              app
            ≡ some (app', []))
          × (app'.screen ≡ login_form form)
          × (app'.tasks ≡ rest)
    unfolding step resume_at resume after_data set_panel show_login
    step-expired trim i order app mounted rest ask waits h =
        let out = refresh_data-log_out order (current app.screen) ask h in
        let before : App =
          set_panel mounted (λ _. current app.screen) (record app { tasks = rest }) in
        let (form, there, kept) = show_login-form before.screen before.mounts before.tasks in
        (
          show_login before,
          form,
          rw (waits, resume_at)
              (ap
                (λ (x : Dashboard × Next).
                  some (after_data mounted x (record app { tasks = rest })))
                out),
          there,
          ground (
            arith,
            kept,
            set_panel-tasks mounted (λ _. current app.screen) (record app { tasks = rest }),
          ),
        )
