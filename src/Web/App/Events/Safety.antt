-- ===== src/Web/App/Events/Safety.antt =====
-- What the panel does by itself, and how it leaves the login form.
use telemux.Base.{
  ℕ, String, Bool, true, false, some, List, ok, err, string_eq, ◌≡◌, refl, arith, All, ◌⊎◌, inl,
  inr, Option-cases,
}
use telemux.Web.Value.{Value}
use telemux.Web.Api.{Call}
use telemux.Web.App.{
  LoginForm, Screen, blank, login_form, panel, Task, checking, logging_in, logging_out, loading,
  loading_nodes, acting, App, Answer, one, all, Event, typed_user, typed_password, submitted,
  clicked_logout, clicked_create, clicked_sync, clicked_enable, clicked_delete, answered, resume,
}
use telemux.Web.App.Events.{on_ui, on_form, step, take_task}

-- Calls that ask for information and change nothing on the server.
abbrev pub is_read : Call → Bool
is_read Call.me = true
is_read Call.version = true
is_read Call.role = true
is_read Call.sync_status = true
is_read Call.nodes = true
is_read (Call.users _ _) = true
is_read _ = false

-- The user presses a button that stands for a change.
abbrev pub is_command : Event → Bool
is_command submitted = true
is_command clicked_logout = true
is_command clicked_create = true
is_command clicked_sync = true
is_command (clicked_enable _ _) = true
is_command (clicked_delete _ _) = true
is_command _ = false

resume-reads :
    (g : ℕ) (t : Task) (a : Answer) (app next : App) (calls : List Call)
    → resume g t a app ≡ some (next, calls)
    → All (λ c. is_read c ≡ true) calls
unfolding resume
resume-reads g checking (one r) app next calls = ground arith
resume-reads g logging_in (one r) app next calls = ground arith
resume-reads g logging_out (one r) app next calls = ground arith
resume-reads g loading (all order l) app next calls = ground arith
resume-reads g loading_nodes (one r) app next calls = ground arith
resume-reads g (acting x) (one r) app next calls = ground arith
resume-reads g _ _ app next calls = ground arith

-- The screen is still the login form.
abbrev pub AtLogin : App → Type 0
AtLogin a = (f : LoginForm) × (a.screen ≡ login_form f)

-- The task at a place goes on by checking the session, or by a login that has succeeded.
abbrev pub LetsIn : Task → Answer → Type 0
LetsIn t a = (t ≡ checking) ⊎ ((t ≡ logging_in) × ((v : Value) × (a ≡ one (ok v))))

module _ (trim : String → String) (app next : App) (calls : List Call) where
  on_ui-reads :
      (e : Event) (s : Screen)
      → is_command e ≡ false
      → on_ui trim e s app ≡ some (next, calls)
      → All (λ c. is_read c ≡ true) calls
  unfolding on_ui
  on_ui-reads (typed_user s) blank quiet h = cc
  on_ui-reads _ blank quiet h = cc
  on_ui-reads (typed_user s) (login_form f) quiet h = ground arith
  on_ui-reads _ (login_form f) quiet h = ground arith
  on_ui-reads (typed_user s) (panel d) quiet h = ground arith
  on_ui-reads _ (panel d) quiet h = ground arith

  -- Only the user's commands change anything on the server: whatever else happens, a timer or an
  -- answer included, makes calls that read.
  pub step-reads :
      (e : Event)
      → is_command e ≡ false
      → step trim e app ≡ some (next, calls)
      → All (λ c. is_read c ≡ true) calls
  unfolding step
  step-reads (answered i a) quiet h = elim (Option-cases (take_task i app.tasks)) [
    | inl nothing ↦ absurd (ground arith)
    | inr (((g, t), rest), found) ↦
        resume-reads g t a (record app { tasks = rest }) next calls (ground arith)
  ]
  step-reads (typed_user s) quiet h = on_ui-reads (typed_user s) app.screen quiet h
  step-reads e quiet h = on_ui-reads e app.screen quiet h

  resume-keeps_login :
      (g : ℕ) (t : Task) (a : Answer) (app : App) (f : LoginForm)
      → app.screen ≡ login_form f
      → resume g t a app ≡ some (next, calls)
      → AtLogin next ⊎ LetsIn t a
  unfolding resume
  resume-keeps_login g checking (one r) app f at_login h = inr (inl refl)
  resume-keeps_login g logging_in (one (ok v)) app f at_login h = inr (inr (refl, (v, refl)))
  resume-keeps_login g logging_in (one (err e)) app f at_login h =
      inl (record f { error = e }, ground arith)
  resume-keeps_login g logging_out (one r) app f at_login h = inl (f, ground arith)
  resume-keeps_login g loading (all order l) app f at_login h = inl (f, ground arith)
  resume-keeps_login g loading_nodes (one r) app f at_login h = inl (f, ground arith)
  resume-keeps_login g (acting x) (one r) app f at_login h = inl (f, ground arith)
  resume-keeps_login g _ _ app f at_login h = absurd (ground arith)

  on_form-AtLogin :
      (e : Event) (f : LoginForm)
      → on_form trim e f app ≡ some (next, calls)
      → app.screen ≡ login_form f
      → AtLogin next
  unfolding on_form
  on_form-AtLogin (typed_user s) f h at_login = (record f { user = s }, ground arith)
  on_form-AtLogin (typed_password s) f h at_login = (record f { password = s }, ground arith)
  on_form-AtLogin submitted f h at_login = (f, ground arith)
  on_form-AtLogin _ f h at_login = absurd (ground arith)

  -- The login form gives way only when a task goes on that checks the session, which runs once as
  -- the page is loaded, or one whose login has succeeded.
  pub step-keeps_login :
      (e : Event) (f : LoginForm)
      → app.screen ≡ login_form f
      → step trim e app ≡ some (next, calls)
      → AtLogin next
        ⊎ ((i : ℕ) × (a : Answer) × (e ≡ answered i a)
            × ((g : ℕ) × (t : Task) × (rest : List (ℕ × Task)) × (take_task i app.tasks
                  ≡ some ((g, t), rest))
                × LetsIn t a))
  unfolding step
  step-keeps_login (answered i a) f at_login h = elim (Option-cases (take_task i app.tasks)) [
    | inl nothing ↦ absurd (ground arith)
    | inr (((g, t), rest), found) ↦
        elim (resume-keeps_login g t a (record app { tasks = rest }) f at_login (ground arith)) [
          | inl still ↦ inl still
          | inr lets_in ↦ inr (i, a, refl, (g, t, rest, found, lets_in))
        ]
  ]
  step-keeps_login (typed_user s) f at_login h =
      inl (on_form-AtLogin (typed_user s) f (ground arith) at_login)
  step-keeps_login e f at_login h = inl (on_form-AtLogin e f (ground arith) at_login)
