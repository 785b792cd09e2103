-- ===== src/Web/App/Events/Shown.antt =====
-- The panel never fails to render.
use telemux.Base.{
  ◌||◌, ℕ, String, Bool, true, false, List, ok, ◌≡◌, refl, arith, Option-cases, inl, inr, some,
  none, string_eq, ◌==◌, Bool-cases,
}
use telemux.Web.Value.{Value, undefined, null, obj, arr, str, num, bool, Elements}
use telemux.Web.Types.{is_array_of, is_user}
use telemux.Web.Dashboard.{
  Dashboard, promise_all, refresh_data, refresh_nodes, act_settled, act_started, Next, load_nodes,
  log_out, Action, sync_now, create_user, enable_user, delete_user,
}
use telemux.Web.App.{
  on_screen, set_panel, current, after_data, after_act, Screen, blank, login_form, panel, Task,
  checking, logging_in, logging_out, loading, loading_nodes, acting, App, Answer, one, all, Event,
  typed_user, clicked_logout, clicked_create, clicked_sync, clicked_enable, clicked_delete,
  answered, resume, typed_name, clicked_refresh, timer,
}
use telemux.Web.Api.{Call}
use telemux.Web.App.Events.{on_ui, on_panel, step, take_task, act, create}
use telemux.Web.View.{View}
use telemux.Web.View.Page.{screen_view}
use telemux.Web.View.Controls.{is_typed, is_typed-parts, dashboard_view-Renders}
use telemux.Web.View.Kept.{
  or_failed, is_node_list, is_no_list, is_typed_load, act_settled-typed, act_started-typed,
  refresh_nodes-typed, refresh_data-typed,
}

-- The answer that a task waits for is of the declared types, or the null that the server sends for
-- an empty list of nodes.
abbrev pub is_typed_answer : Task → Answer → Bool
is_typed_answer loading (all order l) = is_typed_load l
is_typed_answer loading_nodes (one r) = or_failed (λ v. is_node_list v || is_no_list v) r
is_typed_answer _ _ = true

abbrev pub is_typed_screen : Screen → Bool
is_typed_screen (panel d) = is_typed d
is_typed_screen _ = true

on_screen-typed :
    (f : Dashboard → Dashboard) (s : Screen)
    → ((d : Dashboard) → is_typed d ≡ true → is_typed (f d) ≡ true)
    → is_typed_screen s ≡ true
    → is_typed_screen (on_screen f s) ≡ true
unfolding on_screen
on_screen-typed f blank k h = h
on_screen-typed f (login_form l) k h = h
on_screen-typed f (panel d) k h = k d h

set_panel-typed :
    (g : ℕ) (f : Dashboard → Dashboard) (app : App)
    → ((d : Dashboard) → is_typed d ≡ true → is_typed (f d) ≡ true)
    → is_typed_screen app.screen ≡ true
    → is_typed_screen (set_panel g f app).screen ≡ true
unfolding set_panel
set_panel-typed g f app k h = ground (arith, on_screen-typed f app.screen k h)

current-typed : (s : Screen) → is_typed_screen s ≡ true → is_typed (current s) ≡ true
unfolding current
current-typed blank h = refl
current-typed (login_form f) h = refl
current-typed (panel d) h = h

after_data-typed :
    (g : ℕ) (d : Dashboard) (n : Next) (app : App)
    → is_typed d ≡ true
    → is_typed_screen app.screen ≡ true
    → is_typed_screen (after_data g (d, n) app).0.screen ≡ true
unfolding after_data
after_data-typed g d load_nodes app typed h = set_panel-typed g (λ _. d) app (λ _ _. typed) h
after_data-typed g d log_out app typed h = ground arith

after_act-typed :
    (g : ℕ) (b : Bool) (app : App)
    → is_typed_screen app.screen ≡ true
    → is_typed_screen (after_act g b app).0.screen ≡ true
unfolding after_act
after_act-typed g true app h = h
after_act-typed g false app h = h

resume-typed :
    (g : ℕ) (t : Task) (a : Answer) (app next : App) (calls : List Call)
    → is_typed_answer t a ≡ true
    → is_typed_screen app.screen ≡ true
    → resume g t a app ≡ some (next, calls)
    → is_typed_screen next.screen ≡ true
unfolding resume
resume-typed g checking (one r) app next calls typed h e = ground arith
resume-typed g logging_in (one r) app next calls typed h e = ground arith
resume-typed g logging_out (one r) app next calls typed h e = ground arith
resume-typed g loading (all order l) app next calls typed h e =
    let (d, n) = refresh_data (promise_all order l) (current app.screen) in
    ground (
      arith,
      after_data-typed g d n app
          (refresh_data-typed order l (current app.screen) typed (current-typed app.screen h)) h,
    )
resume-typed g loading_nodes (one r) app next calls typed h e =
    ground (arith, set_panel-typed g (refresh_nodes r) app (λ d. refresh_nodes-typed r d typed) h)
resume-typed g (acting x) (one r) app next calls typed h e =
    let set = set_panel-typed g (λ d. (act_settled x r d).0) app (λ d. act_settled-typed x r d) h in
    ground (
      arith,
      after_act-typed g (act_settled x r (current app.screen)).1
          (set_panel g (λ d. (act_settled x r d).0) app) set,
    )
resume-typed g _ _ app next calls typed h e = absurd (ground arith)

-- An answer that comes is of the types that its task expects.
abbrev pub is_typed_event : Event → App → Bool
is_typed_event (answered i a) app = elim (take_task i app.tasks) [
  | none ↦ true
  | some ((g, t), rest) ↦ is_typed_answer t a
]
is_typed_event _ app = true

act-typed :
    (a : Action) (app : App)
    → is_typed_screen app.screen ≡ true
    → is_typed_screen (act a app).0.screen ≡ true
unfolding act
act-typed a app h = set_panel-typed app.mounts act_started app act_started-typed h

create-typed :
    (trim : String → String) (name : String) (app : App)
    → is_typed_screen app.screen ≡ true
    → is_typed_screen (create trim name app).0.screen ≡ true
unfolding create
create-typed trim name app h = elim (Bool-cases (trim name == "")) [
  | inl e ↦ rw e h
  | inr e ↦ rw e (act-typed (create_user (trim name)) app h)
]

on_panel-typed :
    (trim : String → String) (e : Event) (d : Dashboard) (app next : App) (calls : List Call)
    → is_typed_screen app.screen ≡ true
    → is_typed d ≡ true
    → on_panel trim e d app ≡ some (next, calls)
    → is_typed_screen next.screen ≡ true
unfolding on_panel
on_panel-typed trim (typed_name s) d app next calls h k f = ground arith
on_panel-typed trim clicked_create d app next calls h k f =
    ground (arith, create-typed trim d.new_name app h)
on_panel-typed trim clicked_sync d app next calls h k f = ground (arith, act-typed sync_now app h)
on_panel-typed trim (clicked_enable name on) d app next calls h k f =
    ground (arith, act-typed (enable_user name on) app h)
on_panel-typed trim (clicked_delete name true) d app next calls h k f =
    ground (arith, act-typed (delete_user name) app h)
on_panel-typed trim (clicked_delete name false) d app next calls h k f = ground arith
on_panel-typed trim clicked_refresh d app next calls h k f = ground arith
on_panel-typed trim timer d app next calls h k f = ground arith
on_panel-typed trim clicked_logout d app next calls h k f = ground arith
on_panel-typed trim _ d app next calls h k f = absurd (ground arith)

typed_users : (d : Dashboard) → is_typed d ≡ true → is_array_of is_user d.users ≡ true
typed_users d h = let (_, _, _, _, users_typed, _) = is_typed-parts d h in users_typed

on_ui-typed :
    (trim : String → String) (e : Event) (s : Screen) (app next : App) (calls : List Call)
    → app.screen ≡ s
    → is_typed_screen s ≡ true
    → on_ui trim e s app ≡ some (next, calls)
    → is_typed_screen next.screen ≡ true
unfolding on_ui
on_ui-typed trim (typed_user s) blank app next calls same h f = absurd (ground arith)
on_ui-typed trim _ blank app next calls same h f = absurd (ground arith)
on_ui-typed trim (typed_user s) (login_form l) app next calls same h f = ground arith
on_ui-typed trim _ (login_form l) app next calls same h f = ground arith
on_ui-typed trim (typed_name s) (panel d) app next calls same h f =
    on_panel-typed trim (typed_name s) d app next calls (rw same h) h f
on_ui-typed trim e (panel d) app next calls same h f =
    on_panel-typed trim e d app next calls (rw same h) h f

arrays : (p : Value → Bool) (v : Value) → is_array_of p v ≡ true → (us : Elements) × (v ≡ arr us)
arrays p (arr us) h = (us, refl)
arrays p undefined h = absurd (ground arith)
arrays p null h = absurd (ground arith)
arrays p (obj fs) h = absurd (ground arith)
arrays p (str s) h = absurd (ground arith)
arrays p (num n) h = absurd (ground arith)
arrays p (bool b) h = absurd (ground arith)

module _ (trim : String → String) (to_text date_text time_text : Value → String) where
  can_be_shown :
      (s : Screen)
      → is_typed_screen s ≡ true
      → (v : View) × (screen_view to_text date_text time_text s ≡ ok v)
  unfolding screen_view
  can_be_shown blank h = (_, refl)
  can_be_shown (login_form f) h = (_, refl)
  can_be_shown (panel d) h =
      let (us, e) = arrays is_user d.users (typed_users d h) in
      let (v, shown, _, _) = dashboard_view-Renders to_text date_text time_text d us h e in
      (v, shown)

  -- While the answers of the server are of the types that the client declares, or errors, or for the
  -- nodes a null in place of the list, every event takes a screen whose values are of those types to
  -- another, which can be rendered, though React throws at an object.
  pub step-shown :
      (e : Event) (app next : App) (calls : List Call)
      → is_typed_screen app.screen ≡ true
      → is_typed_event e app ≡ true
      → step trim e app ≡ some (next, calls)
      → (is_typed_screen next.screen ≡ true)
        × ((v : View) × (screen_view to_text date_text time_text next.screen ≡ ok v))
  unfolding step
  step-shown (answered i a) app next calls h typed f = elim (Option-cases (take_task i app.tasks)) [
    | inl nothing ↦ absurd (ground arith)
    | inr (((g, t), rest), found) ↦
        let still =
          resume-typed g t a (record app { tasks = rest }) next calls (ground arith) h
            (ground arith) in
        (still, can_be_shown next.screen still)
  ]
  step-shown (typed_user s) app next calls h typed f =
      let still = on_ui-typed trim (typed_user s) app.screen app next calls refl h f in
      (still, can_be_shown next.screen still)
  step-shown e app next calls h typed f =
      let still = on_ui-typed trim e app.screen app next calls refl h f in
      (still, can_be_shown next.screen still)
