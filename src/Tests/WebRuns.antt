-- ===== src/Tests/WebRuns.antt =====
-- The panel at sample answers.
use telemux.Web.App.{
  clicked_logout, clicked_sync, clicked_refresh, typed_name, clicked_create, clicked_enable,
  clicked_delete, loading_nodes, App, empty_form, login_form, panel, Task, logging_in, loading,
  refresh_calls, Event, timer, answered, Answer, one,
}
use telemux.Web.Dashboard.{
  Dashboard, is_master, refresh_nodes, initial, Loaded, Source, from_users, promise_all,
  refresh_data, load_nodes, log_out, result_of, failure,
}
use telemux.Web.View.{mountable, View, controls, presses, types, asks}
use telemux.Web.View.Page.{dashboard_view, screen_view}
use telemux.Web.View.Controls.{dashboard_view-Renders}
use telemux.Web.App.Events.Shown.{is_typed_screen, step-shown}
use telemux.Base.{
  false, ℕ, String, true, some, List, [], ◌∷◌, ◌≡◌, ◌≢◌, ◌⊎◌, refl, All, ok, err, string_eq,
}
use telemux.Base.Int.{pos}
use telemux.Web.Value.{
  Value, str, num, bool, arr, obj, no_elements, element, no_members, member, get, get_opt, null,
}
use telemux.Web.Dashboard.Refresh.{refresh_data_failed}
use telemux.Web.App.Events.{step, take_task}
use telemux.Web.App.Events.Safety.{is_read, step-reads, AtLogin, LetsIn, step-keeps_login}

abbrev one_user : Value
one_user = arr (element (obj (member "username" (str "sub_a") no_members)) no_elements)

abbrev version_answer : Value
version_answer = obj (member "version" (str "v1") no_members)

abbrev role_answer : Value
role_answer = obj (member "role" (str "master") (member "is_master" (bool true) no_members))

abbrev users_answer : Value
users_answer = obj (
    member "data" one_user
      (member "paging" (obj (member "total" (num (pos 1)) no_members)) no_members))

abbrev loaded : Loaded
loaded = record {
  version = ok version_answer;
  role = ok role_answer;
  sync = ok null;
  users = ok users_answer;
}

abbrev expired : Loaded
expired = record loaded { users = err "unauthorized" }

refresh_data_failed_example :
    ((refresh_data (promise_all [] expired) initial ≡ (initial, log_out))
      × ((t : Source) × (result_of expired t ≡ err "unauthorized")))
    ⊎ ((x : String) × (x ≢ "unauthorized")
        × (refresh_data (promise_all [] expired) initial
            ≡ (record initial { status = failure x }, load_nodes))
        × ((t : Source) × (result_of expired t ≡ err x)))
refresh_data_failed_example = refresh_data_failed [] expired initial from_users "unauthorized" refl

abbrev shown : App
shown = record { screen = panel initial; mounts = 1; tasks = [] }

abbrev shown_loading : App
shown_loading = record shown { tasks = (1, loading) ∷ [] }

abbrev no_trim : String → String
no_trim s = s

timer_step : step no_trim timer shown ≡ some (shown_loading, refresh_calls)
unfolding step
timer_step = refl

step-reads_example : All (λ c. is_read c ≡ true) refresh_calls
step-reads_example = step-reads no_trim shown shown_loading refresh_calls timer refl timer_step

abbrev at_form : App
at_form = record { screen = login_form empty_form; mounts = 0; tasks = (0, logging_in) ∷ [] }

abbrev refused : App
refused = record {
  screen = login_form (record empty_form { error = "неверный логин или пароль" });
  mounts = 0;
  tasks = [];
}

abbrev refusal : Event
refusal = answered 0 (one (err "неверный логин или пароль"))

refused_step : step no_trim refusal at_form ≡ some (refused, [])
unfolding step
refused_step = refl

step-keeps_login_example :
    AtLogin refused
    ⊎ ((i : ℕ) × (a : Answer) × (refusal ≡ answered i a)
        × ((g : ℕ) × (t : Task) × (rest : List (ℕ × Task)) × (take_task i at_form.tasks
              ≡ some ((g, t), rest))
            × LetsIn t a))
step-keeps_login_example =
    step-keeps_login no_trim at_form refused [] refusal empty_form refl refused_step

abbrev full_user : Value
full_user = obj (
    member "username" (str "sub_a") (
      member "secret" (str "00112233445566778899aabbccddeeff") (
        member "expiration_at" null (
          member "max_tcp_conns" null (
            member "enabled" (bool true)
              (member "created_at" (str "2026-01-01T00:00:00Z") no_members))))))

abbrev on_master : Dashboard
on_master = record initial { role = role_answer; users = arr (element full_user no_elements) }

abbrev any_text : Value → String
any_text (str s) = s
any_text _ = "?"

dashboard_view-Renders_example :
    (v : View) × (dashboard_view any_text any_text any_text on_master ≡ ok v)
    × (controls v
        ≡ presses "выйти" clicked_logout
          ∷ presses "Синхронизировать" clicked_sync
          ∷ presses "Обновить" clicked_refresh
          ∷ types "" typed_name
          ∷ presses "+ Создать" clicked_create
          ∷ presses "выкл" (clicked_enable "sub_a" false)
          ∷ asks "удалить" "Удалить sub_a?" (clicked_delete "sub_a")
          ∷ [])
    × (mountable v ≡ true)
unfolding get_opt string_eq is_master
dashboard_view-Renders_example =
    dashboard_view-Renders any_text any_text any_text on_master (element full_user no_elements) refl
      refl

abbrev shown_waiting : App
shown_waiting = record shown { tasks = (1, loading_nodes) ∷ [] }

abbrev no_nodes : Event
no_nodes = answered 0 (one (ok (obj (member "nodes" null no_members))))

no_nodes_step : step no_trim no_nodes shown_waiting ≡ some (shown, [])
unfolding step get refresh_nodes string_eq
no_nodes_step = refl

step-shown_example :
    (is_typed_screen (panel initial) ≡ true)
    × ((v : View) × (screen_view any_text any_text any_text (panel initial) ≡ ok v))
unfolding get_opt take_task string_eq
step-shown_example =
    step-shown no_trim any_text any_text any_text no_nodes shown_waiting shown [] refl refl
      no_nodes_step
