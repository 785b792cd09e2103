-- ===== src/Web/View.antt =====
-- What the panel renders, internal/server/web/src/App.tsx: a tree of elements, texts, values and
-- controls, each control with the event that using it brings about. Styles, classes, keys,
-- placeholders and boxes that only place their contents are left out. The texts of a value and of
-- a time in the reader's locale are parameters.
pub mod Page
pub mod Rows
pub mod Controls
pub mod Kept
use telemux.Base.{
  ℕ, String, ◌<>◌, Bool, true, false, not, ◌&&◌, Option, none, some, List, [], ◌∷◌, ◌++◌, Result,
  ok, err, ◌==◌, string_eq, if◌then◌else◌, starts_with,
}
use telemux.Web.Value.{
  Value, undefined, null, bool, num, obj, str, arr, Elements, element, no_elements, get, get_opt,
  or_default, truthy,
}
use telemux.Web.Dashboard.{Dashboard, is_master}
use telemux.Web.App.{
  LoginForm, Screen, blank, login_form, panel, Event, typed_user, typed_password, typed_name,
  submitted, clicked_refresh, clicked_logout, clicked_create, clicked_sync, clicked_enable,
  clicked_delete,
}

-- A button; a button whose event carries the answer to a question; an input with its value; the
-- button of a form.
pub data Control : Type 0 where
  presses : String → Event → Control
  asks : String → String → (Bool → Event) → Control
  types : String → (String → Event) → Control
  submits : String → Event → Control

pub data View : Type 0 where
  nothing : View
  text : String → View
  -- `{v}`, which React shows, passes over or throws at.
  shown : Value → View
  tag : String → View → View
  control : Control → View
  beside : View → View → View

abbrev pub views : List View → View
views [] = nothing
views (v ∷ vs) = beside v (views vs)

-- The controls in the order in which they stand.
unfoldable pub controls : View → List Control
controls nothing = []
controls (text s) = []
controls (shown v) = []
controls (tag name v) = controls v
controls (control c) = c ∷ []
controls (beside v w) = controls v ++ controls w

-- What React takes as a child: it throws at an object, also at one in an array.
unfoldable mutual
  pub is_child : Value → Bool
  is_child (obj fs) = false
  is_child (arr vs) = are_children vs
  is_child undefined = true
  is_child null = true
  is_child (bool b) = true
  is_child (num n) = true
  is_child (str s) = true

  are_children : Elements → Bool
  are_children no_elements = true
  are_children (element v vs) = is_child v && are_children vs

unfoldable pub mountable : View → Bool
unfolding is_child
mountable nothing = true
mountable (text s) = true
mountable (shown v) = is_child v
mountable (tag name v) = mountable v
mountable (control c) = true
mountable (beside v w) = mountable v && mountable w

-- The tree that a component has returned, put on the page.
abbrev pub mounted : View → Result String View
mounted v = if mountable v then ok v else err "Objects are not valid as a React child"

infixl 5 ◌>>=◌
abbrev pub ◌>>=◌ : {A B : Type 0} → Result String A → (A → Result String B) → Result String B
(ok a) >>= f = f a
(err e) >>= f = err e

unfoldable pub login_view : LoginForm → View
login_view f = tag "main" (
    views (
      tag "h1" (text "telemux")
      ∷ tag "form" (
          views (
            control (types f.user typed_user)
            ∷ control (types f.password typed_password)
            ∷ control (submits "Войти" submitted)
            ∷ (if f.error == "" then shown (str f.error) else tag "span" (text f.error))
            ∷ []))
      ∷ []))

module _ (to_text date_text time_text : Value → String) where
  -- `at`
  synced_at : Value → Result String String
  synced_at sync =
      let at = get_opt sync "at" in
      if truthy at
      then elim at [
        | str s ↦ ok (if starts_with s "0001" then "—" else time_text (str s))
        | _ ↦ err "sync.at.startsWith is not a function"
      ]
      else ok "—"

  diff_text : Value → Result String String
  diff_text sync =
      if truthy sync
      then (do
        creates ← get sync "creates"
        patches ← get sync "patches"
        deletes ← get sync "deletes"
        ok (to_text creates <> "/" <> to_text patches <> "/" <> to_text deletes))
      else ok "—"

  pub role_badge : Value → Result String View
  role_badge role =
      if truthy role
      then (do name ← get role "role"; ok (tag "span" (shown name)))
      else ok (shown role)

  card : String → View → View
  card title v = tag "div" (views (tag "div" (text title) ∷ tag "div" v ∷ []))

  -- `fmt`
  until : Value → String
  until s = if truthy s then date_text s else "∞"

  -- The buttons of a user, on a master.
  user_controls : Bool → String → Bool → View
  user_controls master name on =
      if master
      then views (
          control (presses (if on then "выкл" else "вкл") (clicked_enable name (not on)))
          ∷ text " "
          ∷ control (asks "удалить" ("Удалить " <> name <> "?") (clicked_delete name))
          ∷ [])
      else shown (bool false)

  pub user_row : Bool → Value → Result String View
  unfolding until user_controls
  user_row master u = do
    name ← get u "username"
    expires ← get u "expiration_at"
    conns ← get u "max_tcp_conns"
    enabled ← get u "enabled"
    ok (
        tag "tr" (
          views (
            tag "td" (shown name)
            ∷ tag "td" (text (until expires))
            ∷ tag "td" (shown (or_default conns (str "—")))
            ∷ tag "td" (text (if truthy enabled then "✓" else "✗"))
            ∷ tag "td" (user_controls master (to_text name) (truthy enabled))
            ∷ [])))

  node_row : Value → Result String View
  node_row n = do
    code ← get n "code"
    role ← get n "role"
    address ← get n "address"
    seen ← get n "last_seen_at"
    ok (
        tag "tr" (
          views (
            tag "td" (shown code)
            ∷ tag "td" (shown role)
            ∷ tag "td" (shown address)
            ∷ tag "td" (text (if truthy seen then time_text seen else "—"))
            ∷ [])))

  rows : (Value → Result String View) → Elements → Result String View
  rows row no_elements = ok nothing
  rows row (element v vs) = do first ← row v; rest ← rows row vs; ok (beside first rest)

  is_empty : Elements → Bool
  is_empty no_elements = true
  is_empty (element _ _) = false

  -- The body of a table: a row that says so where it is empty, and the rows.
  pub table_body : String → (Value → Result String View) → Value → Result String View
  unfolding rows is_empty
  table_body none_text row (arr vs) = do
    body ← rows row vs
    ok (
        beside (if is_empty vs then tag "tr" (tag "td" (text none_text)) else shown (bool false))
          body)
  table_body none_text row v = err "map is not a function"

  heads : List String → View
  heads [] = nothing
  heads (s ∷ ss) = beside (tag "th" (text s)) (heads ss)

  table : List String → View → View
  unfolding heads
  table titles body =
      tag "table" (views (tag "thead" (tag "tr" (heads titles)) ∷ tag "tbody" body ∷ []))

  create_controls : Bool → String → View
  create_controls master new_name =
      if master
      then tag "div" (
          views (
            control (types new_name typed_name)
            ∷ control (presses "+ Создать" clicked_create)
            ∷ []))
      else tag "p" (text "Эта нода — replica. Управление юзерами — на master.")

  pub nodes_card : Value → Result String View
  unfolding table_body node_row table
  nodes_card nodes =
      if truthy nodes
      then (do
        body ← table_body "нод пока нет" node_row nodes
        ok (
            tag "div" (
              views (
                tag "div" (text "Ноды кластера")
                ∷ table ("code" ∷ "роль" ∷ "адрес" ∷ "last seen" ∷ []) body
                ∷ []))))
      else ok (shown nodes)
