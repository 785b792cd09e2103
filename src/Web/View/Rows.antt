-- ===== src/Web/View/Rows.antt =====
-- The rows of the dashboard's tables: that they can be shown, and the buttons that they have.
use telemux.Base.{
  ◌∙◌, sym, subst, ◌<>◌, String, Bool, true, false, not, List, [], ◌∷◌, ◌++◌, Result, ok, ◌≡◌, refl,
  arith, if◌then◌else◌,
}
use telemux.Web.View.{
  mountable, is_child, text, views, shown, tag, heads, table, nodes_card, role_badge, table_body,
  ◌>>=◌, user_row, node_row, rows, beside, View, Control, presses, asks, controls,
}
use telemux.Web.Value.{
  Members, undefined, str, num, bool, Value, null, obj, arr, Elements, element, no_elements, get,
  get_opt, truthy, find, or_default,
}
use telemux.Web.Types.{
  is_string, is_number, is_object, or_null, every, is_array_of, is_role, is_node, is_user,
}
use telemux.Web.App.{clicked_enable, clicked_delete}

abbrev pub gathered : (Value → List Control) → Elements → List Control
gathered f no_elements = []
gathered f (element u us) = f u ++ gathered f us

objects : (v : Value) → is_object v ≡ true → (fs : Members) × (v ≡ obj fs)
objects (obj fs) h = (fs, refl)
objects undefined h = absurd (ground arith)
objects null h = absurd (ground arith)
objects (arr vs) h = absurd (ground arith)
objects (str s) h = absurd (ground arith)
objects (num n) h = absurd (ground arith)
objects (bool b) h = absurd (ground arith)

-- A view that is there and can be put on the page, with these controls.
abbrev pub Renders : Result String View → List Control → Type 0
Renders r cs = (v : View) × (r ≡ ok v) × (controls v ≡ cs) × (mountable v ≡ true)

pub string-is_child : (v : Value) → is_string v ≡ true → is_child v ≡ true
unfolding is_child
string-is_child (str s) h = refl
string-is_child undefined h = absurd (ground arith)
string-is_child null h = absurd (ground arith)
string-is_child (obj fs) h = absurd (ground arith)
string-is_child (arr vs) h = absurd (ground arith)
string-is_child (num n) h = absurd (ground arith)
string-is_child (bool b) h = absurd (ground arith)

pub number-is_child :
    (v : Value) → or_null is_number v ≡ true → is_child (or_default v (str "—")) ≡ true
unfolding is_child
number-is_child (num n) h = refl
number-is_child null h = refl
number-is_child undefined h = absurd (ground arith)
number-is_child (str s) h = absurd (ground arith)
number-is_child (obj fs) h = absurd (ground arith)
number-is_child (arr vs) h = absurd (ground arith)
number-is_child (bool b) h = absurd (ground arith)

-- What renders goes on with its result.
pub bind-Renders :
    {A : Type 0} {r : Result String A} {a : A} {cs : List Control} (f : A → Result String View)
    → r ≡ ok a
    → Renders (f a) cs
    → Renders (r >>= f) cs
bind-Renders {A = A} {cs = cs} f e h =
    subst (λ (x : Result String A). Renders (x >>= f) cs) (sym e) h

pub no_buttons : (us : Elements) → gathered (λ u. []) us ≡ []
no_buttons no_elements = refl
no_buttons (element u us) = no_buttons us

module _ (to_text date_text time_text : Value → String) where
  -- The buttons of a user.
  abbrev pub user_buttons : Value → List Control
  user_buttons u =
      let name = to_text (get_opt u "username") in
      let on = truthy (get_opt u "enabled") in
      presses (if on then "выкл" else "вкл") (clicked_enable name (not on))
      ∷ asks "удалить" ("Удалить " <> name <> "?") (clicked_delete name)
      ∷ []

  user_row-Renders :
      (master : Bool) (fs : Members)
      → is_user (obj fs) ≡ true
      → Renders
          (user_row to_text date_text time_text master (obj fs))
          (if master then user_buttons (obj fs) else [])
  unfolding user_row controls get get_opt mountable is_child
  user_row-Renders true fs h =
      let name = string-is_child (find "username" fs) (ground arith) in
      let conns = number-is_child (find "max_tcp_conns" fs) (ground arith) in
      (_, refl, refl, rw (name, conns) refl)
  user_row-Renders false fs h =
      let name = string-is_child (find "username" fs) (ground arith) in
      let conns = number-is_child (find "max_tcp_conns" fs) (ground arith) in
      (_, refl, refl, rw (name, conns) refl)

  node_row-Renders :
      (fs : Members)
      → is_node (obj fs) ≡ true
      → Renders (node_row to_text date_text time_text (obj fs)) []
  unfolding node_row controls get get_opt mountable is_child
  node_row-Renders fs h =
      let code = string-is_child (find "code" fs) (ground arith) in
      let role = string-is_child (find "role" fs) (ground arith) in
      let address = string-is_child (find "address" fs) (ground arith) in
      (_, refl, refl, rw (code, role, address) refl)

  -- The rows of objects.
  rows-Renders :
      (row : Value → Result String View) (p : Value → Bool) (buttons : Value → List Control)
      → ((u : Value) → p u ≡ true → Renders (row u) (buttons u))
      → (us : Elements) → every p us ≡ true
      → Renders (rows to_text date_text time_text row us) (gathered buttons us)
  unfolding rows controls mountable
  rows-Renders row p buttons h no_elements e = (_, refl, refl, refl)
  rows-Renders row p buttons h (element u us) e =
      let (v, f, g, m) = h u (ground arith) in
      let (w, f', g', m') = rows-Renders row p buttons h us (ground arith) in
      (beside v w, rw f (rw f' refl), rw g (rw g' refl), rw (m, m') refl)

  table-Renders :
      (none_text : String) (row : Value → Result String View) (p : Value → Bool)
      (buttons : Value → List Control)
      → ((u : Value) → p u ≡ true → Renders (row u) (buttons u))
      → (us : Elements) → every p us ≡ true
      → Renders
          (table_body to_text date_text time_text none_text row (arr us))
          (gathered buttons us)
  unfolding table_body controls mountable is_child
  table-Renders none_text row p buttons h no_elements e = (_, refl, refl, refl)
  table-Renders none_text row p buttons h (element u us) e =
      let (v, f, g, m) = rows-Renders row p buttons h (element u us) e in
      bind-Renders (λ body. ok (beside (shown (bool false)) body)) f (_, refl, g, m)

  unfoldable pub shown_buttons : Bool → Value → List Control
  shown_buttons master u = if master then user_buttons u else []

  pub users-Renders :
      (master : Bool) (us : Elements)
      → every is_user us ≡ true
      → Renders
          (table_body to_text date_text time_text "пусто"
            (user_row to_text date_text time_text master)
            (arr us))
          (gathered (shown_buttons master) us)
  unfolding shown_buttons
  users-Renders master us h =
      table-Renders "пусто" (user_row to_text date_text time_text master) is_user
        (shown_buttons master)
        (λ u e.
          let (fs, same) = objects u (ground arith) in
          subst
            (λ (x : Value).
              Renders (user_row to_text date_text time_text master x) (shown_buttons master x))
            (sym same)
            (user_row-Renders master fs (subst (λ (x : Value). is_user x ≡ true) same e)))
        us h

  pub nodes-Renders :
      (nodes : Value)
      → or_null (is_array_of is_node) nodes ≡ true
      → Renders (nodes_card to_text date_text time_text nodes) []
  unfolding nodes_card controls table heads mountable is_child
  nodes-Renders null h = (_, refl, refl, refl)
  nodes-Renders (arr us) h =
      let (v, f, g, m) =
        table-Renders "нод пока нет" (node_row to_text date_text time_text) is_node (λ u. [])
          (λ u e.
            let (fs, same) = objects u (ground arith) in
            subst (λ (x : Value). Renders (node_row to_text date_text time_text x) []) (sym same)
              (node_row-Renders fs (subst (λ (x : Value). is_node x ≡ true) same e)))
          us h in
      bind-Renders
        (λ body. ok (
          tag "div" (
            views (
              tag "div" (text "Ноды кластера")
              ∷ table to_text date_text time_text ("code" ∷ "роль" ∷ "адрес" ∷ "last seen" ∷ [])
                  body
              ∷ []))))
        f (_, refl, rw (g ∙ no_buttons us) refl, rw m refl)
  nodes-Renders undefined h = absurd (ground arith)
  nodes-Renders (obj fs) h = absurd (ground arith)
  nodes-Renders (str s) h = absurd (ground arith)
  nodes-Renders (num n) h = absurd (ground arith)
  nodes-Renders (bool b) h = absurd (ground arith)

  pub role-Renders :
      (role : Value)
      → or_null is_role role ≡ true
      → Renders (role_badge to_text date_text time_text role) []
  unfolding role_badge controls get mountable is_child get_opt
  role-Renders null h = (_, refl, refl, refl)
  role-Renders (obj fs) h = (_, refl, refl, string-is_child (find "role" fs) (ground arith))
  role-Renders (arr us) h = absurd (ground arith)
  role-Renders undefined h = absurd (ground arith)
  role-Renders (str s) h = absurd (ground arith)
  role-Renders (num n) h = absurd (ground arith)
  role-Renders (bool b) h = absurd (ground arith)
