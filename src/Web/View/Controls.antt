-- ===== src/Web/View/Controls.antt =====
-- What the dashboard offers to do, and that it can always be shown.
use telemux.Base.{
  ap, append-nil, Result-cases, ◌∙◌, sym, subst, String, Bool, true, false, ◌&&◌, List, [], ◌∷◌,
  ◌++◌, ok, ◌≡◌, refl, arith, if◌then◌else◌, Bool-cases, inl, inr,
}
use telemux.Web.View.{
  is_child, mountable, create_controls, diff_text, synced_at, heads, table, table_body, user_row,
  View, Control, presses, types, controls,
}
use telemux.Web.View.Page.{dashboard_page, dashboard_view}
use telemux.Web.Value.{
  undefined, str, num, bool, Value, null, obj, arr, Elements, get, get_opt, find, or_default,
}
use telemux.Web.Types.{
  is_string, is_number, or_null, is_array_of, is_role, is_sync_status, is_node, is_user,
}
use telemux.Web.Dashboard.{Dashboard, is_master}
use telemux.Web.App.{typed_name, clicked_refresh, clicked_logout, clicked_create, clicked_sync}
use telemux.Web.View.Rows.{
  string-is_child, gathered, user_buttons, shown_buttons, no_buttons, Renders, users-Renders,
  nodes-Renders, role-Renders,
}

-- The values of a dashboard are of their declared types.
abbrev pub is_typed : Dashboard → Bool
is_typed d =
    is_string d.version
    && is_number d.total
    && or_null is_role d.role
    && or_null is_sync_status d.sync
    && is_array_of is_user d.users
    && or_null (is_array_of is_node) d.nodes

all_six :
    (a b c d e f : Bool)
    → (a && b && c && d && e && f) ≡ true
    → (a ≡ true) × (b ≡ true) × (c ≡ true) × (d ≡ true) × (e ≡ true) × (f ≡ true)
all_six a b c d e f h = ground arith

-- The parts of a dashboard whose values are typed.
pub is_typed-parts :
    (d : Dashboard)
    → is_typed d ≡ true
    → (is_string d.version ≡ true)
      × (is_number d.total ≡ true)
      × (or_null is_role d.role ≡ true)
      × (or_null is_sync_status d.sync ≡ true)
      × (is_array_of is_user d.users ≡ true)
      × (or_null (is_array_of is_node) d.nodes ≡ true)
is_typed-parts d h =
    all_six (is_string d.version) (is_number d.total) (or_null is_role d.role)
      (or_null is_sync_status d.sync) (is_array_of is_user d.users)
      (or_null (is_array_of is_node) d.nodes) h

string-there : (v d : Value) → is_string v ≡ true → or_default v d ≡ v
string-there (str s) d h = refl
string-there undefined d h = absurd (ground arith)
string-there null d h = absurd (ground arith)
string-there (obj fs) d h = absurd (ground arith)
string-there (arr vs) d h = absurd (ground arith)
string-there (num n) d h = absurd (ground arith)
string-there (bool b) d h = absurd (ground arith)

module _ (to_text date_text time_text : Value → String) where
  synced_at-ok :
      (sync : Value)
      → or_null is_sync_status sync ≡ true
      → (s : String) × (synced_at to_text date_text time_text sync ≡ ok s)
  unfolding synced_at get_opt
  synced_at-ok sync h = elim (Result-cases (synced_at to_text date_text time_text sync)) [
    | inl there ↦ there
    | inr (x, e) ↦ absurd (ground arith)
  ]

  diff_text-ok :
      (sync : Value)
      → or_null is_sync_status sync ≡ true
      → (s : String) × (diff_text to_text date_text time_text sync ≡ ok s)
  unfolding diff_text get
  diff_text-ok null h = (_, refl)
  diff_text-ok (obj fs) h = (_, refl)
  diff_text-ok (arr us) h = absurd (ground arith)
  diff_text-ok undefined h = absurd (ground arith)
  diff_text-ok (str s) h = absurd (ground arith)
  diff_text-ok (num n) h = absurd (ground arith)
  diff_text-ok (bool b) h = absurd (ground arith)

  page-controls :
      (d : Dashboard) (at : String) (badge : View) (diff : String) (users nodes : View)
      → controls badge ≡ []
      → controls nodes ≡ []
      → controls (dashboard_page to_text date_text time_text d at badge diff users nodes) ≡ (
          presses "выйти" clicked_logout
          ∷ presses "Синхронизировать" clicked_sync
          ∷ presses "Обновить" clicked_refresh
          ∷ ((if is_master d
                then types d.new_name typed_name ∷ presses "+ Создать" clicked_create ∷ []
                else [])
              ++ controls users))
  unfolding dashboard_page controls table heads create_controls
  page-controls d at badge diff users nodes b n = elim (Bool-cases (is_master d)) [
    | inl m ↦ simp (b, n, m, append-nil)
    | inr m ↦ simp (b, n, m, append-nil)
  ]

  name-is_child :
      (role : Value)
      → or_null is_role role ≡ true
      → is_child (or_default (get_opt role "role") (str "…")) ≡ true
  unfolding is_child get_opt
  name-is_child null h = refl
  name-is_child (obj fs) h =
      subst (λ (v : Value). is_child v ≡ true)
        (sym (string-there (find "role" fs) (str "…") (ground arith)))
        (string-is_child (find "role" fs) (ground arith))
  name-is_child undefined h = absurd (ground arith)
  name-is_child (arr us) h = absurd (ground arith)
  name-is_child (str s) h = absurd (ground arith)
  name-is_child (num n) h = absurd (ground arith)
  name-is_child (bool b) h = absurd (ground arith)

  number-alone : (v : Value) → is_number v ≡ true → is_child v ≡ true
  unfolding is_child
  number-alone (num n) h = refl
  number-alone undefined h = absurd (ground arith)
  number-alone null h = absurd (ground arith)
  number-alone (str s) h = absurd (ground arith)
  number-alone (obj fs) h = absurd (ground arith)
  number-alone (arr vs) h = absurd (ground arith)
  number-alone (bool b) h = absurd (ground arith)

  page-mountable :
      (d : Dashboard) (at : String) (badge : View) (diff : String) (users nodes : View)
      → is_typed d ≡ true
      → mountable badge ≡ true
      → mountable users ≡ true
      → mountable nodes ≡ true
      → mountable (dashboard_page to_text date_text time_text d at badge diff users nodes) ≡ true
  unfolding dashboard_page mountable table heads create_controls
  page-mountable d at badge diff users nodes typed b u n =
      let (version_typed, total_typed, role_typed, _, _, _) = is_typed-parts d typed in
      let version = string-is_child d.version version_typed in
      let total = number-alone d.total total_typed in
      let role = name-is_child d.role role_typed in
      elim (Bool-cases (is_master d)) [
        | inl m ↦ simp (b, u, n, m, version, total, role)
        | inr m ↦ simp (b, u, n, m, version, total, role)
      ]

  offered :
      (master : Bool) (name : String) (us : Elements) (cs : List Control)
      → cs ≡ gathered (shown_buttons to_text date_text time_text master) us
      → ((if master then types name typed_name ∷ presses "+ Создать" clicked_create ∷ [] else [])
          ++ cs)
        ≡ (if master
            then types name typed_name
              ∷ presses "+ Создать" clicked_create
              ∷ gathered (user_buttons to_text date_text time_text) us
            else [])
  unfolding shown_buttons
  offered true name us cs e =
      ap (λ (c : List Control). types name typed_name ∷ presses "+ Создать" clicked_create ∷ c) e
  offered false name us cs e = e ∙ no_buttons us

  pub dashboard_view-Renders :
      (d : Dashboard) (us : Elements)
      → is_typed d ≡ true
      → d.users ≡ arr us
      → Renders (dashboard_view to_text date_text time_text d) (
          presses "выйти" clicked_logout
          ∷ presses "Синхронизировать" clicked_sync
          ∷ presses "Обновить" clicked_refresh
          ∷ (if is_master d
              then types d.new_name typed_name
                ∷ presses "+ Создать" clicked_create
                ∷ gathered (user_buttons to_text date_text time_text) us
              else []))
  unfolding dashboard_view
  dashboard_view-Renders d us h e =
      let (_, _, role_typed, sync_typed, users_typed, nodes_typed) = is_typed-parts d h in
      let (at, at_ok) = synced_at-ok d.sync sync_typed in
      let (diff, diff_ok) = diff_text-ok d.sync sync_typed in
      let (badge, badge_ok, badge_none, badge_fine) =
        role-Renders to_text date_text time_text d.role role_typed in
      let (body, body_ok, body_has, body_fine) =
        users-Renders to_text date_text time_text (is_master d) us
          (subst (λ (v : Value). is_array_of is_user v ≡ true) e users_typed) in
      let (nodes, nodes_ok, nodes_none, nodes_fine) =
        nodes-Renders to_text date_text time_text d.nodes nodes_typed in
      let users_ok =
        subst
          (λ (x : Value).
            table_body to_text date_text time_text "пусто"
              (user_row to_text date_text time_text (is_master d)) x
            ≡ ok body)
          (sym e) body_ok in
      let fine = page-mountable d at badge diff body nodes h badge_fine body_fine nodes_fine in
      (
        dashboard_page to_text date_text time_text d at badge diff body nodes,
        rw at_ok (rw badge_ok (rw diff_ok (rw users_ok (rw nodes_ok (rw fine refl))))),
        page-controls d at badge diff body nodes badge_none nodes_none
            ∙ ap
                (λ (c : List Control).
                  presses "выйти" clicked_logout
                  ∷ presses "Синхронизировать" clicked_sync
                  ∷ presses "Обновить" clicked_refresh
                  ∷ c)
                (offered (is_master d) d.new_name us (controls body) body_has),
        fine,
      )
