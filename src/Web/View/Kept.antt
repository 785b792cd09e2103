-- ===== src/Web/View/Kept.antt =====
-- The handlers of the dashboard keep its values of their declared types.
use telemux.Base.{
  String, Bool, true, ◌&&◌, List, ok, err, Result, ◌≡◌, refl, arith, inl, inr, string_eq,
  Result-cases, ◌||◌, Bool-cases, ◌==◌,
}
use telemux.Web.Value.{Value, undefined, null, obj, arr, str, num, bool, get, get_opt, or_default}
use telemux.Base.Int.{pos}
use telemux.Web.Types.{
  is_version, is_number, is_null, is_object, is_array_of, is_paging, is_role, is_sync_status,
  is_node, is_user,
}
use telemux.Web.Dashboard.{
  Dashboard, Loaded, Source, Settled, promise_all, show_data, caught, refresh_data, refresh_nodes,
  act_settled, act_started,
}
use telemux.Web.Dashboard.Refresh.{promise_all-AllThere}
use telemux.Web.View.Controls.{is_typed}

-- What a call of the panel comes back with is of the declared type, or an error.
abbrev pub or_failed : (Value → Bool) → Result String Value → Bool
or_failed p (err _) = true
or_failed p (ok v) = p v

abbrev pub is_page : Value → Bool
is_page v = is_object v && is_array_of is_user (get_opt v "data") && is_paging (get_opt v "paging")

abbrev pub is_node_list : Value → Bool
is_node_list v = is_object v && is_array_of is_node (get_opt v "nodes")

-- What the server sends where there are no nodes.
abbrev pub is_no_list : Value → Bool
is_no_list v = is_object v && is_null (get_opt v "nodes")

abbrev pub is_typed_load : Loaded → Bool
is_typed_load l =
    or_failed is_version l.version
    && or_failed is_role l.role
    && or_failed is_sync_status l.sync
    && or_failed is_page l.users

get-get_opt : (v : Value) (k : String) → is_object v ≡ true → get v k ≡ ok (get_opt v k)
unfolding get get_opt
get-get_opt (obj fs) k h = refl
get-get_opt undefined k h = absurd (ground arith)
get-get_opt null k h = absurd (ground arith)
get-get_opt (arr us) k h = absurd (ground arith)
get-get_opt (str s) k h = absurd (ground arith)
get-get_opt (num n) k h = absurd (ground arith)
get-get_opt (bool b) k h = absurd (ground arith)

number-there : (v d : Value) → is_number v ≡ true → is_number (or_default v d) ≡ true
number-there (num n) d h = refl
number-there undefined d h = absurd (ground arith)
number-there null d h = absurd (ground arith)
number-there (obj fs) d h = absurd (ground arith)
number-there (arr vs) d h = absurd (ground arith)
number-there (str s) d h = absurd (ground arith)
number-there (bool b) d h = absurd (ground arith)

total-number :
    (paging : Value)
    → is_paging paging ≡ true
    → is_number (or_default (get_opt paging "total") (num (pos 0))) ≡ true
total-number paging h = number-there (get_opt paging "total") (num (pos 0)) (ground arith)

show_data-typed :
    (a : Settled) (d : Dashboard)
    → is_version a.version ≡ true
    → is_role a.role ≡ true
    → is_sync_status a.sync ≡ true
    → is_page a.users ≡ true
    → is_typed d ≡ true
    → is_typed (show_data a d).1 ≡ true
unfolding show_data
show_data-typed a d w r s u h =
    let versioned = get-get_opt a.version "version" (ground arith) in
    let found = get-get_opt a.users "data" (ground arith) in
    let paged = get-get_opt a.users "paging" (ground arith) in
    let total = total-number (get_opt a.users "paging") (ground arith) in
    rw versioned (rw found (rw paged (ground arith)))

pub act_settled-typed :
    (a : _) (r : Result String Value) (d : Dashboard)
    → is_typed d ≡ true
    → is_typed (act_settled a r d).0 ≡ true
unfolding act_settled
act_settled-typed a r d h = ground arith

pub act_started-typed : (d : Dashboard) → is_typed d ≡ true → is_typed (act_started d) ≡ true
unfolding act_started
act_started-typed d h = h

pub refresh_nodes-typed :
    (r : Result String Value) (d : Dashboard)
    → or_failed (λ v. is_node_list v || is_no_list v) r ≡ true
    → is_typed d ≡ true
    → is_typed (refresh_nodes r d) ≡ true
unfolding refresh_nodes
refresh_nodes-typed (err e) d n h = ground arith
refresh_nodes-typed (ok v) d n h =
    rw (get-get_opt v "nodes" (ground arith), refresh_nodes) (ground arith)

caught-typed :
    (end : Result String (Unit {0}) × Dashboard)
    → is_typed end.1 ≡ true
    → is_typed (caught end).0 ≡ true
unfolding caught
caught-typed (ok _, d) h = h
caught-typed (err e, d) h = ground arith

failed-typed :
    (e : String) (d : Dashboard) → is_typed d ≡ true → is_typed (refresh_data (err e) d).0 ≡ true
unfolding refresh_data
failed-typed e d h = elim (Bool-cases (e == "unauthorized")) [
  | inl same ↦ rw same h
  | inr other ↦ rw other h
]

or_failed-ok :
    (p : Value → Bool) (r : Result String Value) (v : Value)
    → r ≡ ok v
    → or_failed p r ≡ true
    → p v ≡ true
or_failed-ok p (ok v) w e h = ground arith
or_failed-ok p (err x) w e h = absurd (ground arith)

all_four :
    (a b c d : Bool) → (a && b && c && d) ≡ true → (a ≡ true) × (b ≡ true) × (c ≡ true) × (d ≡ true)
all_four a b c d h = ground arith

pub refresh_data-typed :
    (order : List Source) (l : Loaded) (d : Dashboard)
    → is_typed_load l ≡ true
    → is_typed d ≡ true
    → is_typed (refresh_data (promise_all order l) d).0 ≡ true
unfolding refresh_data
refresh_data-typed order l d typed h = elim (Result-cases (promise_all order l)) [
  | inr (e, failed) ↦ rw failed (failed-typed e d h)
  | inl (a, there) ↦
      let (v, r, s, u) = promise_all-AllThere order l a there in
      let (vt, rt, st, ut) =
        all_four (or_failed is_version l.version) (or_failed is_role l.role)
          (or_failed is_sync_status l.sync) (or_failed is_page l.users) typed in
      rw there (
        caught-typed (show_data a d) (
          show_data-typed a d (or_failed-ok is_version l.version a.version v vt)
            (or_failed-ok is_role l.role a.role r rt)
            (or_failed-ok is_sync_status l.sync a.sync s st)
            (or_failed-ok is_page l.users a.users u ut) h))
]
