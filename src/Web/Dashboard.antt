-- ===== src/Web/Dashboard.antt =====
-- The state of the dashboard and what its handlers do to it, internal/server/web/src/App.tsx. Each
-- part of a handler between two `await`s is one function.
pub mod Refresh
use telemux.Base.{
  String, ◌<>◌, Bool, true, false, Option, none, some, List, [], ◌∷◌, ◌++◌, Result, ok, err, ◌==◌,
  string_eq, if◌then◌else◌,
}
use telemux.Base.Int.{ℤ, pos}
use telemux.Web.Value.{
  Value, undefined, null, num, str, arr, no_elements, get, get_opt, or_default, truthy,
}

pub record Dashboard : Type 0 where
  pub version : Value
  pub role : Value
  pub sync : Value
  pub nodes : Value
  pub users : Value
  pub total : Value
  pub status : String
  pub new_name : String

-- The arguments of `useState`.
abbrev pub initial : Dashboard
initial = record {
  version = str "…";
  role = null;
  sync = null;
  nodes = null;
  users = arr no_elements;
  total = num (pos 0);
  status = "";
  new_name = "";
}

-- A part of a handler: it sets state and may throw an error with a message. What was set stays set.
abbrev pub Part : Type 0 → Type 0
Part A = Dashboard → Result String A × Dashboard

abbrev pub after_throw :
    {A : Type 0} {B : Type 0}
    → Result String A × Dashboard
    → (A → Dashboard → Result String B × Dashboard)
    → Result String B × Dashboard
after_throw (ok a, d) f = f a d
after_throw (err e, d) f = (err e, d)

infixl 5 ◌>>=◌ ◌>>◌
abbrev ◌>>=◌ : {A B : Type 0} → Part A → (A → Part B) → Part B
◌>>=◌ m f d = after_throw (m d) f

abbrev ◌>>◌ : {B : Type 0} → Part (Unit {0}) → Part B → Part B
m >> k = m >>= λ _. k

abbrev lift : {A : Type 0} → Result String A → Part A
lift r d = (r, d)

abbrev modify : (Dashboard → Dashboard) → Part (Unit {0})
modify f d = (ok tt, f d)

-- The results of the four calls that `refresh` makes at once.
pub record Loaded : Type 0 where
  pub version : Result String Value
  pub role : Result String Value
  pub sync : Result String Value
  pub users : Result String Value

pub data Source : Type 0 where
  from_version from_role from_sync from_users : Source

abbrev pub result_of : Loaded → Source → Result String Value
result_of l from_version = l.version
result_of l from_role = l.role
result_of l from_sync = l.sync
result_of l from_users = l.users

-- The first rejection, in the order in which the promises settle.
first_rejection : List Source → Loaded → Option String
first_rejection [] l = none
first_rejection (s ∷ order) l = elim (result_of l s) [
  | err e ↦ some e
  | ok _ ↦ first_rejection order l
]

abbrev all_sources : List Source
all_sources = from_version ∷ from_role ∷ from_sync ∷ from_users ∷ []

abbrev value_of : Result String Value → Value
value_of (ok v) = v
value_of (err _) = undefined

pub record Settled : Type 0 where
  pub version : Value
  pub role : Value
  pub sync : Value
  pub users : Value

-- `Promise.all`: a promise that the order leaves out settles after those that it lists.
unfoldable pub promise_all : List Source → Loaded → Result String Settled
unfolding first_rejection
promise_all order l = elim (first_rejection (order ++ all_sources) l) [
  | some e ↦ err e
  | none ↦ ok (record {
    version = value_of l.version;
    role = value_of l.role;
    sync = value_of l.sync;
    users = value_of l.users;
  })
]

-- The body of the first `try` of `refresh`, from the answers on.
unfoldable pub show_data : Settled → Part (Unit {0})
show_data a = do
  v ← lift (get a.version "version")
  modify (λ d. record d { version = v })
  modify (λ d. record d { role = a.role })
  modify (λ d. record d { sync = a.sync })
  users ← lift (get a.users "data")
  modify (λ d. record d { users = or_default users (arr no_elements) })
  paging ← lift (get a.users "paging")
  modify (λ d. record d { total = or_default (get_opt paging "total") (num (pos 0)) })
  modify (λ d. record d { status = "" })

abbrev pub failure : String → String
failure message = "ошибка: " <> message

-- Whether `refresh` goes on to load the nodes, or has logged out.
pub data Next : Type 0 where
  load_nodes log_out : Next

-- Its first `catch`.
unfoldable pub caught : Result String (Unit {0}) × Dashboard → Dashboard × Next
caught (ok _, d) = (d, load_nodes)
caught (err e, d) =
    if e == "unauthorized" then (d, log_out) else (record d { status = failure e }, load_nodes)

unfoldable pub refresh_data : Result String Settled → Dashboard → Dashboard × Next
unfolding caught show_data
refresh_data (err e) d = caught (err e, d)
refresh_data (ok a) d = caught (show_data a d)

-- The second `try` of `refresh`.
unfoldable pub refresh_nodes : Result String Value → Dashboard → Dashboard
refresh_nodes (err _) d = record d { nodes = null }
refresh_nodes (ok v) d = elim (get v "nodes") [
  | ok nodes ↦ record d { nodes = nodes }
  | err _ ↦ record d { nodes = null }
]

-- What the panel asks of the server on behalf of the user.
pub data Action : Type 0 where
  sync_now : Action
  create_user : String → Action
  enable_user : String → Bool → Action
  delete_user : String → Action

abbrev pub done_text : Action → String
done_text sync_now = "готово"
done_text (create_user _) = "юзер создан"
done_text (enable_user _ _) = "готово"
done_text (delete_user _) = "удалён"

-- `act` up to its first `await`.
unfoldable pub act_started : Dashboard → Dashboard
act_started d = record d { status = "…" }

abbrev after_call : Action → Dashboard → Dashboard
after_call (create_user _) d = record d { new_name = "" }
after_call _ d = d

-- `act` from there on, and whether it refreshes.
unfoldable pub act_settled : Action → Result String Value → Dashboard → Dashboard × Bool
act_settled a (ok _) d = (record (after_call a d) { status = done_text a }, true)
act_settled a (err e) d = (record d { status = failure e }, false)

-- `role?.is_master ?? false`
unfoldable pub is_master : Dashboard → Bool
is_master d = truthy (or_default (get_opt d.role "is_master") (Value.bool false))
