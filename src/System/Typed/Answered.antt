-- ===== src/System/Typed/Answered.antt =====
-- What each handler of internal/server answers is JSON of the type that the panel's client declares.
use telemux.Server.Users.{
  enables, renews, deletes, creates, Write, change, create_answered, perform, list_users, UserAdmin,
  disables, handle, barred, require_master, page_answered,
}
use telemux.Web.Types.{is_me, is_version, is_role, is_sync_status}
use telemux.Base.{
  ◌||◌, Option-cases, ℕ, String, Bool, true, false, Option, none, some, List, [], ◌∷◌, Result, ok,
  err, ◌≡◌, refl, arith, string_eq, inl, inr,
}
use telemux.Store.{store_failed, StoreError, user_exists, User, Node}
use telemux.System.Http.{about_login, logged_out, about_me, Reply, of_server, of_users, of_cluster}
use telemux.Server.Routes.{version_is, role_answered, status_is}
use telemux.Server.Cluster.{
  serve, Deps, ClusterStore, lists, beats, asks_token, joins, nodes_answered,
}
use telemux.Server.Mux.{
  Route, at_role, at_status, at_users, at_nodes, at_healthz, at_index, at_me, at_version, at_sync,
}
use telemux.System.Typed.Values.{status_value-typed, page_value-typed, node_values-typed}
use telemux.Web.Settled.{answers_as}
use telemux.Role.{detect, Role}
use telemux.Server.Users
use telemux.Server.Cluster
use telemux.Base.Int.{ℤ}
use telemux.Sync.{SyncError}
use telemux.Server.Runs.{SyncStatus}
use telemux.Web.Value.{Value, get_opt}
use telemux.Web.View.Kept.{is_page, is_node_list, is_no_list}
use telemux.System.Answers.{answer_of, error_answer}

abbrev pub any : Value → Bool
any v = true

-- The nodes, or the null that stands for none of them.
abbrev pub is_list_or_null : Value → Bool
is_list_or_null v = is_node_list v || is_no_list v

-- The type that the client declares for the answers of a route, where it declares one; the list of
-- nodes may be null.
unfoldable pub typed_for : Route → Value → Bool
typed_for at_me v = is_me v
typed_for at_version v = is_version v
typed_for at_role v = is_role v
typed_for at_status v = is_sync_status v
typed_for at_sync v = is_sync_status v
typed_for at_users v = is_page v
typed_for at_nodes v = is_list_or_null v
typed_for _ v = true

-- The routes that answer with JSON.
abbrev pub is_json : Route → Bool
is_json at_healthz = false
is_json at_index = false
is_json _ = true

module _ (format_time : ℕ → String) (error_text : SyncError → String) where
  abbrev pub Answers : (Value → Bool) → Reply → Type 0
  Answers p r = answers_as p (answer_of format_time error_text r) ≡ true

  pub roles-typed :
      (answer : Result String Bool) → Answers is_role (of_server (role_answered (detect answer)))
  unfolding answers_as answer_of error_answer role_answered detect get_opt string_eq
  roles-typed (ok true) = refl
  roles-typed (ok false) = refl
  roles-typed (err e) = refl

  pub me-typed : (answer : Bool × Bool) → Answers is_me (about_me answer)
  unfolding answers_as answer_of get_opt string_eq
  me-typed answer = refl

  pub login-typed : (answer : Option String) → Answers any (about_login answer)
  unfolding answers_as answer_of error_answer get_opt string_eq
  login-typed none = refl
  login-typed (some token) = refl

  pub logout-typed : Answers any logged_out
  unfolding answers_as answer_of
  logout-typed = refl

  pub version-typed : (v : String) → Answers is_version (of_server (version_is v))
  unfolding answers_as answer_of get_opt string_eq
  version-typed v = refl

  pub status-typed : (st : SyncStatus) → Answers is_sync_status (of_server (status_is st))
  unfolding answers_as answer_of
  status-typed st = status_value-typed format_time error_text st

  pub pages-typed :
      {W : Type 0} (users : UserAdmin W) (limit offset : ℤ) (answer : Result String (List User × ℕ))
      → Answers is_page (of_users (page_answered users limit offset answer))
  unfolding answers_as answer_of error_answer page_answered get_opt string_eq
  pages-typed users limit offset (ok (us, total)) =
      page_value-typed format_time error_text us total limit offset
  pages-typed users limit offset (err e) = refl

  nodes-typed :
      (answer : Result String (List Node))
      → Answers is_list_or_null (of_cluster (nodes_answered answer))
  unfolding answers_as answer_of error_answer nodes_answered get_opt string_eq
  nodes-typed (ok []) = refl
  nodes-typed (ok (n ∷ ns)) = rw (node_values-typed format_time error_text (n ∷ ns)) refl
  nodes-typed (err e) = refl

  module _ {W : Type 0} (users : UserAdmin W) where
    created-typed :
        (answer : Result StoreError User) → Answers any (of_users (create_answered users answer).0)
    unfolding answers_as answer_of error_answer create_answered get_opt string_eq
    created-typed (ok u) = refl
    created-typed (err user_exists) = refl
    created-typed (err (store_failed e)) = refl

    change-typed :
        (answer : Result String Bool × W) → Answers any (of_users (change users answer).0.0)
    unfolding answers_as answer_of error_answer change get_opt string_eq
    change-typed (ok true, w) = refl
    change-typed (ok false, w) = refl
    change-typed (err e, w) = refl

    perform-typed : (r : Write) (w : W) → Answers any (of_users (perform users r w).0.0)
    unfolding answers_as answer_of error_answer perform get_opt string_eq
    perform-typed (creates none) w = refl
    perform-typed (creates (some b)) w = ground (
      arith,
      created-typed (users.create_user b.username b.secret b.expiration_at b.max_tcp_conns w).0,
    )
    perform-typed (deletes name) w = change-typed (users.delete_user name w)
    perform-typed (renews name none) w = refl
    perform-typed (renews name (some exp)) w = change-typed (users.set_expiration name exp w)
    perform-typed (enables name) w = change-typed (users.set_enabled name true w)
    perform-typed (disables name) w = change-typed (users.set_enabled name false w)

    barred-typed :
        (r : Result String Role) (answer : Users.Response)
        → barred users r ≡ some answer
        → Answers any (of_users answer)
    unfolding answers_as answer_of error_answer barred get_opt string_eq
    barred-typed r answer h = ground arith

    pub handle-typed :
        (r : Write) (dirty : Bool) (w : W) → Answers any (of_users (handle users r dirty w).0)
    unfolding handle require_master
    handle-typed r dirty w =
        let (answer, w1) = users.is_in_recovery w in
        elim (Option-cases (barred users (detect answer))) [
          | inl free ↦ rw (free, handle) (perform-typed r w1)
          | inr (stop, found) ↦ rw (found, handle) (barred-typed (detect answer) stop found)
        ]

  module _ (deps : Deps) {W : Type 0} (cluster : ClusterStore W) where
    pub serve-typed :
        (r : Cluster.Request) (w : W) → Answers any (of_cluster (serve deps cluster r w).0)
    unfolding serve answers_as answer_of error_answer get_opt string_eq
    serve-typed lists w = ground arith
    serve-typed (beats h body) w = ground arith
    serve-typed (asks_token h (ok tok)) w = ground arith
    serve-typed (asks_token h (err e)) w = ground arith
    serve-typed (joins t) w = ground arith

    pub nodes_served-typed :
        (w : W) → Answers is_list_or_null (of_cluster (serve deps cluster lists w).0)
    unfolding serve
    nodes_served-typed w = nodes-typed (cluster.list_nodes w).0
