-- ===== src/System/Typed/Values.antt =====
-- The JSON of users, nodes, runs and pages is of the types that internal/server/web/src/api.ts declares.
use telemux.Base.{ℕ, String, true, List, [], ◌∷◌, ◌≡◌, refl, arith, string_eq}
use telemux.Base.Int.{ℤ}
use telemux.Store.{User, Node}
use telemux.Sync.{SyncError}
use telemux.Server.Runs.{SyncStatus}
use telemux.Web.Value.{get_opt}
use telemux.Web.Types.{every, is_sync_status, is_node, is_user}
use telemux.Web.View.Kept.{is_page}
use telemux.System.Answers.{
  user_value, node_value, user_values, node_values, status_value, page_value,
}

module _ (format_time : ℕ → String) (error_text : SyncError → String) where
  pub user_value-typed : (u : User) → is_user (user_value format_time error_text u) ≡ true
  unfolding user_value get_opt string_eq
  user_value-typed u = ground arith

  node_value-typed : (n : Node) → is_node (node_value format_time error_text n) ≡ true
  unfolding node_value get_opt string_eq
  node_value-typed n = ground arith

  pub status_value-typed :
      (st : SyncStatus) → is_sync_status (status_value format_time error_text st) ≡ true
  unfolding status_value get_opt string_eq
  status_value-typed st = ground arith

  user_values-typed :
      (us : List User) → every is_user (user_values format_time error_text us) ≡ true
  unfolding user_values
  user_values-typed [] = refl
  user_values-typed (u ∷ us) = ground (arith, user_value-typed u, user_values-typed us)

  pub node_values-typed :
      (ns : List Node) → every is_node (node_values format_time error_text ns) ≡ true
  unfolding node_values
  node_values-typed [] = refl
  node_values-typed (n ∷ ns) = ground (arith, node_value-typed n, node_values-typed ns)

  pub page_value-typed :
      (us : List User) (total : ℕ) (limit offset : ℤ)
      → is_page (page_value format_time error_text us total limit offset) ≡ true
  unfolding page_value get_opt string_eq
  page_value-typed us total limit offset = ground (arith, user_values-typed us)
