-- ===== src/System/Calls.antt =====
-- The methods of `api` in internal/server/web/src/api.ts against the routes that the server registers.
use telemux.System.Reads.{route_for, may_fail, read-is_ok}
use telemux.Base.{
  ok, ◌||◌, ◌⊎◌, Bool-cases, inl, inr, ℕ, String, ◌<>◌, Bool, true, false, Option, none, some, ◌≡◌,
  refl, arith,
}
use text.Mathlib.TextLemmas.{append_assoc}
use telemux.Base.Int.{ℤ, pos}
use telemux.Web.Settled.{Settles, j-answers_as, j-is_ok}
use telemux.Sync.{SyncError}
use telemux.Web.Value.{Value}
use telemux.Web.Types.{is_me, is_version, is_role, is_sync_status}
use telemux.Web.View.Kept.{is_page, is_node_list, is_no_list}
use telemux.Web.Api.{
  Call, me, logout, version, role, sync_status, sync_now, nodes, login, users, create_user,
  delete_user, renew_user, enable_user, given_or, request, response, j, post,
}
use telemux.Server.Mux.{Route, at_user, at_renew, at_enable, at_disable, verb, filled}
use telemux.System.Http.{Incoming, Site, State, handler}
use telemux.System.Answers.{answer_of}
use telemux.System.Typed.{handler-typed}
use telemux.System.Typed.Answered.{typed_for, is_json}

-- A route with its wildcard written another way.
abbrev pub with_segment : (String → String) → Route → Route
with_segment f (at_user name) = at_user (f name)
with_segment f (at_renew name) = at_renew (f name)
with_segment f (at_enable name) = at_enable (f name)
with_segment f (at_disable name) = at_disable (f name)
with_segment f r = r

abbrev pub with_query : String → Option String → String
with_query path none = path
with_query path (some q) = path <> q

-- The type of the promise that a method returns.
unfoldable pub declared : Call → Value → Bool
declared me v = is_me v
declared version v = is_version v
declared role v = is_role v
declared sync_status v = is_sync_status v
declared sync_now v = is_sync_status v
declared nodes v = is_node_list v
declared (users _ _) v = is_page v
declared _ v = true

-- What comes: the declared type, or null in place of an empty list of nodes.
unfoldable pub sent : Call → Value → Bool
sent nodes v = declared nodes v || is_no_list v
sent c v = declared c v

declared-typed_for : (c : Call) → sent c ≡ typed_for (route_for c)
unfolding sent declared typed_for route_for
declared-typed_for (enable_user name true) = refl
declared-typed_for (enable_user name false) = refl
declared-typed_for _ = refl

route_for-is_json : (c : Call) → is_json (route_for c) ≡ true
unfolding route_for
route_for-is_json (enable_user name true) = refl
route_for-is_json (enable_user name false) = refl
route_for-is_json _ = refl

module _ (show_int : ℤ → String) (encode_uri_component : String → String) where
  unfoldable pub query : Call → Option String
  query (users limit offset) = some (
      "?limit="
      <> show_int (given_or limit (pos 50))
      <> "&offset="
      <> show_int (given_or offset (pos 0)))
  query _ = none

  -- Every method of the client asks with the method of the route that it means, at the path of that
  -- route with the user's name escaped, and with a query for a page of users only.
  pub request-route_for :
      (c : Call)
      → ((request show_int encode_uri_component c).method ≡ verb (route_for c))
        × ((path : String) × (filled (with_segment encode_uri_component (route_for c)) ≡ some path)
            × ((request show_int encode_uri_component c).url ≡ with_query path (query c)))
  unfolding request verb filled route_for query post
  request-route_for me = (refl, (_, refl, refl))
  request-route_for logout = (refl, (_, refl, refl))
  request-route_for version = (refl, (_, refl, refl))
  request-route_for role = (refl, (_, refl, refl))
  request-route_for sync_status = (refl, (_, refl, refl))
  request-route_for sync_now = (refl, (_, refl, refl))
  request-route_for nodes = (refl, (_, refl, refl))
  request-route_for (login user password) = (refl, (_, refl, refl))
  request-route_for (users limit offset) = (refl, (_, refl, append_assoc "/api/users" "?limit=" _))
  request-route_for (create_user u) = (refl, (_, refl, refl))
  request-route_for (delete_user name) = (refl, (_, refl, refl))
  request-route_for (renew_user name expiration) =
      (refl, (_, refl, append_assoc "/api/users/" (encode_uri_component name) "/renew"))
  request-route_for (enable_user name true) =
      (refl, (_, refl, append_assoc "/api/users/" (encode_uri_component name) "/enable"))
  request-route_for (enable_user name false) =
      (refl, (_, refl, append_assoc "/api/users/" (encode_uri_component name) "/disable"))

  module _ (show : ℕ → String) (to_text : Value → String) (format_time : ℕ → String)
      (error_text : SyncError → String) {N : Type 0} (site : Site N) where
    -- When the mux knows the route that a method of the client means, the promise of the method comes
    -- to a value of the type that the method declares (or for the nodes to null in place of the list),
    -- or is rejected with the error that the server names in its answer, whatever the session and the
    -- state of the server. A method that only reads is not rejected, unless the middleware stops the
    -- request or a statement on the database fails.
    pub call-Settles :
        (c : Call) (q : Incoming) (s : State N) (path : String)
        → q.method ≡ (request show_int encode_uri_component c).method
        → q.url ≡ (request show_int encode_uri_component c).url
        → filled (with_segment encode_uri_component (route_for c)) ≡ some path
        → site.mux (verb (route_for c)) (with_query path (query c)) ≡ some (route_for c)
        → Settles
            (sent c)
            (answer_of format_time error_text (handler site q s).0)
            (j show to_text (response (answer_of format_time error_text (handler site q s).0)))
          × ((may_fail site c q s ≡ true)
              ⊎ ((v : Value) × (j show to_text
                      (response (answer_of format_time error_text (handler site q s).0))
                    ≡ ok v)))
    call-Settles c q s path m u there known =
        let (asks, (path', there', url)) = request-route_for c in
        let same : path' ≡ path = ground (arith, there, there') in
        let found : site.mux q.method q.url ≡ some (route_for c) =
          rw (m, u, asks, url, same) known in
        let typed =
          handler-typed format_time error_text site q s (route_for c) found (route_for-is_json c) in
        let answer = answer_of format_time error_text (handler site q s).0 in
        (
          rw (declared-typed_for c)
              (j-answers_as show to_text (typed_for (route_for c)) answer typed),
          elim (Bool-cases (may_fail site c q s)) [
            | inl fails ↦ inl fails
            | inr safe ↦ inr (
                j-is_ok show to_text (typed_for (route_for c)) answer typed
                  (read-is_ok site format_time error_text c q s found safe))
          ],
        )
