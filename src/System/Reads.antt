-- ===== src/System/Reads.antt =====
-- The routes of internal/server that only read: they answer with a success where the middleware lets the
-- request pass and the database works.
use telemux.Base.{
  ℕ, String, Bool, true, false, not, ◌&&◌, some, [], ◌∷◌, ◌≡◌, arith, if◌then◌else◌, refl,
}
use telemux.Auth.{Gate, passed, unauthorized, wrap}
use telemux.Store.{Db, select, is_in_recovery}
use telemux.Sync.{SyncError}
use telemux.Web.Api.{
  Call, me, logout, version, role, sync_status, sync_now, nodes, login, users, create_user,
  delete_user, renew_user, enable_user, is_ok,
}
use telemux.Server.Mux.{
  Route, at_me, at_logout, at_version, at_role, at_status, at_sync, at_nodes, at_login, at_users,
  at_new_user, at_user, at_renew, at_enable, at_disable,
}
use telemux.System.Http.{Incoming, Site, State, handler, gated, routed, dispatch, seen}
use telemux.Role.{detect}
use telemux.Server.Routes.{respond, role_answered}
use telemux.Server.Cluster.{serve, nodes_answered}
use telemux.Server.Users.{list_users, page_answered}
use telemux.Store.Users.{list_users_page}
use telemux.Store.Cluster.{list_nodes}
use telemux.System.Answers.{answer_of}

-- The route that a method means.
unfoldable pub route_for : Call → Route
route_for me = at_me
route_for logout = at_logout
route_for version = at_version
route_for role = at_role
route_for sync_status = at_status
route_for sync_now = at_sync
route_for nodes = at_nodes
route_for (login _ _) = at_login
route_for (users _ _) = at_users
route_for (create_user _) = at_new_user
route_for (delete_user name) = at_user name
route_for (renew_user name _) = at_renew name
route_for (enable_user name on) = if on then at_enable name else at_disable name

-- The methods that read.
abbrev is_reading : Call → Bool
is_reading me = true
is_reading version = true
is_reading role = true
is_reading sync_status = true
is_reading nodes = true
is_reading (users _ _) = true
is_reading _ = false

abbrev is_calm : Db → Bool
is_calm db = elim db.failures [ [] ↦ true | _ ∷ _ ↦ false ]

is_calm-eq : (db : Db) → is_calm db ≡ true → db.failures ≡ []
is_calm-eq db h = ground arith

abbrev is_passed : Gate → Bool
is_passed passed = true
is_passed unauthorized = false

module _ {N : Type 0} (site : Site N) where
  -- A request that writes, or that the middleware stops, or whose statements may fail.
  abbrev pub may_fail : Call → Incoming → State N → Bool
  may_fail c q s =
      not (is_reading c && is_passed (wrap q.now (seen site q) s.auth).0 && is_calm s.db)

  module _ (format_time : ℕ → String) (error_text : SyncError → String) where
    dispatch-is_ok :
        (c : Call) (q : Incoming) (s : State N)
        → is_reading c ≡ true
        → is_calm s.db ≡ true
        → is_ok (answer_of format_time error_text (dispatch site (route_for c) q s).0) ≡ true
    unfolding dispatch answer_of route_for respond role_answered detect select is_in_recovery serve
        nodes_answered list_nodes list_users list_users_page page_answered
    dispatch-is_ok me q s h calm = refl
    dispatch-is_ok version q s h calm = refl
    dispatch-is_ok role q s h calm = let none_fails = is_calm-eq s.db calm in ground arith
    dispatch-is_ok sync_status q s h calm = refl
    dispatch-is_ok nodes q s h calm = let none_fails = is_calm-eq s.db calm in ground arith
    dispatch-is_ok (users limit offset) q s h calm =
        let none_fails = is_calm-eq s.db calm in ground arith
    dispatch-is_ok _ q s h calm = absurd (ground arith)

    gated-is_ok :
        (g : Gate) (c : Call) (q : Incoming) (s : State N)
        → is_reading c ≡ true
        → is_passed g ≡ true
        → is_calm s.db ≡ true
        → is_ok (answer_of format_time error_text (gated site g (some (route_for c)) q s).0) ≡ true
    unfolding gated routed
    gated-is_ok passed c q s h p calm = dispatch-is_ok c q s h calm
    gated-is_ok unauthorized c q s h p calm = absurd (ground arith)

    pub read-is_ok :
        (c : Call) (q : Incoming) (s : State N)
        → site.mux q.method q.url ≡ some (route_for c)
        → may_fail c q s ≡ false
        → is_ok (answer_of format_time error_text (handler site q s).0) ≡ true
    unfolding handler
    read-is_ok c q s found safe =
        let looked = wrap q.now (seen site q) s.auth in
        rw (found, handler)
          (gated-is_ok looked.0 c q (record s { auth = looked.1 }) (ground arith) (ground arith)
            (ground arith))
