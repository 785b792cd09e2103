-- ===== src/System/Marks.antt =====
-- Which requests wake the background loop: no change of the users goes without the signal.
use telemux.Base.{
  ℕ, String, Bool, false, Option, none, some, List, [], ◌∷◌, ◌≡◌, refl, sym, ◌∙◌, subst, arith, inl,
  inr, Option-cases, string_eq,
}
use telemux.Role.{detect}
use telemux.Auth.{Gate, passed, unauthorized, wrap}
use telemux.Store.{Db, select, is_in_recovery}
use telemux.Store.Table.{IsUnique}
use telemux.Store.Users.{username, list_users_page, list_desired, enabled_users}
use telemux.Sync.Keeps.{sync_node-Keeps}
use telemux.Server.Users.{
  Write, creates, deletes, renews, enables, disables, require_master, barred, handle, list_users,
}
use telemux.Server.Cluster.{lists, beats, asks_token, joins}
use telemux.Server.Routes.{post_sync, respond}
use telemux.Server.Runs.{run_sync}
use telemux.Server.Mux.{
  Route, at_healthz, at_version, at_role, at_status, at_sync, at_me, at_login, at_logout, at_users,
  at_new_user, at_user, at_renew, at_enable, at_disable, at_nodes, at_heartbeat, at_join_token,
  at_join, at_index,
}
use telemux.System.Panel.{store_admin}
use telemux.System.Http.{
  Incoming, Site, State, dispatch, gated, routed, handler, seen, to_server, to_users, served,
  both_node, both_source,
}
use telemux.System.Writes.{perform-unmarked}
use telemux.System.Guarded.{serve-users}
use telemux.System.Unique.{IsKeyed, served-IsKeyed}

select-users : {A : Type 0} (q : Db → A) (db : Db) → (select q db).1.users ≡ db.users
unfolding select
select-users q db = ground arith

module _ (collates : String → String → Bool) where
  pages-users :
      (limit offset : String) (db : Db)
      → (list_users (store_admin collates) limit offset db).1.users ≡ db.users
  unfolding list_users list_users_page select
  pages-users limit offset db = ground arith

  recovery-users : (db : Db) → (is_in_recovery db).1.users ≡ db.users
  unfolding is_in_recovery select
  recovery-users db = ground arith

  -- A route that writes leaves the signal, or leaves the users as they are; and keeps a signal.
  handle-marks_or :
      (r : Write) (dirty : Bool) (db : Db)
      → IsUnique username db.users
      → (handle (store_admin collates) r dirty db).1 ≡ false
      → (dirty ≡ false) × ((handle (store_admin collates) r dirty db).2.users ≡ db.users)
  unfolding handle require_master
  handle-marks_or r dirty db once h =
      let (answer, db1) = is_in_recovery db in
      let same = recovery-users db in
      let once1 : IsUnique username db1.users = subst (IsUnique username) (sym same) once in
      let quiet = perform-unmarked collates r db1 once1 in
      elim (Option-cases (barred (store_admin collates) (detect answer))) [
        | inl free ↦ ground (arith, same, quiet)
        | inr (stop, found) ↦ ground (arith, same)
      ]

module _ {N : Type 0} (site : Site N) where
  -- A request that leaves no signal finds none, and leaves the users as they are.
  abbrev Signals : State N → State N → Type 0
  Signals s t = t.dirty ≡ false → (s.dirty ≡ false) × (t.db.users ≡ s.db.users)

  post_sync-users :
      (now : ℕ) (s : State N) → (to_server site (post_sync now) s).1.db.users ≡ s.db.users
  unfolding to_server respond run_sync list_desired
  post_sync-users now s =
      sync_node-Keeps (λ (w : Db × N). w.0.users ≡ s.db.users) (both_node site.node)
        (λ o rev w h. h) (λ w h. h) site.parse_time site.f
        (both_source site.collates site.format_time) site.opts (s.db, s.node)
        (λ w h. select-users (λ d. enabled_users site.collates site.format_time d.users) w.0 ∙ h)
        refl

  to_users-Signals :
      (w : Write) (s : State N) → IsUnique username s.db.users → Signals s (to_users site w s).1
  unfolding to_users
  to_users-Signals w s once h = handle-marks_or site.collates w s.dirty s.db once h

  dispatch-Signals :
      (r : Route) (q : Incoming) (s : State N)
      → IsUnique username s.db.users
      → Signals s (dispatch site r q s).1
  unfolding dispatch respond
  dispatch-Signals at_role q s once h = (h, recovery-users site.collates s.db)
  dispatch-Signals at_sync q s once h = (h, post_sync-users q.now_after s)
  dispatch-Signals at_users q s once h = (h, pages-users site.collates q.limit q.offset s.db)
  dispatch-Signals at_new_user q s once h =
      to_users-Signals (creates (site.decoder.new_user q.body)) s once h
  dispatch-Signals (at_user name) q s once h = to_users-Signals (deletes name) s once h
  dispatch-Signals (at_renew name) q s once h =
      to_users-Signals (renews name (site.decoder.renewal q.body)) s once h
  dispatch-Signals (at_enable name) q s once h = to_users-Signals (enables name) s once h
  dispatch-Signals (at_disable name) q s once h = to_users-Signals (disables name) s once h
  dispatch-Signals at_nodes q s once h = (h, serve-users site.collates site.deps lists s.db)
  dispatch-Signals at_heartbeat q s once h = (
    h,
    serve-users site.collates site.deps (beats q.authorization (site.decoder.node q.body)) s.db,
  )
  dispatch-Signals at_join_token q s once h =
      (h, serve-users site.collates site.deps (asks_token q.authorization q.drawn_token) s.db)
  dispatch-Signals (at_join token) q s once h =
      (h, serve-users site.collates site.deps (joins token) s.db)
  dispatch-Signals at_healthz q s once h = (h, refl)
  dispatch-Signals at_version q s once h = (h, refl)
  dispatch-Signals at_status q s once h = (h, refl)
  dispatch-Signals at_me q s once h = (h, refl)
  dispatch-Signals at_login q s once h = (h, refl)
  dispatch-Signals at_logout q s once h = (h, refl)
  dispatch-Signals at_index q s once h = (h, refl)

  gated-Signals :
      (g : Gate) (found : Option Route) (q : Incoming) (s : State N)
      → IsUnique username s.db.users
      → Signals s (gated site g found q s).1
  unfolding gated routed
  gated-Signals unauthorized found q s once h = (h, refl)
  gated-Signals passed none q s once h = (h, refl)
  gated-Signals passed (some r) q s once h = dispatch-Signals r q s once h

  handler-Signals :
      (q : Incoming) (s : State N) → IsUnique username s.db.users → Signals s (handler site q s).1
  unfolding handler
  handler-Signals q s once h =
      let looked = wrap q.now (seen site q) s.auth in
      gated-Signals looked.0 (site.mux q.method q.url) q (record s { auth = looked.1 }) once h

  -- If no signal for the background loop is left after any requests, then none was there before
  -- them, and they changed no user. Where they changed one, the signal is left; names are unique.
  pub served-Signals :
      (qs : List Incoming) (s : State N)
      → IsKeyed s.db
      → (served site qs s).1.dirty ≡ false
      → (s.dirty ≡ false) × ((served site qs s).1.db.users ≡ s.db.users)
  unfolding served
  served-Signals [] s keyed h = (h, refl)
  served-Signals (q ∷ qs) s keyed h =
      let s1 = (handler site q s).1 in
      let (clean, later) = served-Signals qs s1 (served-IsKeyed site (q ∷ []) s keyed) h in
      let (before, now) = handler-Signals q s keyed.0 clean in (before, later ∙ now)
