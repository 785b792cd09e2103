-- ===== src/System/Keeps.antt =====
-- What every request keeps of the database, when every method of the store keeps it.
use telemux.Base.{
  ℕ, String, Bool, true, false, Option, none, some, List, [], ◌∷◌, Result, ok, err, inl, inr,
  Option-cases, Result-cases, Bool-cases, ◌==◌, string_eq, length,
}
use telemux.Base.Int.{ℤ, pos}
use telemux.Role.{detect}
use telemux.Auth.{Gate, passed, unauthorized, wrap}
use telemux.Store.{Db, Node, select, is_in_recovery}
use telemux.Store.Users.{
  create_user, delete_user, set_expiration, set_enabled, list_users_page, list_desired,
  enabled_users, page, clamp_limit, clamp_offset,
}
use telemux.Store.Cluster.{list_nodes, upsert_node, create_join_token, consume_join_token}
use telemux.Sync.Keeps.{sync_node-Keeps}
use telemux.Server.Users.{
  Write, creates, deletes, renews, enables, disables, perform, require_master, barred, handle,
  list_users,
}
use telemux.Server.Cluster.{
  Deps, heartbeat, new_join_token, cluster_authed, serve, lists, beats, asks_token, joins,
}
use telemux.Server.Cluster
use telemux.Server.Routes.{post_sync, respond}
use telemux.Server.Runs.{run_sync}
use telemux.Server.Query.{atoi_default}
use telemux.Server.Mux.{
  Route, at_healthz, at_version, at_role, at_status, at_sync, at_me, at_login, at_logout, at_users,
  at_new_user, at_user, at_renew, at_enable, at_disable, at_nodes, at_heartbeat, at_join_token,
  at_join, at_index,
}
use telemux.System.Panel.{store_admin, store_cluster}
use telemux.System.Http.{
  Incoming, Site, State, dispatch, gated, routed, handler, seen, to_server, served, both_node,
  both_source,
}

-- A predicate that every method of the store keeps.
pub record Kept (K : Db → Type 0) : Type 1 where
  pub selects : {A : Type 0} (q : Db → A) (db : Db) → K db → K (select q db).1
  pub creates :
      (name secret : String) (exp : Option ℕ) (conns : Option ℤ) (db : Db)
      → K db
      → K (create_user name secret exp conns db).1
  pub deletes : (name : String) (db : Db) → K db → K (delete_user name db).1
  pub expires : (name : String) (exp : Option ℕ) (db : Db) → K db → K (set_expiration name exp db).1
  pub enables : (name : String) (on : Bool) (db : Db) → K db → K (set_enabled name on db).1
  pub upserts : (n : Node) (db : Db) → K db → K (upsert_node n db).1
  pub makes : (token : String) (ttl : ℕ) (db : Db) → K db → K (create_join_token token ttl db).1
  pub uses : (token : String) (db : Db) → K db → K (consume_join_token token db).1

module _ (K : Db → Type 0) (kept : Kept K) where
  module _ (collates : String → String → Bool) where
    is_in_recovery-Keeps : (db : Db) → K db → K (is_in_recovery db).1
    unfolding is_in_recovery
    is_in_recovery-Keeps db k = kept.selects (λ d. d.is_replica) db k

    list_users_page-Keeps :
        (limit offset : ℤ) (db : Db) → K db → K (list_users_page collates limit offset db).1
    unfolding list_users_page
    list_users_page-Keeps limit offset db k =
        let k1 = kept.selects (λ d. length d.users) db k in
        let (counted, db1) = select (λ d. length d.users) db in
        elim (Result-cases counted) [
          | inr (x, e) ↦ rw (e, list_users_page) k1
          | inl (total, e) ↦
              let k2 =
                kept.selects (λ d. page collates (clamp_limit limit) (clamp_offset offset) d.users)
                  db1 k1 in
              let (listed, db2) =
                select (λ d. page collates (clamp_limit limit) (clamp_offset offset) d.users) db1 in
              elim (Result-cases listed) [
                | inr (x, e2) ↦ rw (e, e2, list_users_page) k2
                | inl (us, e2) ↦ rw (e, e2, list_users_page) k2
              ]
        ]

    perform-Keeps : (r : Write) (db : Db) → K db → K (perform (store_admin collates) r db).1
    unfolding perform
    perform-Keeps (creates none) db k = k
    perform-Keeps (creates (some b)) db k = elim (Bool-cases (b.username == "")) [
      | inl e ↦ rw (e, perform) k
      | inr e ↦
          rw (e, perform) (kept.creates b.username b.secret b.expiration_at b.max_tcp_conns db k)
    ]
    perform-Keeps (deletes name) db k = kept.deletes name db k
    perform-Keeps (renews name none) db k = k
    perform-Keeps (renews name (some exp)) db k = kept.expires name exp db k
    perform-Keeps (enables name) db k = kept.enables name true db k
    perform-Keeps (disables name) db k = kept.enables name false db k

    handle-Keeps :
        (r : Write) (dirty : Bool) (db : Db) → K db → K (handle (store_admin collates) r dirty db).2
    unfolding handle require_master
    handle-Keeps r dirty db k =
        let k1 = is_in_recovery-Keeps db k in
        let (answer, db1) = is_in_recovery db in
        elim (Option-cases (barred (store_admin collates) (detect answer))) [
          | inl free ↦ rw (free, handle) (perform-Keeps r db1 k1)
          | inr (stop, found) ↦ rw (found, handle) k1
        ]

    module _ (deps : Deps) where
      heartbeat-Keeps :
          (body : Option Node) (db : Db)
          → K db
          → K (heartbeat deps (store_cluster collates) body db).1
      unfolding heartbeat
      heartbeat-Keeps none db k = k
      heartbeat-Keeps (some n) db k = elim (Bool-cases (n.code == "")) [
        | inl e ↦ rw (e, heartbeat) k
        | inr e ↦ rw (e, heartbeat) (kept.upserts n db k)
      ]

      new_join_token-Keeps :
          (drawn : Result String String) (db : Db)
          → K db
          → K (new_join_token deps (store_cluster collates) drawn db).1
      unfolding new_join_token
      new_join_token-Keeps (err e) db k = k
      new_join_token-Keeps (ok token) db k = kept.makes token 3600 db k

      serve-Keeps :
          (r : Cluster.Request) (db : Db) → K db → K (serve deps (store_cluster collates) r db).1
      unfolding serve list_nodes
      serve-Keeps lists db k = kept.selects _ db k
      serve-Keeps (beats h body) db k = elim (Bool-cases (cluster_authed deps.cluster_secret h)) [
        | inl e ↦ rw (e, serve) (heartbeat-Keeps body db k)
        | inr e ↦ rw (e, serve) k
      ]
      serve-Keeps (asks_token h drawn) db k =
          elim (Bool-cases (cluster_authed deps.cluster_secret h)) [
            | inl e ↦ rw (e, serve) (new_join_token-Keeps drawn db k)
            | inr e ↦ rw (e, serve) k
          ]
      serve-Keeps (joins token) db k = kept.uses token db k

  module _ {N : Type 0} (site : Site N) where
    post_sync-Keeps : (now : ℕ) (s : State N) → K s.db → K (to_server site (post_sync now) s).1.db
    unfolding to_server respond run_sync list_desired
    post_sync-Keeps now s k =
        sync_node-Keeps (λ (w : Db × N). K w.0) (both_node site.node) (λ o rev w h. h) (λ w h. h)
          site.parse_time site.f (both_source site.collates site.format_time) site.opts
          (s.db, s.node)
          (λ w h. kept.selects (λ d. enabled_users site.collates site.format_time d.users) w.0 h) k

    dispatch-Keeps :
        (r : Route) (q : Incoming) (s : State N) → K s.db → K (dispatch site r q s).1.db
    unfolding dispatch list_users respond
    dispatch-Keeps at_role q s k = is_in_recovery-Keeps site.collates s.db k
    dispatch-Keeps at_sync q s k = post_sync-Keeps q.now_after s k
    dispatch-Keeps at_users q s k =
        list_users_page-Keeps site.collates (atoi_default q.limit (pos 20))
          (atoi_default q.offset (pos 0)) s.db k
    dispatch-Keeps at_new_user q s k =
        handle-Keeps site.collates (creates (site.decoder.new_user q.body)) s.dirty s.db k
    dispatch-Keeps (at_user name) q s k = handle-Keeps site.collates (deletes name) s.dirty s.db k
    dispatch-Keeps (at_renew name) q s k =
        handle-Keeps site.collates (renews name (site.decoder.renewal q.body)) s.dirty s.db k
    dispatch-Keeps (at_enable name) q s k = handle-Keeps site.collates (enables name) s.dirty s.db k
    dispatch-Keeps (at_disable name) q s k =
        handle-Keeps site.collates (disables name) s.dirty s.db k
    dispatch-Keeps at_nodes q s k = serve-Keeps site.collates site.deps lists s.db k
    dispatch-Keeps at_heartbeat q s k =
        serve-Keeps site.collates site.deps (beats q.authorization (site.decoder.node q.body)) s.db
          k
    dispatch-Keeps at_join_token q s k =
        serve-Keeps site.collates site.deps (asks_token q.authorization q.drawn_token) s.db k
    dispatch-Keeps (at_join token) q s k = serve-Keeps site.collates site.deps (joins token) s.db k
    dispatch-Keeps at_healthz q s k = k
    dispatch-Keeps at_version q s k = k
    dispatch-Keeps at_status q s k = k
    dispatch-Keeps at_me q s k = k
    dispatch-Keeps at_login q s k = k
    dispatch-Keeps at_logout q s k = k
    dispatch-Keeps at_index q s k = k

    gated-Keeps :
        (g : Gate) (found : Option Route) (q : Incoming) (s : State N)
        → K s.db
        → K (gated site g found q s).1.db
    unfolding gated routed
    gated-Keeps unauthorized found q s k = k
    gated-Keeps passed none q s k = k
    gated-Keeps passed (some r) q s k = dispatch-Keeps r q s k

    handler-Keeps : (q : Incoming) (s : State N) → K s.db → K (handler site q s).1.db
    unfolding handler
    handler-Keeps q s k =
        let looked = wrap q.now (seen site q) s.auth in
        gated-Keeps looked.0 (site.mux q.method q.url) q (record s { auth = looked.1 }) k

    pub served-Keeps : (qs : List Incoming) (s : State N) → K s.db → K (served site qs s).1.db
    unfolding served
    served-Keeps [] s k = k
    served-Keeps (q ∷ qs) s k = served-Keeps qs (handler site q s).1 (handler-Keeps q s k)
