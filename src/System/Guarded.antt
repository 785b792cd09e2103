-- ===== src/System/Guarded.antt =====
-- What a request without a session reaches.
use telemux.Server.Routes.{respond, alive}
use telemux.Server.Cluster.{Deps, serve, lists, beats, asks_token, joins, nodes}
use telemux.Server.Cluster
use telemux.Auth.{Gate, wrap, valid, is_public, passed, unauthorized}
use telemux.System.Http.{
  gated, routed, seen, of_users, of_server, of_cluster, logged_out, Incoming, Reply, State, Site,
  handler, dispatch,
}
use telemux.System.Panel.{store_cluster}
use telemux.Store.Cluster.{list_nodes, upsert_node, create_join_token, consume_join_token}
use telemux.Store.{select, execute, Db}
use telemux.Base.{
  ℕ, String, Bool, true, false, Option, none, some, ◌≡◌, refl, arith, Bool-cases, ok, err, inl, inr,
  string_eq, starts_with, ◌<>◌, ◌==◌, subst, sym,
}
use text.Mathlib.TextLemmas.{append_assoc}
use text.Mathlib.TextPositions.{starts_with-append}
use telemux.Base.Prefixes.{start-ne, starts_with-ne}
use telemux.Auth
use telemux.Server.Mux.{
  Route, at_healthz, at_version, at_role, at_status, at_sync, at_me, at_login, at_logout, at_users,
  at_new_user, at_user, at_renew, at_enable, at_disable, at_nodes, at_heartbeat, at_join_token,
  at_join, at_index, fits, filled, IsSound,
}

abbrev needs_session : Route → Bool
needs_session at_healthz = false
needs_session at_me = false
needs_session at_login = false
needs_session at_heartbeat = false
needs_session at_join_token = false
needs_session (at_join _) = false
needs_session at_index = false
needs_session _ = true

below_users : (s : String) → is_public ("/api/u" <> s) ≡ false
unfolding is_public string_eq
below_users s =
    let healthz : ("/api/u" <> s == "/healthz") ≡ false =
      start-ne "/api/u" "/healt" s "hz" refl refl in
    let login : ("/api/u" <> s == "/api/login") ≡ false =
      start-ne "/api/u" "/api/l" s "ogin" refl refl in
    let me : ("/api/u" <> s == "/api/me") ≡ false = start-ne "/api/u" "/api/m" s "e" refl refl in
    let cluster : starts_with ("/api/u" <> s) "/api/cluster/" ≡ false =
      starts_with-ne "/api/u" "/api/c" s "luster/" refl refl in
    let join : starts_with ("/api/u" <> s) "/join/" ≡ false =
      starts_with-ne "/api/u" "/join/" s "" refl refl in
    let api : starts_with ("/api/u" <> s) "/api/" ≡ true =
      subst (λ (t : String). starts_with t "/api/" ≡ true) (sym (append_assoc "/api/" "u" s))
        (starts_with-append "/api/" ("u" <> s)) in
    ground arith

-- Paths below /api/users/ want a session.
users_protected : (s : String) → is_public ("/api/users/" <> s) ≡ false
users_protected s =
    subst (λ (t : String). is_public t ≡ false) (sym (append_assoc "/api/u" "sers/" s))
      (below_users ("sers/" <> s))

-- The path that a route's pattern stands for, where it is not the one for every path.
literal_protected :
    (r : Route)
    → needs_session r ≡ true
    → (x : String) × (filled r ≡ some x) × (is_public x ≡ false)
unfolding filled is_public string_eq
literal_protected at_version n = (_, refl, refl)
literal_protected at_role n = (_, refl, refl)
literal_protected at_status n = (_, refl, refl)
literal_protected at_sync n = (_, refl, refl)
literal_protected at_logout n = (_, refl, refl)
literal_protected at_users n = (_, refl, refl)
literal_protected at_new_user n = (_, refl, refl)
literal_protected at_nodes n = (_, refl, refl)
literal_protected (at_user name) n = (_, refl, users_protected name)
literal_protected (at_renew name) n = (_, refl, users_protected (name <> "/renew"))
literal_protected (at_enable name) n = (_, refl, users_protected (name <> "/enable"))
literal_protected (at_disable name) n = (_, refl, users_protected (name <> "/disable"))
literal_protected _ n = absurd (ground arith)

-- The pattern of a route that wants a session fits no public path.
protected :
    (r : Route) (p : String) → fits r p ≡ true → needs_session r ≡ true → is_public p ≡ false
unfolding fits
protected r p h n = let (x, e, hidden) = literal_protected r n in ground arith

stays_out :
    (r : Route) (p : String) → fits r p ≡ true → is_public p ≡ true → needs_session r ≡ false
stays_out r p h public_path = elim (Bool-cases (needs_session r)) [
  | inr e ↦ e
  | inl e ↦ absurd (ground (arith, protected r p h e))
]

wrap-public :
    (now : ℕ) (r : Auth.Request) (a : Auth.Auth)
    → a.enabled ≡ true
    → (valid now r a).0 ≡ false
    → (wrap now r a).0 ≡ passed
    → is_public r.path ≡ true
unfolding wrap
wrap-public now r a on stranger e = ground arith

-- A reply that tells a stranger nothing but what is public, or what a secret or a token is shown for.
abbrev pub is_open : Reply → Bool
is_open (of_users _) = false
is_open (of_server alive) = true
is_open (of_server _) = false
is_open (of_cluster (nodes _)) = false
is_open logged_out = false
is_open _ = true

abbrev is_listing : Cluster.Request → Bool
is_listing lists = true
is_listing _ = false

module _ (collates : String → String → Bool) (deps : Deps) where
  pub serve-users :
      (r : Cluster.Request) (db : Db)
      → (serve deps (store_cluster collates) r db).1.users ≡ db.users
  unfolding serve list_nodes upsert_node create_join_token consume_join_token select execute
  serve-users lists db = ground arith
  serve-users (beats h body) db = ground arith
  serve-users (asks_token h (ok tok)) db = ground arith
  serve-users (asks_token h (err e)) db = ground arith
  serve-users (joins t) db = ground arith

  -- Only the list of nodes tells of nodes.
  serve-open :
      (r : Cluster.Request) (db : Db)
      → is_listing r ≡ false
      → is_open (of_cluster (serve deps (store_cluster collates) r db).0) ≡ true
  unfolding serve
  serve-open lists db h = absurd (ground arith)
  serve-open (beats g body) db h = ground arith
  serve-open (asks_token g (ok tok)) db h = ground arith
  serve-open (asks_token g (err e)) db h = ground arith
  serve-open (joins t) db h = ground arith

module _ {N : Type 0} where
  -- The users, the signal for the loop, the status of the last run and the node are as they were.
  abbrev pub Untouched : State N → State N → Type 0
  Untouched s t =
      (t.db.users ≡ s.db.users)
      × (t.dirty ≡ s.dirty)
      × (t.last_sync ≡ s.last_sync)
      × (t.node ≡ s.node)

  module _ (site : Site N) where
    dispatch-open :
        (r : Route) (q : Incoming) (s : State N)
        → needs_session r ≡ false
        → (is_open (dispatch site r q s).0 ≡ true) × Untouched s (dispatch site r q s).1
    unfolding dispatch respond
    dispatch-open at_healthz q s h = (refl, (refl, refl, refl, refl))
    dispatch-open at_me q s h = (refl, (refl, refl, refl, refl))
    dispatch-open at_login q s h = (refl, (refl, refl, refl, refl))
    dispatch-open at_heartbeat q s h =
        let r = beats q.authorization (site.decoder.node q.body) in
        (
          serve-open site.collates site.deps r s.db refl,
          (serve-users site.collates site.deps r s.db, refl, refl, refl),
        )
    dispatch-open at_join_token q s h =
        let r = asks_token q.authorization q.drawn_token in
        (
          serve-open site.collates site.deps r s.db refl,
          (serve-users site.collates site.deps r s.db, refl, refl, refl),
        )
    dispatch-open (at_join token) q s h =
        let r = joins token in
        (
          serve-open site.collates site.deps r s.db refl,
          (serve-users site.collates site.deps r s.db, refl, refl, refl),
        )
    dispatch-open at_index q s h = (refl, (refl, refl, refl, refl))
    dispatch-open _ q s h = absurd (ground arith)

    gated-open :
        (g : Gate) (found : Option Route) (q : Incoming) (s : State N)
        → (g ≡ passed → (r : Route) → found ≡ some r → needs_session r ≡ false)
        → (is_open (gated site g found q s).0 ≡ true) × Untouched s (gated site g found q s).1
    unfolding gated routed
    gated-open unauthorized found q s h = (refl, (refl, refl, refl, refl))
    gated-open passed none q s h = (refl, (refl, refl, refl, refl))
    gated-open passed (some r) q s h = dispatch-open r q s (h refl r refl)

    -- While a password is set, a request without a valid session changes neither the users nor the
    -- status of the last run, wakes no synchronisation and sends the node nothing. Its reply is a
    -- refusal, the built page, the sign of life, whether a session is there, the answer to a login
    -- or to a secret or a token that it shows, but nothing about users, roles, nodes or runs.
    pub handler-guarded :
        (q : Incoming) (s : State N)
        → IsSound site.mux site.path
        → s.auth.enabled ≡ true
        → (valid q.now (record { path = site.path q.url; cookie = q.cookie }) s.auth).0 ≡ false
        → (is_open (handler site q s).0 ≡ true) × Untouched s (handler site q s).1
    unfolding handler seen
    handler-guarded q s law on stranger =
        let looked = wrap q.now (record { path = site.path q.url; cookie = q.cookie }) s.auth in
        gated-open looked.0 (site.mux q.method q.url) q (record s { auth = looked.1 })
          (λ let_pass r there.
            stays_out r (site.path q.url) (ground (arith, law.sound q.method q.url r there)) (
              wrap-public q.now (record { path = site.path q.url; cookie = q.cookie }) s.auth on
                stranger let_pass))
