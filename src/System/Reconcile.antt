-- ===== src/System/Reconcile.antt =====
-- A synchronisation of a node with the table of users, `SyncNode` with the store as its source.
use telemux.Base.{
  ◌≢◌, ◌∙◌, Bool-cases, subst, sym, ℕ, ◌<◌, String, Bool, true, false, Option, none, some, List, [],
  ◌∷◌, string_eq, ◌≡◌, ◌⊎◌, inl, inr, arith, if◌then◌else◌, All, ok, starts_with, Option-cases, ap,
}
use telemux.Diff.{DesiredUser, RemoteUser, Options, prefix}
use telemux.Diff.Node.{Node, IsLawful}
use telemux.Diff.Scan.{wanted, last_remote}
use telemux.Diff.Safety.{Float64}
use telemux.Diff.Synced.{Matches, IsSynced, IsKept, compute_diff-eq-nil}
use telemux.Store.{User, Db, select}
use telemux.Store.Table.{find, IsUnique}
use telemux.Store.Users.{username, desired, enabled_users, list_desired}
use telemux.Store.Desired.{mapped, enabled_users_lem}
use telemux.Store.Laws.{fits}
use telemux.Sync.{
  SyncResult, SyncError, DesiredSource, NodeError, is_shadow, sync_node, attempts, max_retry,
  verdict, retry,
}
use telemux.Sync
use telemux.Sync.Shared.{shared_node, is_unmarked, disturbances}
use telemux.Sync.Converge.{sync_node_converges}

module _ (parse_time : String → Option ℕ) where
  -- What a name is to be on the node, from what is wanted and whether the prefix is managed.
  abbrev pub IsSettled : Option DesiredUser → Bool → Option RemoteUser → Type 0
  IsSettled (some d) managed r = Matches parse_time d r
  IsSettled none true r = r ≡ none
  IsSettled none false r = Unit

  All-wanted :
      (P : DesiredUser → Type 0) (ds : List DesiredUser) (k : String) (d : DesiredUser)
      → All P ds
      → wanted k ds ≡ some d
      → P d × (k ≡ d.username)
  unfolding wanted
  All-wanted P [] k d h e = ground arith
  All-wanted P (c ∷ ds) k d h e = ground (arith, All-wanted P ds k d h.1)

  All-last_remote :
      (P : RemoteUser → Type 0) (rs : List RemoteUser) (k : String) (found : Option RemoteUser)
      (r : RemoteUser)
      → All P rs
      → last_remote k found rs ≡ some r
      → (found ≡ some r) ⊎ (P r × (k ≡ r.username))
  unfolding last_remote
  All-last_remote P [] k found r h e = inl e
  All-last_remote P (s ∷ rs) k found r h e =
      ground (arith, All-last_remote P rs k found r h.1, All-last_remote P rs k (some s) r h.1)

  unwanted :
      (ds : List DesiredUser) (rs : List RemoteUser) (opts : Options) (k : String)
      → All (IsKept ds (prefix opts)) rs
      → wanted k ds ≡ none
      → starts_with k (prefix opts) ≡ true
      → last_remote k none rs ≡ none
  unwanted ds rs opts k kept gone managed = elim (Option-cases (last_remote k none rs)) [
    | inl absent ↦ absent
    | inr (r, there) ↦ elim (All-last_remote (IsKept ds (prefix opts)) rs k none r kept there) [
      | inl e ↦ ground arith
      | inr (keeps, same) ↦ let wanted_too = keeps (rw (← same) managed) in ground arith
    ]
  ]

  IsSynced-IsSettled :
      (ds : List DesiredUser) (rs : List RemoteUser) (opts : Options) (k : String)
      → IsSynced parse_time ds rs opts
      → IsSettled (wanted k ds) (starts_with k (prefix opts)) (last_remote k none rs)
  IsSynced-IsSettled ds rs opts k h = elim (Option-cases (wanted k ds)) [
    | inl gone ↦ rw gone (elim (Bool-cases (starts_with k (prefix opts))) [
      | inl managed ↦ rw managed (unwanted ds rs opts k h.rest_kept gone managed)
      | inr free ↦ rw free tt
    ])
    | inr (d, e) ↦
        let (m, same) =
          All-wanted (λ c. Matches parse_time c (last_remote c.username none rs)) ds k d
            h.wanted_there e in
        rw e (subst (λ (j : String). Matches parse_time d (last_remote j none rs)) (sym same) m)
  ]

-- What the table wants of a name.
abbrev pub wanted_row : (ℕ → String) → String → List User → Option DesiredUser
wanted_row format_time k us =
    if fits (λ u. u.enabled) (find username k us)
    then mapped (desired format_time) (find username k us)
    else none

-- The store is read once, at the beginning of the run.
abbrev pub table_source :
    {W : Type 0} → (String → String → Bool) → (ℕ → String) → Db → DesiredSource W
table_source collates format_time db = record {
  list_desired = λ w. ((list_desired collates format_time db).0, w);
}

table_read :
    (collates : String → String → Bool) (format_time : ℕ → String) (db : Db)
    → db.failures ≡ []
    → (list_desired collates format_time db).0 ≡ ok (enabled_users collates format_time db.users)
unfolding list_desired select
table_read collates format_time db calm = ground arith

module _ (n : Node) (revision : n.State → String) (disturb : n.State → n.State)
    (conflict forbidden : NodeError) (parse_time : String → Option ℕ) (f : Float64)
    (collates : String → String → Bool) (format_time : ℕ → String) (db : Db)
    (opts : Sync.Options f) where
  -- A run against the node, from its state and what others will do to it.
  abbrev pub table_run : n.State → List Bool → SyncResult × Option SyncError × (n.State × List Bool)
  table_run s schedule =
      sync_node parse_time f (shared_node n revision disturb conflict forbidden)
        (table_source collates format_time db) opts (s, schedule)

  pub sync_node-IsSettled :
      (s : n.State) (schedule : List Bool) (j : String)
      → IsLawful n
      → IsUnique username db.users
      → wanted_row format_time j db.users ≢ none
      → db.failures ≡ []
      → verdict conflict ≡ retry
      → is_unmarked forbidden ≡ true
      → is_shadow opts.mode ≡ false
      → disturbances schedule < attempts (max_retry opts.max_conflict_retries)
      → ((table_run s schedule).1 ≡ none)
        × (((table_run s schedule).0.aborted ≡ true)
            ⊎ ((k : String)
                → IsSettled parse_time
                    (wanted_row format_time k db.users)
                    (starts_with k (prefix opts.mass_delete.options))
                    (last_remote k none (n.users (table_run s schedule).2.0))))
  sync_node-IsSettled s schedule j law once enabled calm retried unmarked applies few =
      let ds = enabled_users collates format_time db.users in
      let run =
        sync_node_converges n revision disturb conflict forbidden parse_time f law ds
          (enabled_users_lem collates format_time db.users "" once).0 opts retried unmarked applies
          (table_source collates format_time db) (s, schedule) (s, schedule)
          (ap (λ r. (r, (s, schedule))) (table_read collates format_time db calm)) j
          (λ gone. enabled (sym (enabled_users_lem collates format_time db.users j once).1 ∙ gone))
          few in
      (
        run.0,
        elim run.1 [
          | inl stopped ↦ inl stopped
          | inr (none_failed, nothing_left) ↦ inr (λ k.
              subst
                (λ (w : Option DesiredUser).
                  IsSettled parse_time w (starts_with k (prefix opts.mass_delete.options))
                    (last_remote k none (n.users (table_run s schedule).2.0)))
                (enabled_users_lem collates format_time db.users k once).1
                (IsSynced-IsSettled parse_time ds _ opts.mass_delete.options k
                  ((compute_diff-eq-nil parse_time ds _ opts.mass_delete.options).0 nothing_left)))
        ],
      )
