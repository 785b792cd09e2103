-- ===== src/Tests/SystemRuns.antt =====
-- The parts together at concrete data.
use telemux.Base.{
  ◌+◌, ◌≢◌, string_eq, err, some, ok, ◌≤◌, ◌≡◌, ◌⊎◌, refl, true, false, none, [], ◌∷◌, ◌++◌, String,
  arith, starts_with,
}
use telemux.Store.Table.{find, affected}
use telemux.System.Settles.{Works, marks_first, rests, steps, left, GoesOn, AtRest, comes_to_rest}
use telemux.Store.{select, execute}
use telemux.Store.Users.{list_desired, delete_user, enabled_users}
use telemux.Server.Users.{deletes, perform}
use telemux.System.Wakes.{quiet-read}
use telemux.System.Loop.{
  Daemon, Reaches, starts, goes_on, runs, writes, marks, receives, begin_run, write, starting,
  mark_dirty,
}
use telemux.Server.Cluster.{asks_token, joins}
use telemux.Store.Tokens.{passes}
use telemux.Tests.ServerRuns.{deps}
use telemux.System.Joins.{serves, happens, admitted, admitted-le_one}
use telemux.Tests.StoreRuns.{tokens-IsUnique, db, db-IsUnique, format_sample, text_order}
use telemux.Base.Int.{pos}
use telemux.Diff.{prefix}
use telemux.Diff.Scan.{last_remote}
use telemux.Sync.{apply}
use telemux.System.Reconcile.{IsSettled, wanted_row, table_run, sync_node-IsSettled}
use telemux.Tests.Samples.{
  memory_node, memory_node-IsLawful, has, parse_sample, fractions, node_users, options, conflict,
  conflict_retried, forbidden, run_options,
}

somebody : wanted_row format_sample "sub_a" db.users ≢ none
unfolding find string_eq
somebody e = ground arith

sync_node-IsSettled_example :
    ((table_run memory_node
        (λ rs. "r1")
        (λ rs. rs ++ has "sub_x" true none ∷ [])
        conflict
        forbidden
        parse_sample
        fractions
        text_order
        format_sample
        db
        (run_options apply (pos 0))
        node_users
        (false ∷ true ∷ [])).1
      ≡ none)
    × (((table_run memory_node
            (λ rs. "r1")
            (λ rs. rs ++ has "sub_x" true none ∷ [])
            conflict
            forbidden
            parse_sample
            fractions
            text_order
            format_sample
            db
            (run_options apply (pos 0))
            node_users
            (false ∷ true ∷ [])).0.aborted
          ≡ true)
        ⊎ ((k : String)
            → IsSettled parse_sample
                (wanted_row format_sample k db.users)
                (starts_with k (prefix options))
                (last_remote k none
                  (table_run memory_node
                    (λ rs. "r1")
                    (λ rs. rs ++ has "sub_x" true none ∷ [])
                    conflict
                    forbidden
                    parse_sample
                    fractions
                    text_order
                    format_sample
                    db
                    (run_options apply (pos 0))
                    node_users
                    (false ∷ true ∷ [])).2.0)))
sync_node-IsSettled_example =
    sync_node-IsSettled memory_node (λ rs. "r1") (λ rs. rs ++ has "sub_x" true none ∷ []) conflict
      forbidden parse_sample fractions text_order format_sample db (run_options apply (pos 0))
      node_users (false ∷ true ∷ []) "sub_a" memory_node-IsLawful db-IsUnique somebody refl
      conflict_retried refl refl (omega arith)

admitted-le_one_example :
    admitted deps text_order "t1"
      (serves (joins "t1")
        ∷ serves (asks_token "Bearer s3cret" (ok "t1"))
        ∷ happens (passes 7)
        ∷ serves (joins "t1")
        ∷ [])
      db
    ≤ 1
admitted-le_one_example =
    admitted-le_one deps text_order "t1"
      (serves (joins "t1")
        ∷ serves (asks_token "Bearer s3cret" (ok "t1"))
        ∷ happens (passes 7)
        ∷ serves (joins "t1")
        ∷ [])
      db tokens-IsUnique

-- The loop runs, a route deletes a user and marks, the loop is woken and runs.
abbrev ran : Daemon → Daemon
ran s = record (begin_run text_order format_sample s) { woken = false }

abbrev written : Daemon
written = write text_order format_sample (deletes "sub_a") (ran (starting db))

abbrev marked : Daemon
marked = mark_dirty (record written { pending = 0 })

abbrev received : Daemon
received = record marked { dirty = false; woken = true }

ran-Reaches : Reaches text_order format_sample db (ran received)
unfolding mark_dirty write perform delete_user execute affected string_eq begin_run list_desired
    select
ran-Reaches =
    goes_on
      (goes_on
        (goes_on
          (goes_on (goes_on starts (runs (starting db) refl))
            (writes (deletes "sub_a") (ran (starting db))))
          (marks 0 written refl))
        (receives marked refl refl))
      (runs received refl)

quiet-read_example :
    ((ran received).read
      ≡ some (ok (enabled_users text_order format_sample (ran received).db.users)))
    ⊎ ((e : String) × ((ran received).read ≡ some (err e)))
unfolding mark_dirty write perform delete_user execute affected string_eq begin_run list_desired
    select
quiet-read_example =
    quiet-read text_order format_sample db (ran received) db-IsUnique ran-Reaches refl refl refl

written-Reaches : Reaches text_order format_sample db written
unfolding begin_run
written-Reaches =
    goes_on (goes_on starts (runs (starting db) refl))
      (writes (deletes "sub_a") (ran (starting db)))

-- The route has still to mark; the loop sleeps.
first_step : Works text_order format_sample written (mark_dirty (record written { pending = 0 }))
unfolding write perform delete_user execute affected string_eq begin_run list_desired select
first_step = marks_first 0 written refl (rests _)

comes_to_rest_example :
    (steps text_order format_sample first_step
        + left text_order format_sample (mark_dirty (record written { pending = 0 }))
      ≤ left text_order format_sample written)
    × ((mark_dirty (record written { pending = 0 })).db.users ≡ written.db.users)
    × (GoesOn text_order format_sample (mark_dirty (record written { pending = 0 }))
        ⊎ (AtRest text_order format_sample (mark_dirty (record written { pending = 0 }))
            × (((mark_dirty (record written { pending = 0 })).read
                  ≡ some (
                      ok (
                        enabled_users text_order format_sample
                          (mark_dirty (record written { pending = 0 })).db.users)))
                ⊎ ((e : String) × ((mark_dirty (record written { pending = 0 })).read
                      ≡ some (err e))))))
comes_to_rest_example =
    comes_to_rest text_order format_sample db written (mark_dirty (record written { pending = 0 }))
      db-IsUnique written-Reaches first_step
