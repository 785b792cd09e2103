-- ===== src/Tests/SyncRuns.antt =====
-- Runs of the synchronisation against a node in memory.
use telemux.Cli.{SyncFlags, sync_options, mode_of, sync_exit, sync_command}
use telemux.Cli.Exits.{sync_command_done}
use telemux.Base.{
  ◌≢◌, String, ap, Bool, true, false, Option, none, some, List, [], ◌∷◌, ◌++◌, ◌≡◌, ◌⊎◌, refl,
  arith, ok, string_eq,
}
use telemux.Sync.{
  SyncError, SyncResult, conclude, apply_ops, DesiredSource, NodeApi, shadow, apply, sync_node,
  fresh_result, not_converged, verdict,
}
use telemux.Diff.{
  prefix, remote_by_name, desired_by_name, patch_fields_for, expiration_equals, int_equal,
  RemoteUser, compute_diff,
}
use telemux.Diff.Scan.{last_remote, NamedOnce, wanted}
use telemux.Diff.Safety.{is_mass_delete, count_managed, count_deletes}
use telemux.Base.Dict.{lookup, insert}
use telemux.Base.Int.{int_eq, pos}
use telemux.Sync.Shared.{shared_node}
use telemux.Sync.Converge.{sync_node_converges}
use telemux.Sync.ReadsOnly.{sync_node_reads_only}
use telemux.Sync.Attempts.{counting, counting_source, sync_node_gave_up}
use telemux.Tests.Samples.{
  conflict, forbidden, run_options, conflict_retried, memory_node, memory_node-IsLawful, fractions,
  parse_sample, has, desired_users, node_users, options,
}

abbrev pub World : Type 0
World = List RemoteUser × List Bool

abbrev pub source : DesiredSource World
source = record { list_desired = λ w. (ok desired_users, w) }

-- Others add a user whenever the schedule says so.
abbrev pub node : NodeApi World
node =
    shared_node memory_node (λ rs. "r1") (λ rs. rs ++ has "sub_x" true none ∷ []) conflict forbidden

-- The second operation meets a change by others.
abbrev pub disturbed : World
disturbed = (node_users, false ∷ true ∷ [])

once : NamedOnce desired_users
unfolding wanted string_eq
once = (refl, (refl, (refl, tt)))

somebody : wanted "sub_a" desired_users ≢ none
unfolding wanted string_eq
somebody e = ground arith

sync_node_converges_example :
    ((sync_node parse_sample fractions node source (run_options apply (pos 0)) disturbed).1 ≡ none)
    × (((sync_node parse_sample fractions node source
            (run_options apply (pos 0))
            disturbed).0.aborted
          ≡ true)
        ⊎ (((sync_node parse_sample fractions node source
                (run_options apply (pos 0))
                disturbed).0.failed
              ≡ 0)
            × (compute_diff parse_sample desired_users
                  (sync_node parse_sample fractions node source
                    (run_options apply (pos 0))
                    disturbed).2.0
                  options
                ≡ [])))
sync_node_converges_example =
    sync_node_converges memory_node (λ rs. "r1") (λ rs. rs ++ has "sub_x" true none ∷ []) conflict
      forbidden parse_sample fractions memory_node-IsLawful desired_users once
      (run_options apply (pos 0)) conflict_retried refl refl source disturbed disturbed refl "sub_a"
      somebody (omega arith)

sync_node_reads_only_example :
    sync_node parse_sample fractions node source (run_options shadow (pos 0)) disturbed
    ≡ (fresh_result (compute_diff parse_sample desired_users node_users options), none, disturbed)
unfolding is_mass_delete compute_diff prefix remote_by_name desired_by_name patch_fields_for
    expiration_equals int_equal lookup insert string_eq count_managed count_deletes
sync_node_reads_only_example =
    sync_node_reads_only parse_sample fractions source node (run_options shadow (pos 0)) disturbed
      disturbed disturbed desired_users node_users "r1" 3 refl refl refl refl

abbrev quiet : World
quiet = (node_users, [])

-- The run against the undisturbed node: three operations, all applied.
quiet_run : sync_node parse_sample fractions node source (run_options apply (pos 0)) quiet ≡ (
  record (fresh_result (compute_diff parse_sample desired_users node_users options)) {
    applied = 3;
  },
  none,
  (
    has "sub_b" true (some "2026-01-01T00:00:00Z")
        ∷ has "sub_c" true (some "2026-02-01T00:00:00Z")
        ∷ has "manual" true none
        ∷ has "sub_a" true none
        ∷ [],
    [],
  ),
)
unfolding sync_node apply_ops conclude verdict is_mass_delete compute_diff prefix remote_by_name
    desired_by_name patch_fields_for expiration_equals int_equal lookup insert string_eq
    count_managed count_deletes last_remote
quiet_run = refl

-- Others change the node before every operation.
abbrev contended : World
contended = (node_users, true ∷ true ∷ true ∷ [])

contended_run :
    (sync_node parse_sample fractions
      (counting node)
      (counting_source source)
      (run_options apply (pos 1))
      (contended, 0)).1
    ≡ some (not_converged (pos 1))
unfolding sync_node apply_ops conclude verdict is_mass_delete compute_diff prefix remote_by_name
    desired_by_name patch_fields_for expiration_equals int_equal lookup insert string_eq
    count_managed count_deletes last_remote
contended_run = refl

sync_node_gave_up_example :
    (sync_node parse_sample fractions
      (counting node)
      (counting_source source)
      (run_options apply (pos 1))
      (contended, 0)).2.1
    ≡ 2
sync_node_gave_up_example =
    sync_node_gave_up parse_sample fractions node (run_options apply (pos 1)) source contended 1
      contended_run

abbrev flags : SyncFlags
flags = record { apply = true; force = false }

quiet_exit : (sync_command parse_sample fractions node source (some flags) none quiet).0 ≡ 0
unfolding sync_command sync_options mode_of sync_exit
quiet_exit = ap (λ (t : SyncResult × Option SyncError × World). sync_exit true t.0 t.1) quiet_run

-- Nobody is wanted, and the node refuses to delete its last user.
abbrev nobody : DesiredSource World
nobody = record { list_desired = λ w. (ok [], w) }

last_user_exit :
    sync_command parse_sample fractions node nobody
      (some flags)
      none
      (has "sub_a" true none ∷ [], [])
    ≡ (1, (has "sub_a" true none ∷ [], []))
unfolding sync_command sync_options mode_of sync_exit sync_node apply_ops conclude verdict
    is_mass_delete compute_diff prefix remote_by_name desired_by_name patch_fields_for
    expiration_equals int_equal lookup insert string_eq count_managed count_deletes last_remote
last_user_exit = refl

sync_command_done_example :
    (◌≡◌ {A = Option String} none none)
    × (compute_diff parse_sample desired_users
          (sync_command parse_sample fractions node source (some flags) none quiet).1.0
          options
        ≡ [])
unfolding sync_options
sync_command_done_example =
    sync_command_done memory_node (λ rs. "r1") (λ rs. rs ++ has "sub_x" true none ∷ []) conflict
      forbidden parse_sample fractions source flags quiet quiet desired_users none
      memory_node-IsLawful once conflict_retried refl refl refl quiet_exit
