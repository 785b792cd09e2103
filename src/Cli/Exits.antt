-- ===== src/Cli/Exits.antt =====
-- What the exit code of a synchronisation says.
use telemux.Base.{
  ◌≡◌, ℕ, String, Bool, true, false, Option, none, some, List, [], ok, arith, subst, refl,
}
use telemux.Diff.{DesiredUser, compute_diff}
use telemux.Diff.Node.{Node, IsLawful}
use telemux.Diff.Safety.{Float64}
use telemux.Diff.Scan.{NamedOnce}
use telemux.Sync.{
  DesiredSource, NodeError, sync_node, verdict, retry, SyncResult, SyncError, is_shadow,
}
use telemux.Sync.Shared.{shared_node, is_unmarked}
use telemux.Sync.Converge.{sync_node-IsDone}
use telemux.Cli.{SyncFlags, mode_of, sync_exit, sync_options, sync_command}

applies_mode :
    (f : Float64) (flags : SyncFlags)
    → flags.apply ≡ true
    → is_shadow (sync_options f flags).mode ≡ false
unfolding sync_options mode_of
applies_mode f flags applies = ground arith

exit_zero :
    (res : SyncResult) (error : Option SyncError)
    → sync_exit true res error ≡ 0
    → (error ≡ none) × (res.aborted ≡ false) × (res.failed ≡ 0)
unfolding sync_exit
exit_zero res none h = ground arith
exit_zero res (some e) h = absurd (ground arith)

module _ (n : Node) (revision : n.State → String) (disturb : n.State → n.State)
    (conflict forbidden : NodeError) (parse_time : String → Option ℕ) (f : Float64)
    (source : DesiredSource (n.State × List Bool)) (flags : SyncFlags) (w w1 : n.State × List Bool)
    (ds : List DesiredUser) where
  -- When the command `sync --apply` exits with 0, the database was opened, and the node as the run
  -- leaves it is as desired: a diff against it is empty. The node is lawful, and others may change
  -- it while the run works, any number of times; every operation carries the current revision, the
  -- desired names are distinct, a conflict is reported as one, and the refusal to delete the last
  -- user as an error that no method of the error marks.
  pub sync_command_done :
      (opened : Option String)
      → IsLawful n
      → NamedOnce ds
      → verdict conflict ≡ retry
      → is_unmarked forbidden ≡ true
      → source.list_desired w ≡ (ok ds, w1)
      → flags.apply ≡ true
      → (sync_command parse_time f
          (shared_node n revision disturb conflict forbidden)
          source
          (some flags)
          opened
          w).0
        ≡ 0
      → (opened ≡ none)
        × (compute_diff parse_time ds
              (n.users
                (sync_command parse_time f
                  (shared_node n revision disturb conflict forbidden)
                  source
                  (some flags)
                  opened
                  w).1.0)
              (sync_options f flags).mass_delete.options
            ≡ [])
  unfolding sync_command
  sync_command_done (some e) law once retried unmarked read applies zero_code =
      absurd (ground arith)
  sync_command_done none law once retried unmarked read applies zero_code =
      let opts = sync_options f flags in
      let node = shared_node n revision disturb conflict forbidden in
      let run = sync_node parse_time f node source opts w in
      let (no_error, free, fine) =
        exit_zero run.0 run.1
          (subst (λ (b : Bool). sync_exit b run.0 run.1 ≡ 0) applies zero_code) in
      (
        refl,
        sync_node-IsDone n revision disturb conflict forbidden parse_time f law ds once opts retried
            unmarked (applies_mode f flags applies) source w w1 read no_error free fine,
      )
