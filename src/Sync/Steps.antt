-- ===== src/Sync/Steps.antt =====
-- One attempt of the loop, on each branch.
use telemux.Base.{
  ◌+◌, ◌∷◌, ℕ, suc, String, true, false, not, ◌&&◌, Option, none, some, [], List, ok, err, ◌≡◌,
  arith, ◌++◌,
}
use telemux.Diff.{SyncOp, DesiredUser, RemoteUser, compute_diff}
use telemux.Diff.Safety.{Float64, is_mass_delete}
use telemux.Sync.{
  NodeError, verdict, fail, NodeApi, DesiredSource, sync_node, attempts, max_retry, is_shadow,
  Options, SyncResult, list_failed, fresh_result, conclude, attempt, apply_ops,
}

module _ {W : Type 0} (node : NodeApi W) (o : SyncOp) (os : List SyncOp) (rev : String)
    (r : SyncResult) (w w1 : W) where
  pub apply_ops_applied :
      (rev' : String)
      → node.apply_op o rev w ≡ (ok rev', w1)
      → apply_ops node (o ∷ os) rev r w
        ≡ apply_ops node os rev' (record r { applied = r.applied + 1 }) w1
  unfolding apply_ops
  apply_ops_applied rev' h = ground arith

  pub apply_ops_failed :
      (e : NodeError)
      → node.apply_op o rev w ≡ (err e, w1)
      → verdict e ≡ fail
      → apply_ops node (o ∷ os) rev r w
        ≡ apply_ops node os rev (record r { failed = r.failed + 1; errors = r.errors ++ e ∷ [] }) w1
  unfolding apply_ops
  apply_ops_failed e h v = ground arith

module _ (parse_time : String → Option ℕ) (f : Float64) {W : Type 0} (node : NodeApi W)
    (des : List DesiredUser) (opts : Options f) (n : ℕ) (r : SyncResult) (w w1 : W) where
  pub attempt_unlisted :
      (e : String)
      → node.list_users w ≡ (err e, w1)
      → attempt parse_time f node des opts (suc n) r w ≡ (r, some (list_failed e), w1)
  unfolding attempt
  attempt_unlisted e h = ground arith

  module _ (remote : List RemoteUser) (rev : String)
      (listed : node.list_users w ≡ (ok (remote, rev), w1)) where
    pub attempt_guarded :
        (is_mass_delete f
              (compute_diff parse_time des remote opts.mass_delete.options)
              remote
              opts.mass_delete
            && not opts.force)
          ≡ true
        → attempt parse_time f node des opts (suc n) r w ≡ (
          record (fresh_result (compute_diff parse_time des remote opts.mass_delete.options)) {
            aborted = true;
          },
          none,
          w1,
        )
    unfolding attempt
    attempt_guarded fires = ground arith

    module _
        (calm : (is_mass_delete f
              (compute_diff parse_time des remote opts.mass_delete.options)
              remote
              opts.mass_delete
            && not opts.force)
          ≡ false) where
      pub attempt_shadow :
          is_shadow opts.mode ≡ true
          → attempt parse_time f node des opts (suc n) r w
            ≡ (fresh_result (compute_diff parse_time des remote opts.mass_delete.options), none, w1)
      unfolding attempt
      attempt_shadow s = ground arith

      pub attempt_apply :
          is_shadow opts.mode ≡ false
          → attempt parse_time f node des opts (suc n) r w ≡ (
              let ops = compute_diff parse_time des remote opts.mass_delete.options in
              let (pass, w2) = apply_ops node ops rev (fresh_result ops) w1 in
              conclude pass w2 (attempt parse_time f node des opts n))
      unfolding attempt
      attempt_apply s = ground arith

pub sync_node_read :
    (parse_time : String → Option ℕ) (f : Float64) {W : Type 0} (node : NodeApi W)
    (source : DesiredSource W) (opts : Options f) (w w1 : W) (des : List DesiredUser)
    → source.list_desired w ≡ (ok des, w1)
    → sync_node parse_time f node source opts w
      ≡ attempt parse_time f node des opts
          (attempts (max_retry opts.max_conflict_retries))
          (fresh_result [])
          w1
unfolding sync_node
sync_node_read parse_time f node source opts w w1 des h = ground arith
