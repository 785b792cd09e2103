-- ===== src/Sync/Keeps.antt =====
-- What a synchronisation keeps of the world, when the node and the source keep it.
use telemux.Base.{
  ℕ, zero, suc, ◌+◌, String, ◌&&◌, not, Option, List, [], ◌∷◌, ◌++◌, inl, inr, Result-cases,
  Bool-cases,
}
use telemux.Diff.{SyncOp, DesiredUser, compute_diff}
use telemux.Diff.Safety.{Float64, is_mass_delete}
use telemux.Sync.{
  NodeApi, DesiredSource, Options, SyncResult, Pass, finished, refused, conflicted, SyncError,
  apply_ops, conclude, attempt, sync_node, fresh_result, verdict, Verdict-cases, attempts,
  max_retry, is_shadow,
}

module _ {W : Type 0} (K : W → Type 0) (node : NodeApi W)
    (applies : (o : SyncOp) (rev : String) (w : W) → K w → K (node.apply_op o rev w).1) where
  apply_ops-Keeps :
      (os : List SyncOp) (rev : String) (res : SyncResult) (w : W)
      → K w
      → K (apply_ops node os rev res w).1
  unfolding apply_ops
  apply_ops-Keeps [] rev res w k = k
  apply_ops-Keeps (o ∷ os) rev res w k =
      let (reply, w1) = node.apply_op o rev w in
      let k1 = applies o rev w k in
      elim (Result-cases reply) [
        | inl (rev1, e) ↦
            rw (e, apply_ops)
              (apply_ops-Keeps os rev1 (record res { applied = res.applied + 1 }) w1 k1)
        | inr (x, e) ↦ elim (Verdict-cases (verdict x)) [
          | inl v ↦
              rw (e, v, apply_ops)
                (apply_ops-Keeps os rev (record res { skipped = res.skipped + 1 }) w1 k1)
          | inr (inl v) ↦ rw (e, v, apply_ops) k1
          | inr (inr (inl v)) ↦ rw (e, v, apply_ops) k1
          | inr (inr (inr v)) ↦
              rw (e, v, apply_ops)
                (apply_ops-Keeps os rev
                  (record res { failed = res.failed + 1; errors = res.errors ++ x ∷ [] }) w1 k1)
        ]
      ]

  conclude-Keeps :
      (pass : Pass) (w : W) (next : SyncResult → W → SyncResult × Option SyncError × W)
      → ((res : SyncResult) (v : W) → K v → K (next res v).2)
      → K w
      → K (conclude pass w next).2
  unfolding conclude
  conclude-Keeps (finished res) w next h k = k
  conclude-Keeps (refused res e) w next h k = k
  conclude-Keeps (conflicted res) w next h k = h res w k

  module _ (lists : (w : W) → K w → K (node.list_users w).1) (parse_time : String → Option ℕ)
      (f : Float64) where
    attempt-Keeps :
        (des : List DesiredUser) (opts : Options f) (left : ℕ) (res : SyncResult) (w : W)
        → K w
        → K (attempt parse_time f node des opts left res w).2
    unfolding attempt
    attempt-Keeps des opts zero res w k = k
    attempt-Keeps des opts (suc left) res w k =
        let (listed, w1) = node.list_users w in
        elim (Result-cases listed) [
          | inr (x, e) ↦ rw (e, attempt) (lists w k)
          | inl ((remote, rev), e) ↦
              let ops = compute_diff parse_time des remote opts.mass_delete.options in
              elim (Bool-cases (is_mass_delete f ops remote opts.mass_delete && not opts.force)) [
                | inl fires ↦ rw (e, fires, attempt) (lists w k)
                | inr calm ↦ elim (Bool-cases (is_shadow opts.mode)) [
                  | inl s ↦ rw (e, calm, s, attempt) (lists w k)
                  | inr s ↦
                      rw (e, calm, s, attempt)
                        (let (pass, w2) = apply_ops node ops rev (fresh_result ops) w1 in
                          conclude-Keeps pass w2 (attempt parse_time f node des opts left)
                            (attempt-Keeps des opts left)
                            (apply_ops-Keeps ops rev (fresh_result ops) w1 (lists w k)))
                ]
              ]
        ]

    pub sync_node-Keeps :
        (source : DesiredSource W) (opts : Options f) (w : W)
        → ((v : W) → K v → K (source.list_desired v).1)
        → K w
        → K (sync_node parse_time f node source opts w).2
    unfolding sync_node
    sync_node-Keeps source opts w reads k =
        let (listed, w1) = source.list_desired w in
        elim (Result-cases listed) [
          | inr (x, e) ↦ rw (e, sync_node) (reads w k)
          | inl (des, e) ↦
              rw (e, sync_node)
                (attempt-Keeps des opts (attempts (max_retry opts.max_conflict_retries))
                  (fresh_result []) w1 (reads w k))
        ]
