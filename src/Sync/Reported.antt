-- ===== src/Sync/Reported.antt =====
-- The operations that a result reports are those of a diff.
use telemux.Base.{
  ℕ, zero, suc, String, not, ◌&&◌, Option, List, [], refl, inl, inr, Call-cases, Result-cases,
  Bool-cases, subst, sym,
}
use telemux.Diff.{DesiredUser, RemoteUser, SyncOp, compute_diff}
use telemux.Diff.Safety.{Float64, is_mass_delete}
use telemux.Sync.{
  DesiredSource, NodeApi, is_shadow, Options, SyncResult, SyncError, fresh_result, attempt,
  sync_node, apply_ops, conclude, Pass, finished, conflicted, refused,
}
use telemux.Sync.Counts.{CountsPass, apply_ops_counts}
use telemux.Sync.Steps.{attempt_unlisted, attempt_guarded, attempt_shadow, attempt_apply}

module _ (parse_time : String → Option ℕ) (f : Float64) {W : Type 0} (node : NodeApi W)
    (opts : Options f) (P : List SyncOp → Type 0) (none_yet : P [])
    (diffs : (ds : List DesiredUser) (rs : List RemoteUser)
      → P (compute_diff parse_time ds rs opts.mass_delete.options)) where
  conclude-ops :
      (os : List SyncOp) (p : Pass) (w : W)
      (next : SyncResult → W → SyncResult × Option SyncError × W)
      → P os
      → CountsPass os (fresh_result os) p
      → ((r : SyncResult) (w : W) → P r.ops → P (next r w).0.ops)
      → P (conclude p w next).0.ops
  unfolding conclude
  conclude-ops os (finished r) w next h c ih = subst P (sym c.0) (h)
  conclude-ops os (refused r x) w next h c ih = subst P (sym c.0) (h)
  conclude-ops os (conflicted r) w next h c ih = ih r w (subst P (sym c.0) (h))

  attempt-ops :
      (des : List DesiredUser) (n : ℕ) (r : SyncResult) (w : W)
      → P r.ops
      → P (attempt parse_time f node des opts n r w).0.ops
  attempt-ops des zero r w h = unfold attempt in h
  attempt-ops des (suc n) r w h = elim (Call-cases (node.list_users w)) [
    | inr (x, w1, e) ↦ rw (attempt_unlisted parse_time f node des opts n r w w1 x e) h
    | inl ((remote, rev), w1, e) ↦
        let ops = compute_diff parse_time des remote opts.mass_delete.options in
        elim (Bool-cases (is_mass_delete f ops remote opts.mass_delete && not opts.force)) [
          | inl fires ↦
              rw (attempt_guarded parse_time f node des opts n r w w1 remote rev e fires)
                (diffs des remote)
          | inr calm ↦ elim (Bool-cases (is_shadow opts.mode)) [
            | inl s ↦
                rw (attempt_shadow parse_time f node des opts n r w w1 remote rev e calm s)
                  (diffs des remote)
            | inr s ↦ rw (attempt_apply parse_time f node des opts n r w w1 remote rev e calm s) (
                conclude-ops ops (apply_ops node ops rev (fresh_result ops) w1).0 _ _
                  (diffs des remote) (apply_ops_counts node ops rev (fresh_result ops) w1 refl)
                  (attempt-ops des n))
          ]
        ]
  ]

  -- What holds of no operations and of every diff holds of the operations of a result.
  pub sync_node-ops :
      (source : DesiredSource W) (w : W) → P (sync_node parse_time f node source opts w).0.ops
  unfolding sync_node
  sync_node-ops source w = elim (Result-cases (source.list_desired w).0) [
    | inl (des, e) ↦ rw (e, sync_node) (attempt-ops des _ (fresh_result []) _ none_yet)
    | inr (x, e) ↦ rw (e, sync_node) none_yet
  ]
