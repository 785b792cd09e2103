-- ===== src/Sync/Counts.antt =====
-- What the counters of a result mean.
use telemux.Sync.{
  conclude, DesiredSource, NodeApi, is_shadow, Options, SyncResult, SyncError, Verdict-cases,
  fresh_result, attempt, sync_node, apply_ops, Pass, finished, conflicted, refused, verdict,
}
use telemux.Base.{
  Bool-cases, Call-cases, Result-cases, ℕ, zero, suc, ◌+◌, ◌≤◌, String, Bool, false, not, ◌&&◌,
  Option, none, List, [], ◌∷◌, ◌≡◌, refl, arith, inl, inr, length, length-append, ◌++◌,
}
use telemux.Diff.Safety.{is_mass_delete, Float64}
use telemux.Sync.Steps.{attempt_unlisted, attempt_guarded, attempt_shadow, attempt_apply}
use telemux.Diff.{compute_diff, DesiredUser, SyncOp}

-- Operations accounted for.
abbrev pub counted : SyncResult → ℕ
counted r = r.applied + r.skipped + r.failed

-- Nothing is counted twice, and each failure keeps its error.
pub record IsSound (r : SyncResult) : Type 0 where
  pub within : counted r ≤ length r.ops
  pub kept : length r.errors ≡ r.failed

-- Nothing is left out either.
pub record IsComplete (r : SyncResult) : Type 0 where
  pub all : counted r ≡ length r.ops
  pub kept : length r.errors ≡ r.failed

abbrev pub CountsPass : List SyncOp → SyncResult → Pass → Type 0
CountsPass os r (finished r') =
    (r'.ops ≡ r.ops)
    × (counted r' ≡ counted r + length os)
    × (length r'.errors ≡ r'.failed)
    × (r'.aborted ≡ r.aborted)
CountsPass os r (conflicted r') =
    (r'.ops ≡ r.ops)
    × (counted r' ≤ counted r + length os)
    × (length r'.errors ≡ r'.failed)
    × (r'.aborted ≡ r.aborted)
CountsPass os r (refused r' e) =
    (r'.ops ≡ r.ops)
    × (counted r' ≤ counted r + length os)
    × (length r'.errors ≡ r'.failed)
    × (r'.aborted ≡ r.aborted)

CountsPass-shift :
    (o : SyncOp) (os : List SyncOp) (r r1 : SyncResult) (p : Pass)
    → r1.ops ≡ r.ops
    → r1.aborted ≡ r.aborted
    → counted r1 ≡ counted r + 1
    → CountsPass os r1 p
    → CountsPass (o ∷ os) r p
CountsPass-shift o os r r1 (finished r') = ground arith
CountsPass-shift o os r r1 (conflicted r') = ground arith
CountsPass-shift o os r r1 (refused r' e) = ground arith

module _ {W : Type 0} (node : NodeApi W) where
  pub apply_ops_counts :
      (os : List SyncOp) (rev : String) (r : SyncResult) (w : W)
      → length r.errors ≡ r.failed
      → CountsPass os r (apply_ops node os rev r w).0
  unfolding apply_ops
  apply_ops_counts [] rev r w h = (refl, omega arith, h, refl)
  apply_ops_counts (o ∷ os) rev r w h =
      let w' = (node.apply_op o rev w).1 in
      elim (Result-cases (node.apply_op o rev w).0) [
        | inl (rev', e) ↦
            rw (e, apply_ops)
              (CountsPass-shift o os r (record r { applied = r.applied + 1 }) _ refl refl
                (omega arith)
                (apply_ops_counts os rev' (record r { applied = r.applied + 1 }) w' h))
        | inr (x, e) ↦
            let skipped = record r { skipped = r.skipped + 1 } in
            let failed = record r { failed = r.failed + 1; errors = r.errors ++ x ∷ [] } in
            elim (Verdict-cases (verdict x)) [
              | inl v ↦
                  rw (e, v, apply_ops)
                    (CountsPass-shift o os r skipped _ refl refl (omega arith)
                      (apply_ops_counts os rev skipped w' h))
              | inr (inl v) ↦ rw (e, v, apply_ops) (refl, omega arith, h, refl)
              | inr (inr (inl v)) ↦ rw (e, v, apply_ops) (refl, omega arith, h, refl)
              | inr (inr (inr v)) ↦
                  rw (e, v, apply_ops)
                    (CountsPass-shift o os r failed _ refl refl (omega arith) (
                      apply_ops_counts os rev failed w'
                        (omega (arith, h, length-append {0} r.errors (x ∷ [])))))
            ]
      ]

module _ {W : Type 0} where
  CountsRun : SyncResult × Option SyncError × W → Bool → Type 0
  CountsRun (r, e, w) shadowed =
      IsSound r × (e ≡ none → r.aborted ≡ false → shadowed ≡ false → counted r ≡ length r.ops)

  conclude_counts :
      (os : List SyncOp) (p : Pass) (w : W)
      (next : SyncResult → W → SyncResult × Option SyncError × W) (shadowed : Bool)
      → CountsPass os (fresh_result os) p
      → ((r : SyncResult) (w : W) → IsSound r → CountsRun (next r w) shadowed)
      → CountsRun (conclude p w next) shadowed
  unfolding conclude CountsRun
  conclude_counts os (finished r) w next s h ih = ground arith
  conclude_counts os (refused r x) w next s h ih = ground arith
  conclude_counts os (conflicted r) w next s h ih = ih r w (ground arith)

module _ (parse_time : String → Option ℕ) (f : Float64) {W : Type 0} (node : NodeApi W) where
  attempt_counts :
      (des : List DesiredUser) (opts : Options f) (n : ℕ) (r : SyncResult) (w : W)
      → IsSound r
      → CountsRun (attempt parse_time f node des opts n r w) (is_shadow opts.mode)
  attempt_counts des opts zero r w h = unfold attempt CountsRun in (h, λ e. cc)
  attempt_counts des opts (suc n) r w h = elim (Call-cases (node.list_users w)) [
    | inr (x, w1, e) ↦
        rw (attempt_unlisted parse_time f node des opts n r w w1 x e)
          (unfold CountsRun in (h, λ e. cc))
    | inl ((remote, rev), w1, e) ↦
        let ops = compute_diff parse_time des remote opts.mass_delete.options in
        let guard = is_mass_delete f ops remote opts.mass_delete && not opts.force in
        elim (Bool-cases guard) [
          | inl fires ↦
              rw (attempt_guarded parse_time f node des opts n r w w1 remote rev e fires)
                (unfold CountsRun in (omega arith, λ e a. cc))
          | inr calm ↦ elim (Bool-cases (is_shadow opts.mode)) [
            | inl s ↦
                rw (attempt_shadow parse_time f node des opts n r w w1 remote rev e calm s)
                  (unfold CountsRun in (omega arith, λ e a lit. cc))
            | inr s ↦ rw (attempt_apply parse_time f node des opts n r w w1 remote rev e calm s) (
                conclude_counts ops (apply_ops node ops rev (fresh_result ops) w1).0 _ _ _
                  (apply_ops_counts node ops rev (fresh_result ops) w1 refl)
                  (attempt_counts des opts n))
          ]
        ]
  ]

  module _ (source : DesiredSource W) (opts : Options f) (w : W) where
    sync_node_counts : CountsRun (sync_node parse_time f node source opts w) (is_shadow opts.mode)
    unfolding sync_node CountsRun
    sync_node_counts = elim (Result-cases (source.list_desired w).0) [
      | inl (des, e) ↦
          rw (e, sync_node) (attempt_counts des opts _ (fresh_result []) _ (omega arith))
      | inr (x, e) ↦ rw (e, sync_node) (omega arith, λ e. cc)
    ]

    -- However a run ends, it counts no operation twice and none that its diff did not hold, and it
    -- returns one error for each failure that it counts.
    pub sync_node-IsSound : IsSound (sync_node parse_time f node source opts w).0
    unfolding CountsRun
    sync_node-IsSound = sync_node_counts.0

    -- A run that returns no error, was not stopped by the guard and is not in shadow mode has
    -- handled every operation of its last diff: each was applied, skipped or failed.
    pub sync_node_complete :
        (sync_node parse_time f node source opts w).1 ≡ none
        → (sync_node parse_time f node source opts w).0.aborted ≡ false
        → is_shadow opts.mode ≡ false
        → counted (sync_node parse_time f node source opts w).0
          ≡ length (sync_node parse_time f node source opts w).0.ops
    unfolding CountsRun
    sync_node_complete = sync_node_counts.1
