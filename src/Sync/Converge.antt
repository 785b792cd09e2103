-- ===== src/Sync/Converge.antt =====
-- A run against a node that others change while it works.
use telemux.Sync.Steps.{
  apply_ops_failed, apply_ops_applied, sync_node_read, attempt_guarded, attempt_apply,
}
use telemux.Base.{
  ◌++◌, ◌≢◌, ◌+◌, ◌∙◌, ◌≤◌, ℕ, zero, suc, ◌<◌, String, Bool, true, false, not, ◌&&◌, Option, none,
  List, [], ◌∷◌, ok, ◌≡◌, refl, arith, inl, inr, ◌⊎◌, Bool-cases, string_eq, if◌then◌else◌,
}
use telemux.Sync.{
  refused, DesiredSource, NodeError, is_shadow, Options, SyncResult, SyncError, fresh_result,
  conclude, attempt, attempts, max_retry, apply_ops, sync_node, Pass, finished, conflicted, verdict,
  retry,
}
use telemux.Diff.{DesiredUser, SyncOp, compute_diff}
use telemux.Diff.Scan.{NamedOnce, wanted}
use telemux.Diff.Node.{Node, IsLawful, run, next, refusals}
use telemux.Diff.Converge.{accepted-run, IsLeft-refusals, wanted-IsLeft}
use telemux.Diff.Safety.{Float64, is_mass_delete}
use telemux.Sync.Shared.{disturbances, is_unmarked, is_unmarked-fail, guarded, answer, shared_node}

module _ (n : Node) (revision : n.State → String) (disturb : n.State → n.State)
    (conflict forbidden : NodeError) where
  -- A pass carries out all of its operations and counts those that are refused, or uses up a
  -- disturbance.
  PassTo : List SyncOp → n.State → List Bool → SyncResult → Pass × (n.State × List Bool) → Type 0
  PassTo os s schedule r (finished r', (s', later)) =
      (s' ≡ run n s os)
      × (disturbances later ≤ disturbances schedule)
      × (r'.failed ≡ r.failed + refusals n s os)
      × (r'.aborted ≡ r.aborted)
  PassTo os s schedule r (conflicted r', (s', later)) = disturbances later < disturbances schedule
  PassTo os s schedule r (refused r' e, w) = ⊥

  PassTo-cons :
      (o : SyncOp) (os : List SyncOp) (s : n.State) (schedule later : List Bool) (r r1 : SyncResult)
      (p : Pass × (n.State × List Bool))
      → disturbances later ≡ disturbances schedule
      → r1.failed ≡ r.failed + (if n.refuses s o then 1 else 0)
      → r1.aborted ≡ r.aborted
      → PassTo os (next n s o) later r1 p
      → PassTo (o ∷ os) s schedule r p
  unfolding PassTo
  PassTo-cons o os s schedule later r r1 (finished r', (s', l)) e c a h =
      (h.0, omega arith, omega (arith, h.2), h.3 ∙ a)
  PassTo-cons o os s schedule later r r1 (conflicted r', (s', l)) e c a h = omega arith
  PassTo-cons o os s schedule later r r1 (refused r' x, w) e c a h = h

  module _ (retried : verdict conflict ≡ retry) (unmarked : is_unmarked forbidden ≡ true) where
    met_current :
        (o : SyncOp) (os : List SyncOp) (s : n.State) (schedule later : List Bool) (r : SyncResult)
        → answer n revision disturb conflict forbidden o (revision s) (s, schedule)
          ≡ (guarded n revision disturb conflict forbidden) o (revision s) s later
        → disturbances later ≡ disturbances schedule
        → ((s1 : n.State) (r1 : SyncResult)
            → PassTo os s1 later r1 (
                apply_ops
                  (shared_node n revision disturb conflict forbidden)
                  os
                  (revision s1)
                  r1
                  (s1, later)))
        → PassTo (o ∷ os) s schedule r (
            apply_ops
              (shared_node n revision disturb conflict forbidden)
              (o ∷ os)
              (revision s)
              r
              (s, schedule))
    met_current o os s schedule later r e d ih = elim (Bool-cases (n.refuses s o)) [
      | inl no_way ↦
          let failed = record r { failed = r.failed + 1; errors = r.errors ++ forbidden ∷ [] } in
          rw
            (apply_ops_failed (shared_node n revision disturb conflict forbidden) o os (revision s)
              r (s, schedule) (s, later) forbidden (e ∙ ground arith)
              (is_unmarked-fail forbidden unmarked))
            (PassTo-cons o os s schedule later r failed _ d (ground arith) refl
              (rw no_way (ih s failed)))
      | inr accepted ↦
          let applied = record r { applied = r.applied + 1 } in
          rw
            (apply_ops_applied (shared_node n revision disturb conflict forbidden) o os (revision s)
              r (s, schedule) (n.step s o, later) (revision (n.step s o)) (e ∙ ground arith))
            (PassTo-cons o os s schedule later r applied _ d (ground arith) refl
              (rw accepted (ih (n.step s o) applied)))
    ]

    apply_ops-PassTo :
        (os : List SyncOp) (r : SyncResult) (s : n.State) (schedule : List Bool)
        → PassTo os s schedule r (
            apply_ops
              (shared_node n revision disturb conflict forbidden)
              os
              (revision s)
              r
              (s, schedule))
    apply_ops-PassTo [] r s schedule =
        unfold apply_ops PassTo in (refl, omega arith, omega arith, refl)
    apply_ops-PassTo (o ∷ os) r s [] =
        met_current o os s [] [] r refl refl (λ s1 r1. apply_ops-PassTo os r1 s1 [])
    apply_ops-PassTo (o ∷ os) r s (false ∷ later) =
        met_current o os s (false ∷ later) later r refl refl
          (λ s1 r1. apply_ops-PassTo os r1 s1 later)
    apply_ops-PassTo (o ∷ os) r s (true ∷ later) =
        unfold apply_ops PassTo in rw (retried, apply_ops) (omega arith)

  module _ (parse_time : String → Option ℕ) (f : Float64) (law : IsLawful n) (ds : List DesiredUser)
      (once : NamedOnce ds) (opts : Options f) (retried : verdict conflict ≡ retry)
      (unmarked : is_unmarked forbidden ≡ true) (applies : is_shadow opts.mode ≡ false) where
    abbrev IsDone : n.State → Type 0
    IsDone s = compute_diff parse_time ds (n.users s) opts.mass_delete.options ≡ []

    -- A run that returns no error and was not stopped, and counts no failure, has left nothing to do;
    -- with few disturbances and a user who is wanted it returns no error and counts no failure.
    Ends : Bool → SyncResult × Option SyncError × (n.State × List Bool) → Type 0
    Ends sure (r, e, w) =
        (sure ≡ true → (e ≡ none) × (r.aborted ≡ false → r.failed ≡ 0))
        × (e ≡ none → r.aborted ≡ false → r.failed ≡ 0 → IsDone w.0)

    conclude-Ends :
        (sure : Bool) (s : n.State) (schedule : List Bool) (left : ℕ)
        (p : Pass × (n.State × List Bool))
        (next : SyncResult
          → n.State × List Bool
          → SyncResult × Option SyncError × (n.State × List Bool))
        → (sure ≡ true → (j : String) × (wanted j ds ≢ none))
        → PassTo
            (compute_diff parse_time ds (n.users s) opts.mass_delete.options)
            s
            schedule
            (fresh_result (compute_diff parse_time ds (n.users s) opts.mass_delete.options))
            p
        → (sure ≡ true → disturbances schedule < suc left)
        → ((r : SyncResult) (w : n.State × List Bool)
            → (sure ≡ true → disturbances w.1 < left)
            → Ends sure (next r w))
        → Ends sure (conclude p.0 p.1 next)
    unfolding conclude PassTo Ends
    conclude-Ends sure s schedule left (finished r, (s', later)) next some_wanted h small ih = (
      (λ certain. (
        refl,
        (λ free.
            let (j, there) = some_wanted certain in
            let allowed =
              IsLeft-refusals parse_time n law s ds opts.mass_delete.options once j
                (wanted-IsLeft parse_time ds (n.users s) opts.mass_delete.options j there) in
            omega (arith, h.2, allowed)),
      )),
      (λ e free fine. rw h.0 (
          accepted-run parse_time n law s ds opts.mass_delete.options once
            (omega (arith, h.2, fine)))),
    )
    conclude-Ends sure s schedule left (conflicted r, (s', later)) next some_wanted h small ih =
        ih r (s', later) (λ certain. omega (arith, small certain, h))
    conclude-Ends sure s schedule left (refused r e, w) next some_wanted h small ih = absurd h

    attempt-Ends :
        (sure : Bool) (left : ℕ) (r : SyncResult) (w : n.State × List Bool)
        → (sure ≡ true → (j : String) × (wanted j ds ≢ none))
        → (sure ≡ true → disturbances w.1 < left)
        → Ends sure (
            attempt parse_time f
              (shared_node n revision disturb conflict forbidden)
              ds
              opts
              left
              r
              w)
    unfolding Ends
    attempt-Ends sure zero r w some_wanted h =
        unfold attempt in ((λ certain. absurd (omega (arith, h certain))), (λ e. cc))
    attempt-Ends sure (suc left) r (s, schedule) some_wanted h =
        let users = n.users s in
        let ops = compute_diff parse_time ds users opts.mass_delete.options in
        elim (Bool-cases (is_mass_delete f ops users opts.mass_delete && not opts.force)) [
          | inl fires ↦
              rw
                (attempt_guarded parse_time f (shared_node n revision disturb conflict forbidden) ds
                  opts left r (s, schedule) (s, schedule) users (revision s) refl fires)
                ((λ certain. (refl, (λ free. cc))), (λ e free. cc))
          | inr calm ↦
              rw
                (attempt_apply parse_time f (shared_node n revision disturb conflict forbidden) ds
                  opts left r (s, schedule) (s, schedule) users (revision s) refl calm applies)
                (conclude-Ends sure s schedule left
                  (apply_ops (shared_node n revision disturb conflict forbidden) ops (revision s)
                    (fresh_result ops) (s, schedule))
                  _ some_wanted
                  (apply_ops-PassTo retried unmarked ops (fresh_result ops) s schedule) h
                  (λ r1 w1 small. attempt-Ends sure left r1 w1 some_wanted small))
        ]

    module _ (source : DesiredSource (n.State × List Bool)) (w w1 : n.State × List Bool)
        (read : source.list_desired w ≡ (ok ds, w1)) where
      abbrev ran : SyncResult × Option SyncError × (n.State × List Bool)
      ran = sync_node parse_time f (shared_node n revision disturb conflict forbidden) source opts w

      sync_node-Ends :
          (sure : Bool)
          → (sure ≡ true → (j : String) × (wanted j ds ≢ none))
          → (sure ≡ true → disturbances w1.1 < attempts (max_retry opts.max_conflict_retries))
          → Ends sure ran
      sync_node-Ends sure some_wanted few =
          rw
            (sync_node_read parse_time f (shared_node n revision disturb conflict forbidden) source
              opts w w1 ds read)
            (attempt-Ends sure (attempts (max_retry opts.max_conflict_retries)) (fresh_result []) w1
              some_wanted few)

      -- In apply mode, a run against a lawful node that returns no error, was not stopped by the
      -- guard against mass deletion and counts no failed operation leaves a node against which
      -- a diff is empty.
      pub sync_node-IsDone :
          ran.1 ≡ none → ran.0.aborted ≡ false → ran.0.failed ≡ 0 → IsDone ran.2.0
      unfolding Ends
      sync_node-IsDone e free fine = (sync_node-Ends false (λ u. cc) (λ u. cc)).1 e free fine

      -- In apply mode, against a lawful node whose users others change no more often than the run
      -- may retry, the run ends with no error: either the guard against mass deletion has stopped
      -- it, or no operation has failed and a diff against the node as the run leaves it is empty.
      -- Every operation carries the current revision, the desired names are distinct and there is
      -- one, a conflict is reported as one, and the refusal to delete the last user as an error
      -- that no method of the error marks.
      pub sync_node_converges :
          (j : String)
          → wanted j ds ≢ none
          → disturbances w1.1 < attempts (max_retry opts.max_conflict_retries)
          → ((sync_node parse_time f
                (shared_node n revision disturb conflict forbidden)
                source
                opts
                w).1
              ≡ none)
            × (((sync_node parse_time f
                    (shared_node n revision disturb conflict forbidden)
                    source
                    opts
                    w).0.aborted
                  ≡ true)
                ⊎ (((sync_node parse_time f
                        (shared_node n revision disturb conflict forbidden)
                        source
                        opts
                        w).0.failed
                      ≡ 0)
                    × (compute_diff parse_time ds
                          (n.users
                            (sync_node parse_time f
                              (shared_node n revision disturb conflict forbidden)
                              source
                              opts
                              w).2.0)
                          opts.mass_delete.options
                        ≡ [])))
      unfolding Ends
      sync_node_converges j there few =
          let (sure, done) = sync_node-Ends true (λ u. (j, there)) (λ u. few) in
          let (no_error, none_failed) = sure refl in
          (
            no_error,
            elim (Bool-cases ran.0.aborted) [
              | inl stopped ↦ inl stopped
              | inr free ↦ inr (none_failed free, done no_error free (none_failed free))
            ],
          )
