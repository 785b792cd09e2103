-- ===== src/Sync/Attempts.antt =====
-- How often a run reads the node's list.
use telemux.Base.{
  ℕ, zero, suc, ◌+◌, ◌≤◌, String, not, ◌&&◌, Option, some, List, [], ◌∷◌, Result, ◌≡◌, refl, arith,
  inl, inr, Bool-cases, Call-cases, Result-cases, ap, ◌∙◌, subst,
}
use telemux.Base.Int.{ℤ, pos}
use telemux.Diff.{DesiredUser, RemoteUser, SyncOp, compute_diff}
use telemux.Diff.Safety.{Float64, is_mass_delete}
use telemux.Sync.{
  DesiredSource, NodeApi, is_shadow, Options, SyncResult, SyncError, not_converged, fresh_result,
  conclude, attempt, attempts, max_retry, apply_ops, sync_node, Pass, finished, refused, conflicted,
  Verdict-cases, verdict,
}
use telemux.Sync.Steps.{attempt_unlisted, attempt_guarded, attempt_shadow, attempt_apply}

module _ {W : Type 0} where
  abbrev tick {ℓ} : {A : Type ℓ} → A × W → ℕ → A × (W × ℕ)
  tick (a, w) n = (a, (w, n))

  -- The same node, with a counter of the calls of `ListUsers`.
  abbrev pub counting : NodeApi W → NodeApi (W × ℕ)
  counting node = record {
    list_users = λ (w, n). tick (node.list_users w) (n + 1);
    apply_op = λ op rev (w, n). tick (node.apply_op op rev w) n;
  }

  abbrev pub counting_source : DesiredSource W → DesiredSource (W × ℕ)
  counting_source source = record { list_desired = λ (w, n). tick (source.list_desired w) n }

  count-apply_ops :
      (node : NodeApi W) (os : List SyncOp) (rev : String) (r : SyncResult) (w : W) (n : ℕ)
      → (apply_ops (counting node) os rev r (w, n)).1.1 ≡ n
  unfolding apply_ops
  count-apply_ops node [] rev r w n = refl
  count-apply_ops node (o ∷ os) rev r w n =
      let w' = (node.apply_op o rev w).1 in
      elim (Result-cases (node.apply_op o rev w).0) [
        | inl (rev', e) ↦ rw (e, apply_ops) (count-apply_ops node os rev' _ w' n)
        | inr (x, e) ↦ elim (Verdict-cases (verdict x)) [
          | inl v ↦ rw (e, v, apply_ops) (count-apply_ops node os rev _ w' n)
          | inr (inl v) ↦ rw (e, v, apply_ops)
          | inr (inr (inl v)) ↦ rw (e, v, apply_ops)
          | inr (inr (inr v)) ↦ rw (e, v, apply_ops) (count-apply_ops node os rev _ w' n)
        ]
      ]

module _ {W : Type 0} where
  -- From `n` attempts and `c` lists read; `m` is the number of retries that an error reports.
  IsBounded : ℤ → ℕ → ℕ → SyncResult × Option SyncError × (W × ℕ) → Type 0
  IsBounded m n c (r, e, (w, c')) =
      (c' ≤ c + n) × ((k : ℤ) → e ≡ some (not_converged k) → (k ≡ m) × (c' ≡ c + n))

  conclude-IsBounded :
      (m : ℤ) (n c : ℕ) (p : Pass) (w : W × ℕ)
      (next : SyncResult → W × ℕ → SyncResult × Option SyncError × (W × ℕ))
      → w.1 ≡ c + 1
      → ((r : SyncResult) (w : W × ℕ) → w.1 ≡ c + 1 → IsBounded m n (c + 1) (next r w))
      → IsBounded m (suc n) c (conclude p w next)
  unfolding conclude IsBounded
  conclude-IsBounded m n c (finished r) w next h ih = (omega arith, λ k g. cc)
  conclude-IsBounded m n c (refused r x) w next h ih = (omega arith, λ k g. cc)
  conclude-IsBounded m n c (conflicted r) w next h ih = ground (arith, ih r w h)

module _ (parse_time : String → Option ℕ) (f : Float64) {W : Type 0} (node : NodeApi W)
    (opts : Options f) where
  attempt-IsBounded :
      (des : List DesiredUser) (n : ℕ) (r : SyncResult) (w : W) (c : ℕ)
      → IsBounded
          (max_retry opts.max_conflict_retries)
          n
          c
          (attempt parse_time f (counting node) des opts n r (w, c))
  attempt-IsBounded des zero r w c = unfold attempt IsBounded in (omega arith, λ k g. ground arith)
  attempt-IsBounded des (suc n) r w c = elim (Call-cases ((counting node).list_users (w, c))) [
    | inr (x, w1, e) ↦
        let read = ap (λ (t : Result String (List RemoteUser × String) × (W × ℕ)). t.1.1) e in
        rw (attempt_unlisted parse_time f (counting node) des opts n r (w, c) w1 x e)
          (unfold IsBounded in (omega arith, λ k g. cc))
    | inl ((remote, rev), w1, e) ↦
        let read = ap (λ (t : Result String (List RemoteUser × String) × (W × ℕ)). t.1.1) e in
        let ops = compute_diff parse_time des remote opts.mass_delete.options in
        let guard = is_mass_delete f ops remote opts.mass_delete && not opts.force in
        elim (Bool-cases guard) [
          | inl fires ↦
              rw
                (attempt_guarded parse_time f (counting node) des opts n r (w, c) w1 remote rev e
                  fires)
                (unfold IsBounded in (omega arith, λ k g. cc))
          | inr calm ↦ elim (Bool-cases (is_shadow opts.mode)) [
            | inl s ↦
                rw
                  (attempt_shadow parse_time f (counting node) des opts n r (w, c) w1 remote rev e
                    calm s)
                  (unfold IsBounded in (omega arith, λ k g. cc))
            | inr s ↦
                rw
                  (attempt_apply parse_time f (counting node) des opts n r (w, c) w1 remote rev e
                    calm s)
                  (conclude-IsBounded _ n c _ _ _
                    (count-apply_ops node ops rev (fresh_result ops) w1.0 w1.1
                      ∙ omega (arith, read))
                    (λ r' w' h.
                      subst
                        (λ k.
                          IsBounded (max_retry opts.max_conflict_retries) n k
                            (attempt parse_time f (counting node) des opts n r' w'))
                        h (attempt-IsBounded des n r' w'.0 w'.1)))
          ]
        ]
  ]

  module _ (source : DesiredSource W) (w : W) where
    run-IsBounded :
        IsBounded
          (max_retry opts.max_conflict_retries)
          (attempts (max_retry opts.max_conflict_retries))
          0
          (sync_node parse_time f (counting node) (counting_source source) opts (w, 0))
    unfolding sync_node
    run-IsBounded = elim (Result-cases (source.list_desired w).0) [
      | inl (des, e) ↦ rw (e, sync_node) (attempt-IsBounded des _ (fresh_result []) _ 0)
      | inr (x, e) ↦ rw (e, sync_node) (unfold IsBounded in (omega arith, λ k g. cc))
    ]

    -- The run reads the node's list at most as often as there are attempts: one more than the
    -- retries, and never if those are negative.
    sync_node-attempts :
        (sync_node parse_time f (counting node) (counting_source source) opts (w, 0)).2.1
        ≤ attempts (max_retry opts.max_conflict_retries)
    unfolding IsBounded
    sync_node-attempts = omega (arith, run-IsBounded.0)

    -- A run that reports that `k` attempts did not converge has made one attempt more than that.
    pub sync_node_gave_up :
        (k : ℕ)
        → (sync_node parse_time f (counting node) (counting_source source) opts (w, 0)).1
          ≡ some (not_converged (pos k))
        → (sync_node parse_time f (counting node) (counting_source source) opts (w, 0)).2.1 ≡ k + 1
    unfolding IsBounded
    sync_node_gave_up k e =
        let (same, spent) = run-IsBounded.1 (pos k) e in rw (← same) at spent ∙ omega arith
