-- ===== src/Sync.antt =====
-- One pass of synchronisation, internal/sync/sync.go. The source of desired users and the API of
-- the node are interfaces of the Go code, and act here on a world `W`.
pub mod Shared
pub mod Converge
pub mod Attempts
pub mod Steps
pub mod Keeps
pub mod ReadsOnly
pub mod Counts
pub mod Reported
use telemux.Base.{
  ℕ, zero, suc, ◌+◌, String, Bool, true, false, not, ◌&&◌, Option, none, some, List, [], ◌∷◌, ◌++◌,
  Result, ok, err, if◌then◌else◌, ◌≡◌, ◌⊎◌, inl, inr, refl,
}
use telemux.Base.Int.{ℤ, pos, negsuc, is_zero}
use telemux.Diff.{DesiredUser, RemoteUser, SyncOp, compute_diff}
use telemux.Diff.Safety.{Float64, MassDeleteOptions, is_mass_delete}

-- The three methods of `classifiedError`.
pub record Classification : Type 0 where
  pub revision_conflict : Bool
  pub read_only : Bool
  pub already_done : Bool

-- An error of a mutation: one that classifies itself, or any other.
pub data NodeError : Type 0 where
  classified : Classification → String → NodeError
  plain : String → NodeError

pub record DesiredSource (W : Type 0) : Type 0 where
  pub list_desired : W → Result String (List DesiredUser) × W

pub record NodeApi (W : Type 0) : Type 0 where
  pub list_users : W → Result String (List RemoteUser × String) × W
  pub apply_op : SyncOp → String → W → Result NodeError String × W

-- A Go string type: the two constants, and any other text.
pub data Mode : Type 0 where
  shadow apply : Mode
  other : String → Mode

abbrev pub is_shadow : Mode → Bool
is_shadow shadow = true
is_shadow _ = false

pub record Options (f : Float64) : Type 0 where
  pub mode : Mode
  pub mass_delete : MassDeleteOptions f
  pub force : Bool
  pub max_conflict_retries : ℤ

pub record SyncResult : Type 0 where
  pub ops : List SyncOp
  pub applied : ℕ
  pub skipped : ℕ
  pub failed : ℕ
  pub errors : List NodeError
  pub aborted : Bool

-- `Result{Ops: ops}`
abbrev pub fresh_result : List SyncOp → SyncResult
fresh_result ops = record {
  ops = ops;
  applied = 0;
  skipped = 0;
  failed = 0;
  errors = [];
  aborted = false;
}

pub data SyncError : Type 0 where
  desired_failed list_failed : String → SyncError
  read_only : NodeError → SyncError
  not_converged : ℤ → SyncError

-- How the loop goes on after an error.
pub data Verdict : Type 0 where
  skip stop retry fail : Verdict

abbrev pub classify : Classification → Verdict
classify c =
    if c.already_done
    then skip
    else if c.read_only
    then stop
    else if c.revision_conflict
    then retry
    else fail

pub Verdict-cases : (v : Verdict) → (v ≡ skip) ⊎ ((v ≡ stop) ⊎ ((v ≡ retry) ⊎ (v ≡ fail)))
Verdict-cases skip = inl refl
Verdict-cases stop = inr (inl refl)
Verdict-cases retry = inr (inr (inl refl))
Verdict-cases fail = inr (inr (inr refl))

unfoldable pub verdict : NodeError → Verdict
verdict (classified c _) = classify c
verdict (plain _) = fail

-- How the loop over the operations ends: through all of them, at a conflict, at a refusal.
pub data Pass : Type 0 where
  finished : SyncResult → Pass
  conflicted : SyncResult → Pass
  refused : SyncResult → NodeError → Pass

abbrev pub max_retry : ℤ → ℤ
max_retry n = if is_zero n then pos 3 else n

-- How often `for attempt := 0; attempt <= maxRetry; attempt++` runs.
abbrev pub attempts : ℤ → ℕ
attempts (pos n) = suc n
attempts (negsuc n) = 0

module _ {W : Type 0} (node : NodeApi W) where
  unfoldable pub apply_ops : List SyncOp → String → SyncResult → W → Pass × W
  apply_ops [] rev res w = (finished res, w)
  apply_ops (op ∷ ops) rev res w =
      let (reply, w') = node.apply_op op rev w in
      elim reply [
        | ok new_rev ↦ apply_ops ops new_rev (record res { applied = res.applied + 1 }) w'
        | err e ↦ elim (verdict e) [
          | skip ↦ apply_ops ops rev (record res { skipped = res.skipped + 1 }) w'
          | stop ↦ (refused res e, w')
          | retry ↦ (conflicted res, w')
          | fail ↦
              apply_ops ops rev
                (record res { failed = res.failed + 1; errors = res.errors ++ e ∷ [] }) w'
        ]
      ]

-- After the loop over the operations: the next attempt comes only after a conflict.
unfoldable pub conclude {ℓ} :
    {W : Type ℓ}
    → Pass
    → W
    → (SyncResult → W → SyncResult × Option SyncError × W)
    → SyncResult × Option SyncError × W
conclude (finished res) w next = (res, none, w)
conclude (refused res e) w next = (res, some (read_only e), w)
conclude (conflicted res) w next = next res w

module _ (parse_time : String → Option ℕ) (f : Float64) {W : Type 0} (node : NodeApi W) where
  -- The attempts that are left.
  unfoldable pub attempt :
      List DesiredUser → Options f → ℕ → SyncResult → W → SyncResult × Option SyncError × W
  attempt des opts zero res w = (res, some (not_converged (max_retry opts.max_conflict_retries)), w)
  attempt des opts (suc left) res w =
      let (listed, w1) = node.list_users w in
      elim listed [
        | err e ↦ (res, some (list_failed e), w1)
        | ok (remote, rev) ↦
            let ops = compute_diff parse_time des remote opts.mass_delete.options in
            let res1 = fresh_result ops in
            elim (is_mass_delete f ops remote opts.mass_delete && not opts.force) [
              | true ↦ (record res1 { aborted = true }, none, w1)
              | false ↦ elim (is_shadow opts.mode) [
                | true ↦ (res1, none, w1)
                | false ↦
                    let (pass, w2) = apply_ops node ops rev res1 w1 in
                    conclude pass w2 (attempt des opts left)
              ]
            ]
      ]

  unfoldable pub sync_node : DesiredSource W → Options f → W → SyncResult × Option SyncError × W
  unfolding attempt
  sync_node desired opts w =
      let (listed, w1) = desired.list_desired w in
      elim listed [
        | err e ↦ (fresh_result [], some (desired_failed e), w1)
        | ok des ↦
            attempt des opts (attempts (max_retry opts.max_conflict_retries)) (fresh_result []) w1
      ]
