-- ===== src/Sync/Shared.antt =====
-- A node that others change while a run works.
use telemux.Base.{
  ℕ, suc, String, Bool, true, false, not, ◌&&◌, List, [], ◌∷◌, Result, ok, err, ◌≡◌, refl, arith,
  ◌==◌, string_eq, if◌then◌else◌,
}
use telemux.Sync.{classified, fail, plain, NodeApi, NodeError, verdict}
use telemux.Diff.{SyncOp}
use telemux.Diff.Node.{Node}

-- How often a schedule disturbs the node.
abbrev pub disturbances : List Bool → ℕ
disturbances [] = 0
disturbances (true ∷ later) = suc (disturbances later)
disturbances (false ∷ later) = disturbances later

-- An error that no method of `classifiedError` marks.
abbrev pub is_unmarked : NodeError → Bool
is_unmarked (plain e) = true
is_unmarked (classified c e) = not c.already_done && not c.read_only && not c.revision_conflict

pub is_unmarked-fail : (e : NodeError) → is_unmarked e ≡ true → verdict e ≡ fail
unfolding verdict
is_unmarked-fail (plain e) h = refl
is_unmarked-fail (classified c e) h = ground arith

-- A node with a revision that guards every operation, and an error for one that it refuses. The schedule says for each operation to
-- arrive whether others change the node just before it, by `disturb`: the operation then meets a
-- revision that it does not know. Past the schedule nobody else does.
module _ (n : Node) (revision : n.State → String) (disturb : n.State → n.State)
    (conflict forbidden : NodeError) where
  abbrev pub guarded :
      SyncOp → String → n.State → List Bool → Result NodeError String × (n.State × List Bool)
  guarded o rev s later =
      if rev == revision s
      then elim (n.refuses s o) [
        | true ↦ (err forbidden, (s, later))
        | false ↦ (ok (revision (n.step s o)), (n.step s o, later))
      ]
      else (err conflict, (s, later))

  abbrev pub answer :
      SyncOp → String → n.State × List Bool → Result NodeError String × (n.State × List Bool)
  answer o rev (s, []) = guarded o rev s []
  answer o rev (s, false ∷ later) = guarded o rev s later
  answer o rev (s, true ∷ later) = (err conflict, (disturb s, later))

  abbrev pub shared_node : NodeApi (n.State × List Bool)
  shared_node = record { list_users = λ w. (ok (n.users w.0, revision w.0), w); apply_op = answer }
