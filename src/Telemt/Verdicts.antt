-- ===== src/Telemt/Verdicts.antt =====
-- How a synchronisation run goes on after an answer of the node's API, from the status and the text
-- of the answer.
use telemux.Base.{
  ◌≡◌, ◌≤◌, ◌<◌, ◌⊎◌, ℕ, String, arith, List, ◌∷◌, ◌++◌, [], ok, err, if◌then◌else◌, nat_eq, ◌+◌,
}
use telemux.Base.Text.{contains, trim_space}
use telemux.Diff.{SyncOp}
use telemux.Sync.{
  SyncResult, Pass, refused, conflicted, Verdict, skip, stop, retry, fail, verdict, apply_ops,
}
use telemux.Telemt.{
  Client, Decoder, Request, Answer, answered, ApiError, node_error, op_request, apply_op,
  client_api,
}

-- The pass over the operations, by the table of statuses in internal/telemt/mutate.go.
module _ (c : Client) (json : Decoder) {W : Type 0} (send : Request → W → Answer × W) where
  abbrev continue : Verdict → ApiError → List SyncOp → String → SyncResult → W → Pass × W
  continue skip e ops rev res w =
      apply_ops (client_api c json send) ops rev (record res { skipped = res.skipped + 1 }) w
  continue stop e ops rev res w = (refused res (node_error e), w)
  continue retry e ops rev res w = (conflicted res, w)
  continue fail e ops rev res w =
      apply_ops (client_api c json send) ops rev
        (record res { failed = res.failed + 1; errors = res.errors ++ node_error e ∷ [] }) w

  abbrev pub by_status : ℕ → String → Verdict
  by_status status text =
      if nat_eq status 404
      then skip
      else if nat_eq status 409
      then (if contains text "user_exists"
          then skip
          else if contains text "revision"
          then retry
          else fail)
      else if nat_eq status 403
      then (if contains text "read_only" then stop else fail)
      else fail

  by_status-verdict : (e : ApiError) → verdict (node_error e) ≡ by_status e.status e.body
  unfolding verdict node_error
  by_status-verdict e = ground arith

  continue-verdict :
      (e : ApiError) (v : Verdict) (op : SyncOp) (ops : List SyncOp) (rev : String)
      (res : SyncResult) (w w' : W)
      → verdict (node_error e) ≡ v
      → apply_op c json send op rev w ≡ (err (node_error e), w')
      → apply_ops (client_api c json send) (op ∷ ops) rev res w ≡ continue v e ops rev res w'
  unfolding apply_ops
  continue-verdict e skip op ops rev res w w' hv h = ground arith
  continue-verdict e stop op ops rev res w w' hv h = ground arith
  continue-verdict e retry op ops rev res w w' hv h = ground arith
  continue-verdict e fail op ops rev res w w' hv h = ground arith

  -- When the node answers the request of an operation with a status outside 200 to 299, the pass
  -- goes on by the status and the trimmed text: 404, and 409 with "user_exists", count as done
  -- already; 409 with "revision" ends the pass as a conflict; 403 with "read_only" ends it as
  -- refused; anything else is kept as a failure and the pass goes on with the same revision.
  pub apply_ops-rejected :
      (op : SyncOp) (ops : List SyncOp) (rev : String) (res : SyncResult) (w w' : W) (r : Request)
      (status : ℕ) (text : String)
      → op_request c op op.kind rev ≡ ok r
      → send r w ≡ (answered status text, w')
      → (status < 200) ⊎ (300 ≤ status)
      → apply_ops (client_api c json send) (op ∷ ops) rev res w
        ≡ continue
            (by_status status (trim_space text))
            (record { status = status; body = trim_space text })
            ops
            rev
            res
            w'
  unfolding apply_op
  apply_ops-rejected op ops rev res w w' r status text asked sent bad =
      continue-verdict (record { status = status; body = trim_space text }) _ op ops rev res w w'
        (by_status-verdict _) (ground arith)
