-- ===== src/Server/Runs.antt =====
-- `runSync` of internal/server/server.go, and the status that it keeps.
use telemux.Base.{ℕ, ◌+◌, String, Bool, Option, List, [], ◌∷◌}
use telemux.Diff.{SyncOp, OpKind, create, patch, delete, other}
use telemux.Diff.Safety.{Float64}
use telemux.Sync.{DesiredSource, NodeApi, Mode, Options, SyncResult, SyncError, sync_node}

pub record SyncStatus : Type 0 where
  pub at : ℕ
  pub mode : Mode
  pub creates : ℕ
  pub patches : ℕ
  pub deletes : ℕ
  pub applied : ℕ
  pub failed : ℕ
  pub aborted : Bool
  pub error : Option SyncError

unfoldable pub count : OpKind → SyncStatus → SyncStatus
count create st = record st { creates = st.creates + 1 }
count patch st = record st { patches = st.patches + 1 }
count delete st = record st { deletes = st.deletes + 1 }
count (other _) st = st

unfoldable pub tally : List SyncOp → SyncStatus → SyncStatus
unfolding count
tally [] st = st
tally (o ∷ os) st = tally os (count o.kind st)

unfoldable pub status_of : ℕ → Mode → SyncResult → Option SyncError → SyncStatus
status_of now mode res error = tally res.ops (record {
  at = now;
  mode = mode;
  creates = 0;
  patches = 0;
  deletes = 0;
  applied = res.applied;
  failed = res.failed;
  aborted = res.aborted;
  error = error;
})

module _ (parse_time : String → Option ℕ) (f : Float64) {W : Type 0} (node : NodeApi W)
    (source : DesiredSource W) (opts : Options f) where
  -- `now` is the clock after the run.
  unfoldable pub run_sync : ℕ → W → SyncStatus × W
  run_sync now w =
      let (res, error, w') = sync_node parse_time f node source opts w in
      (status_of now opts.mode res error, w')
