-- ===== src/Server/Routes.antt =====
-- The routes of internal/server/server.go: health, version, role, the status of the last
-- synchronisation, and a synchronisation on request. `Store` and `Node` act on a world.
use telemux.Base.{ℕ, String, Bool, Option, Result, ok, err}
use telemux.Role.{Role, role_text, is_master, detect}
use telemux.Diff.Safety.{Float64}
use telemux.Sync.{DesiredSource, NodeApi, Options}
use telemux.Server.Runs.{SyncStatus, run_sync}

pub data Request : Type 0 where
  healthz get_version get_role get_status : Request
  -- The clock when the run has ended.
  post_sync : ℕ → Request

pub data Response : Type 0 where
  alive : Response
  version_is : String → Response
  role_is : String → Bool → Response
  status_is : SyncStatus → Response
  refused : ℕ → String → Response

unfoldable pub role_answered : Result String Role → Response
role_answered (err e) = refused 503 e
role_answered (ok r) = role_is (role_text r) (is_master r)

-- The parts of the server that these routes read and write.
pub record Server (W : Type 0) : Type 0 where
  pub last_sync : SyncStatus
  pub world : W

module _ (parse_time : String → Option ℕ) (f : Float64) {W : Type 0} (version : String)
    (is_in_recovery : W → Result String Bool × W) (node : NodeApi W) (source : DesiredSource W)
    (opts : Options f) where
  -- `runSync` keeps the status that it returns.
  keep_run : ℕ → Server W → SyncStatus × Server W
  keep_run now s =
      let (st, w) = run_sync parse_time f node source opts now s.world in
      (st, record { last_sync = st; world = w })

  unfoldable pub respond : Request → Server W → Response × Server W
  unfolding role_answered keep_run
  respond healthz s = (alive, s)
  respond get_version s = (version_is version, s)
  respond get_role s =
      let (answer, w) = is_in_recovery s.world in
      (role_answered (detect answer), record s { world = w })
  respond get_status s = (status_is s.last_sync, s)
  respond (post_sync now) s = let (st, s') = keep_run now s in (status_is st, s')
