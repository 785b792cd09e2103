-- ===== src/Server/LastRun.antt =====
-- Which status the panel is told.
use telemux.Base.{ℕ, String, Bool, Option, List, [], ◌∷◌, Result, ◌≡◌, refl, ap}
use telemux.Diff.Safety.{Float64}
use telemux.Sync.{DesiredSource, NodeApi, Options}
use telemux.Server.Runs.{SyncStatus, run_sync}
use telemux.Server.Routes.{
  Request, healthz, get_version, get_role, get_status, post_sync, status_is, Server, respond,
}

module _ (parse_time : String → Option ℕ) (f : Float64) {W : Type 0} (version : String)
    (is_in_recovery : W → Result String Bool × W) (node : NodeApi W) (source : DesiredSource W)
    (opts : Options f) where
  -- The status of the last run among these, in the world that the requests before it leave.
  abbrev last_run : SyncStatus → List Request → Server W → SyncStatus
  last_run st [] s = st
  last_run st (post_sync now ∷ rs) s =
      last_run (run_sync parse_time f node source opts now s.world).0 rs
        (respond parse_time f version is_in_recovery node source opts (post_sync now) s).1
  last_run st (r ∷ rs) s =
      last_run st rs (respond parse_time f version is_in_recovery node source opts r s).1

  abbrev after : List Request → Server W → Server W
  after [] s = s
  after (r ∷ rs) s = after rs (respond parse_time f version is_in_recovery node source opts r s).1

  last_sync-after :
      (rs : List Request) (s : Server W) → (after rs s).last_sync ≡ last_run s.last_sync rs s
  unfolding respond
  last_sync-after [] s = refl
  last_sync-after (healthz ∷ rs) s = last_sync-after rs s
  last_sync-after (get_version ∷ rs) s = last_sync-after rs s
  last_sync-after (get_role ∷ rs) s = last_sync-after rs _
  last_sync-after (get_status ∷ rs) s = last_sync-after rs s
  last_sync-after (post_sync now ∷ rs) s = last_sync-after rs _

  -- After any requests, the route of the status answers with the status that the last
  -- synchronisation among them returned, or the one from before where there was none.
  get_status-last_run :
      (rs : List Request) (s : Server W)
      → (respond parse_time f version is_in_recovery node source opts get_status (after rs s)).0
        ≡ status_is (last_run s.last_sync rs s)
  unfolding respond
  get_status-last_run rs s = ap status_is (last_sync-after rs s)
