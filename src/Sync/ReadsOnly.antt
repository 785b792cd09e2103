-- ===== src/Sync/ReadsOnly.antt =====
-- Runs that change nothing on the node.
use telemux.Base.{ℕ, suc, String, true, not, ◌&&◌, ◌||◌, Option, none, List, ok, ◌≡◌, arith}
use telemux.Diff.{DesiredUser, RemoteUser, compute_diff}
use telemux.Diff.Safety.{Float64, is_mass_delete}
use telemux.Sync.{
  DesiredSource, NodeApi, is_shadow, Options, fresh_result, attempts, max_retry, sync_node,
}

module _ (parse_time : String → Option ℕ) (f : Float64) {W : Type 0} (source : DesiredSource W)
    (node : NodeApi W) where
  -- In shadow mode, and where the guard against mass deletion fires without force, the run ends in
  -- the world that the two reads leave: no operation is sent. It reports the diff of what they
  -- returned, nothing applied, no error, and whether the guard stopped it. The reads succeed, and
  -- at least one attempt is allowed.
  pub sync_node_reads_only :
      (opts : Options f) (w w1 w2 : W) (des : List DesiredUser) (remote : List RemoteUser)
      (rev : String) (more : ℕ)
      → source.list_desired w ≡ (ok des, w1)
      → node.list_users w1 ≡ (ok (remote, rev), w2)
      → attempts (max_retry opts.max_conflict_retries) ≡ suc more
      → (is_shadow opts.mode
          || (is_mass_delete f
                (compute_diff parse_time des remote opts.mass_delete.options)
                remote
                opts.mass_delete
              && not opts.force))
        ≡ true
      → sync_node parse_time f node source opts w ≡ (
        record (fresh_result (compute_diff parse_time des remote opts.mass_delete.options)) {
          aborted =
              is_mass_delete f
                (compute_diff parse_time des remote opts.mass_delete.options)
                remote
                opts.mass_delete
              && not opts.force;
        },
        none,
        w2,
      )
  unfolding sync_node
  sync_node_reads_only opts w w1 w2 des remote rev more read listed some_attempt quiet =
      ground arith
