-- ===== src/Cluster/Queries.antt =====
-- cluster.c: what a cluster connection answers, and the call to the application's callback.
use libcluster.Prelude.{false, ◌∷◌, if◌then◌else◌}
use libcluster.Prelude.Int.{ℤ, pos, negsuc}
use libcluster.Process.{
  CStr, eperm, ClusterState, Cluster, M, ok, pure, ◌>>=◌, ◌>>◌, get_cluster, set_errno,
  cluster_rdlock, cluster_unlock, add_int, success,
}

-- The state that the callback is handed; `passive` is left zero by `memset`.
abbrev pub callback_state : Cluster → ClusterState
callback_state c = record {
  index = c.inst_index;
  workers = c.inst_threads;
  total = c.total_threads;
  passive = false;
}

module _ {S : Type 0} where
  unfoldable pub cluster_index : ℤ → M S ℤ
  unfolding cluster_rdlock cluster_unlock
  cluster_index worker = do
    cluster_rdlock
    c ← get_cluster
    r ←
        (if c.flags.joined
          then add_int c.inst_index worker
          else (do set_errno eperm; pure (negsuc 0)))
    cluster_unlock
    pure r

  unfoldable pub cluster_total : M S ℤ
  unfolding cluster_rdlock cluster_unlock
  cluster_total = do
    cluster_rdlock
    c ← get_cluster
    r ← (if c.flags.joined then pure c.total_threads else (do set_errno eperm; pure (pos 0)))
    cluster_unlock
    pure r

  unfoldable pub cluster_workers : M S ℤ
  unfolding cluster_rdlock cluster_unlock
  cluster_workers = do
    cluster_rdlock
    c ← get_cluster
    r ← (if c.flags.joined then pure c.inst_threads else (do set_errno eperm; pure (pos 0)))
    cluster_unlock
    pure r

  unfoldable pub cluster_state : M S ClusterState
  unfolding cluster_rdlock cluster_unlock
  cluster_state = do
    cluster_rdlock
    c ← get_cluster
    cluster_unlock
    pure (record {
      index = c.inst_index;
      workers = c.inst_threads;
      total = c.total_threads;
      passive = c.flags.passive;
    })

  -- The getters hand out the pointer, and take no lock.
  unfoldable pub cluster_key : M S CStr
  cluster_key = do c ← get_cluster; pure c.key

  unfoldable pub cluster_env : M S CStr
  cluster_env = do c ← get_cluster; pure c.env

  unfoldable pub cluster_instance : M S CStr
  cluster_instance = do c ← get_cluster; pure c.instid

  unfoldable pub cluster_partition : M S CStr
  cluster_partition = do set_errno success; c ← get_cluster; pure c.partition

  abbrev note_call : ClusterState → M S (Unit {0})
  note_call s w = ok (tt, record w { calls = s ∷ w.calls })

  -- `cluster_rebalanced_`. The callback's own effects are not modelled: it is noted in `calls`.
  unfoldable pub cluster_rebalanced : M S ℤ
  unfolding cluster_rdlock cluster_unlock
  cluster_rebalanced = do
    cluster_rdlock
    c ← get_cluster
    if c.balancer
        then (do cluster_unlock; note_call (callback_state c); pure (pos 0))
        else (do cluster_unlock; pure (pos 0))
