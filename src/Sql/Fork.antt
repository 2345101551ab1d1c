-- ===== src/Sql/Fork.antt =====
-- engines/sql.c: the handlers around `fork()`.
pub mod Handlers
use libcluster.Prelude.{Bool, ◌&&◌, if◌then◌else◌, true, false}
use libcluster.Prelude.Int.{pos, negsuc, ℤ, eq_ℤ}
use libcluster.Prelude.Bytes.{Bytes}
use libcluster.Process.{
  M, pure, ◌>>=◌, ◌>>◌, get_cluster, put_cluster, cluster_wrlock, cluster_unlock,
}
use libcluster.Cluster.Settings.{cluster_reset_instance_locked}
use libcluster.Cluster.Queries.{cluster_rebalanced}
use libcluster.Etcd.Session.{Late, no_pass, modify}
use libcluster.Etcd.Fork.{has_mode, reset_lock}
use libcluster.Sql.Client.{SqlClient}
use libcluster.Sql.Session.{join_sql_threads, cluster_sql_leave, cluster_sql_rejoin}

module _ {S : Type 0} (client : SqlClient S) where
  -- The lock stays held for the handler that runs after the fork.
  unfoldable pub cluster_sql_prepare : Late → M S (Unit {0})
  unfolding cluster_wrlock cluster_unlock cluster_rebalanced
  cluster_sql_prepare late = do
    cluster_wrlock
    c ← get_cluster
    put_cluster (record c { flags = record (c.flags) { leaving = true } })
    cluster_unlock
    join_sql_threads client late c.ping_thread c.balancer_thread
    cluster_wrlock
    modify (λ p. record p {
      ping_thread = false;
      balancer_thread = false;
      inst_index = negsuc 0;
      total_threads = pos 0;
    })
    _ ← cluster_rebalanced
    modify (λ p. record p { flags = c.flags })

  -- The result of joining again is dropped, so the call that leaves is never made.
  unfoldable pub cluster_sql_parent : M S (Unit {0})
  unfolding cluster_unlock
  cluster_sql_parent = do
    p ← get_cluster
    (if has_mode p 2 && p.flags.joined
        then (do _ ← cluster_sql_rejoin client; pure tt)
        else pure tt)
    cluster_unlock

  abbrev sql_leave_if : ℤ → M S (Unit {0})
  sql_leave_if r =
      if eq_ℤ r (pos 0) then pure tt else (do _ ← cluster_sql_leave client no_pass; pure tt)

  unfoldable pub cluster_sql_child : Bool → Bytes → M S (Unit {0})
  unfolding cluster_wrlock cluster_unlock
  cluster_sql_child malloc_ok uuid = do
    reset_lock
    cluster_wrlock
    p ← get_cluster
    r ←
        (if has_mode p 1
          then (do
            (if has_mode p 2
                then (do _ ← cluster_reset_instance_locked malloc_ok uuid; pure tt)
                else pure tt)
            if p.flags.joined then cluster_sql_rejoin client else pure (pos 0))
          else pure (pos 0))
    cluster_unlock
    sql_leave_if r
