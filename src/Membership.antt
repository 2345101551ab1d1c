-- ===== src/Membership.antt =====
-- cluster.c: joining and leaving, whatever the kind of the cluster, and the end of a connection.
pub mod Requests
pub mod Soundness
pub mod Frozen
pub mod Joined
use libcluster.Prelude.{ℕ, Bool, true, false, not, if◌then◌else◌}
use libcluster.Prelude.Int.{ℤ, pos, negsuc}
use libcluster.Process.{
  ClusterType, ct_static, ct_etcd, ct_sql, Cluster, M, pure, ◌>>=◌, ◌>>◌, get_cluster, put_cluster,
  cluster_rdlock, cluster_wrlock, cluster_unlock, release,
}
use libcluster.Static.{cluster_static_join, cluster_static_leave}

-- What `cluster_join` and `cluster_leave` need of an engine; `Etcd.Session` has one such pair.
pub record Engine (S : Type 0) : Type 0 where
  pub join : M S ℤ
  pub leave : M S ℤ

module _ {S : Type 0} (etcd sql : Engine S) where
  abbrev pub join_kind : ClusterType → M S ℤ
  join_kind ct_static = cluster_static_join
  join_kind ct_etcd = etcd.join
  join_kind ct_sql = sql.join

  abbrev pub leave_kind : ClusterType → M S ℤ
  leave_kind ct_static = cluster_static_leave
  leave_kind ct_etcd = etcd.leave
  leave_kind ct_sql = sql.leave

  unfoldable pub cluster_join : M S ℤ
  unfolding cluster_rdlock cluster_unlock
  cluster_join = do
    cluster_rdlock
    c ← get_cluster
    cluster_unlock
    if c.flags.joined then pure (pos 0) else join_kind c.kind

  -- The flag is set under the read lock, and stays set when the engine fails to join.
  unfoldable pub cluster_join_passive : M S ℤ
  unfolding cluster_rdlock cluster_unlock
  cluster_join_passive = do
    cluster_rdlock
    c ← get_cluster
    if c.flags.joined then (do cluster_unlock; pure (pos 0)) else (do
      put_cluster (record c { flags = record (c.flags) { passive = true } })
      cluster_unlock
      join_kind c.kind)

  unfoldable pub cluster_leave : M S ℤ
  unfolding cluster_rdlock cluster_unlock
  cluster_leave = do
    cluster_rdlock
    c ← get_cluster
    cluster_unlock
    if c.flags.joined then leave_kind c.kind else pure (pos 0)

  -- `cluster_destroy` between taking the cluster off the list and freeing its block; Clusters/Create has
  -- the whole of it.
  unfoldable pub cluster_destroy : M S ℤ
  unfolding cluster_leave cluster_wrlock cluster_unlock
  cluster_destroy = do
    _ ← cluster_leave
    cluster_wrlock
    c ← get_cluster
    instid ← release c.instid
    key ← release c.key
    env ← release c.env
    registry ← release c.registry
    partition ← release c.partition
    put_cluster (record c {
      instid = instid;
      key = key;
      env = env;
      registry = registry;
      partition = partition;
    })
    cluster_unlock
    pure (pos 0)
