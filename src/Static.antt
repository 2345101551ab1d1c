-- ===== src/Static.antt =====
-- engines/static.c: clusters whose layout is configured, not discovered.
pub mod Bounds
use libcluster.Prelude.{ℕ, Bool, true, false, if◌then◌else◌}
use libcluster.Prelude.Int.{ℤ, pos, negsuc, leb_ℤ, ltb_ℤ, eq_ℤ}
use libcluster.Process.{
  Errno, eperm, einval, Cluster, M, pure, ◌>>=◌, ◌>>◌, get_cluster, put_cluster, set_errno,
  cluster_wrlock, cluster_unlock, add_int,
}
use libcluster.Cluster.Settings.Exits.{unlock_return, refuse}
use libcluster.Cluster.Queries.{cluster_rebalanced}

-- The total that `cluster_static_join_` goes by: 1 where none has been set.
abbrev pub effective_total : Cluster → ℤ
effective_total c = if eq_ℤ c.total_threads (pos 0) then pos 1 else c.total_threads

module _ {S : Type 0} where
  unfoldable pub cluster_static_set_index : ℤ → M S ℤ
  unfolding cluster_wrlock cluster_unlock
  cluster_static_set_index instindex = do
    cluster_wrlock
    c ← get_cluster
    if c.flags.joined
        then (do set_errno eperm; unlock_return (negsuc 0))
        else if ltb_ℤ instindex (pos 0)
        then refuse einval
        else (do put_cluster (record c { inst_index = instindex }); unlock_return (pos 0))

  unfoldable pub cluster_static_set_total : ℤ → M S ℤ
  unfolding cluster_wrlock cluster_unlock
  cluster_static_set_total total = do
    cluster_wrlock
    c ← get_cluster
    if c.flags.joined
        then (do set_errno eperm; unlock_return (negsuc 0))
        else if ltb_ℤ total (pos 1)
        then refuse einval
        else (do put_cluster (record c { total_threads = total }); unlock_return (pos 0))

  unfoldable pub cluster_static_join : M S ℤ
  unfolding cluster_wrlock cluster_unlock cluster_rebalanced
  cluster_static_join = do
    cluster_wrlock
    c₀ ← get_cluster
    put_cluster (record c₀ { total_threads = effective_total c₀ })
    c ← get_cluster
    if leb_ℤ c.total_threads c.inst_index then refuse einval else (do
      highest ← add_int c.inst_index c.inst_threads
      if ltb_ℤ c.total_threads highest then refuse einval else (do
        put_cluster (record c { flags = record (c.flags) { joined = true } })
        cluster_unlock
        cluster_rebalanced))

  unfoldable pub cluster_static_leave : M S ℤ
  unfolding cluster_wrlock cluster_unlock
  cluster_static_leave = do
    cluster_wrlock
    c ← get_cluster
    put_cluster (record c { flags = record (c.flags) { joined = false; leaving = false } })
    unlock_return (pos 0)
