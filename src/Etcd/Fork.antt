-- ===== src/Etcd/Fork.antt =====
-- engines/etcd.c: the handlers around `fork()`.
pub mod Handlers
use libcluster.Prelude.{ℕ, Bool, true, false, Option, none, some, ◌==◌, ◌&&◌, not, if◌then◌else◌}
use Prim.Native.Nat.{bit_and}
use libcluster.Prelude.Int.{ℤ, pos, negsuc, eq_ℤ}
use libcluster.Prelude.Bytes.{Bytes}
use libcluster.Process.{
  Cluster, World, free, fork_bits, fork_child, fork_parent, M, ok, pure, ◌>>=◌, ◌>>◌, get_cluster,
  put_cluster, cluster_wrlock, cluster_unlock,
}
use libcluster.Jansson.{Jansson}
use libcluster.Cluster.Settings.{cluster_reset_instance_locked}
use libcluster.Cluster.Queries.{cluster_rebalanced}
use libcluster.Etcd.Client.{EtcdClient}
use libcluster.Etcd.Session.{
  Late, no_pass, modify, join_threads, cluster_etcd_leave, cluster_etcd_rejoin,
}

-- `p->forkmode & mode`
abbrev pub has_mode : Cluster → ℕ → Bool
has_mode c mode = not (bit_and (fork_bits c.forkmode) mode == 0)

-- `pthread_rwlock_init` on the child's copy of the lock.
module _ {S : Type 0} where
  abbrev pub reset_lock : M S (Unit {0})
  reset_lock w = ok (tt, record w { lock = free })

module _ {S : Type 0} (J : Jansson) (client : EtcdClient J S) where
  -- The lock stays held for the handler that runs after the fork.
  unfoldable pub cluster_etcd_prepare : Late → Bool → M S (Unit {0})
  unfolding cluster_wrlock cluster_unlock cluster_rebalanced
  cluster_etcd_prepare late calloc_ok = do
    cluster_wrlock
    c ← get_cluster
    put_cluster (record c { flags = record (c.flags) { leaving = true } })
    cluster_unlock
    join_threads J client late calloc_ok c.ping_thread c.balancer_thread
    cluster_wrlock
    modify (λ p. record p {
      ping_thread = false;
      balancer_thread = false;
      inst_index = negsuc 0;
      total_threads = pos 0;
    })
    _ ← cluster_rebalanced
    modify (λ p. record p { flags = c.flags })

  -- `if(r) cluster_etcd_leave_(p)`, with the lock released.
  abbrev leave_if : Bool → ℤ → M S (Unit {0})
  leave_if calloc_ok r =
      if eq_ℤ r (pos 0)
      then pure tt
      else (do _ ← cluster_etcd_leave J client no_pass calloc_ok; pure tt)

  unfoldable pub cluster_etcd_child : Bool → Bytes → Bool → M S (Unit {0})
  unfolding cluster_wrlock cluster_unlock
  cluster_etcd_child malloc_ok uuid calloc_ok = do
    reset_lock
    cluster_wrlock
    p ← get_cluster
    r ←
        (if has_mode p 1
          then (do
            (if has_mode p 2
                then (do _ ← cluster_reset_instance_locked malloc_ok uuid; pure tt)
                else pure tt)
            if p.flags.joined then cluster_etcd_rejoin J client calloc_ok else pure (pos 0))
          else pure (pos 0))
    cluster_unlock
    leave_if calloc_ok r

  unfoldable pub cluster_etcd_parent : Bool → M S (Unit {0})
  unfolding cluster_unlock
  cluster_etcd_parent calloc_ok = do
    p ← get_cluster
    r ←
        (if has_mode p 2 && p.flags.joined
          then cluster_etcd_rejoin J client calloc_ok
          else pure (pos 0))
    cluster_unlock
    leave_if calloc_ok r
