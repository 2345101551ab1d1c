-- ===== src/Etcd/Fork/Handlers.antt =====
-- What the fork handlers of the etcd engine do to a connection.
use libcluster.Prelude.{Bool, true, false, ◌≡◌, refl, arith}
use libcluster.Prelude.Bytes.{Bytes}
use libcluster.Process.{
  free, writing, relock, fork_both, World, ok, fault, cluster_rdlock, cluster_wrlock,
  cluster_unlock,
}
use libcluster.Jansson.{Jansson}
use libcluster.Cluster.Queries.{cluster_rebalanced}
use libcluster.Etcd.Client.{EtcdClient}
use libcluster.Etcd.Session.{Late, join_threads}
use libcluster.Etcd.Session.Whole.{IsCalm, IsMember}
use libcluster.Etcd.Session.Leaving.{always-IsKept, join_threads-Runs}
use libcluster.Etcd.Fork.{cluster_etcd_prepare, cluster_etcd_child, cluster_etcd_parent}

module _ {S : Type 0} (J : Jansson) (client : EtcdClient J S) where
  abbrev leaving : World S → World S
  leaving w = record w {
    cluster = record (w.cluster) { flags = record (w.cluster.flags) { leaving = true } };
  }

  -- Once the threads have ended, the handler asks for the read lock with the write lock in its hands.
  prepare_after_threads :
      (late : Late) (alloc : Bool) (w v : World S)
      → w.lock ≡ free
      → join_threads J client late alloc w.cluster.ping_thread w.cluster.balancer_thread
          (record (leaving w) { lock = free })
        ≡ ok (tt, v)
      → v.lock ≡ free
      → cluster_etcd_prepare J client late alloc w ≡ fault relock
  unfolding cluster_etcd_prepare cluster_wrlock cluster_unlock cluster_rebalanced cluster_rdlock
  prepare_after_threads late alloc w v unlocked run back = ground arith

  -- For a registry whose directory reads answer with a status or with a directory over which a
  -- pass ends, and the keys' allocation succeeding, cluster_etcd_prepare_ on a member always
  -- ends in taking the read lock while it holds the write lock, whenever the balancing thread
  -- runs its last pass.
  pub etcd_prepare_member :
      IsCalm J client
      → (late : Late) (w : World S) → IsMember w
      → cluster_etcd_prepare J client late true w ≡ fault relock
  etcd_prepare_member calm late w member =
      let (h, dir) = member.has_envdir in
      let (i, name) = member.has_name in
      let (v, run, held) =
        join_threads-Runs J client h (λ c s. Unit {0}) (always-IsKept J client h) calm i late
          w.cluster.ping_thread w.cluster.balancer_thread (record (leaving w) { lock = free }) refl
          (record { unlocked = refl; dir = dir; name = name; kept = tt }) in
      prepare_after_threads late true w v member.unlocked run held.unlocked

  -- Nor does a connection that was never joined.
  pub etcd_prepare_idle :
      (late : Late) (alloc : Bool) (w : World S)
      → w.lock ≡ free
      → w.cluster.ping_thread ≡ false
      → w.cluster.balancer_thread ≡ false
      → cluster_etcd_prepare J client late alloc w ≡ fault relock
  unfolding join_threads
  etcd_prepare_idle late alloc w unlocked p b =
      prepare_after_threads late alloc w (record (leaving w) { lock = free }) unlocked
        (ground arith) refl

  -- With CLUSTER_FORK_BOTH and the write lock held, the handlers in the child and in the parent
  -- release the lock and change nothing else: neither process resumes the membership, and the
  -- child's identifier is not renewed.
  pub fork_both_resumes_nothing :
      (malloc_ok alloc : Bool) (uuid : Bytes) (w : World S)
      → w.cluster.forkmode ≡ fork_both
      → w.lock ≡ writing
      → (cluster_etcd_child J client malloc_ok uuid alloc w ≡ ok (tt, record w { lock = free }))
        × (cluster_etcd_parent J client alloc w ≡ ok (tt, record w { lock = free }))
  unfolding cluster_etcd_child cluster_etcd_parent cluster_wrlock cluster_unlock
  fork_both_resumes_nothing malloc_ok alloc uuid w mode locked = (ground arith, ground arith)
