-- ===== src/Etcd/Session.antt =====
-- engines/etcd.c: joining and leaving.
-- `calloc_ok` is the allocation in a re-balancing pass. Of a thread that is waited for, `Late` says
-- when the balancing thread still runs a pass of its own: a change that arrived before the flag.
pub mod Whole
pub mod Steps
pub mod Joining
pub mod Leaving
use libcluster.Prelude.{ℕ, Bool, true, false, not, ◌&&◌, ◌||◌, Option, none, some, if◌then◌else◌}
use libcluster.Prelude.Int.{ℤ, pos, negsuc, eq_ℤ}
use libcluster.Prelude.Bytes.{Bytes}
use libcluster.Process.{
  Cluster, World, M, ok, pure, ◌>>=◌, ◌>>◌, get_cluster, put_cluster, cluster_rdlock,
  cluster_wrlock, cluster_unlock, read_str, is_null, raise, never_returns,
}
use libcluster.Jansson.{Jansson}
use libcluster.Etcd.Client.{EtcdClient}
use libcluster.Etcd.Balance.{
  on_server, deref, cluster_etcd_ping, cluster_etcd_unping, cluster_etcd_balance,
}

-- The last pass of the balancing thread: none, or one before or after the entry is removed.
pub data Late : Type 0 where
  no_pass pass_before pass_after : Late

abbrev pub is_before : Late → Bool
is_before pass_before = true
is_before _ = false

abbrev pub is_after : Late → Bool
is_after pass_after = true
is_after _ = false

module _ {S : Type 0} where
  abbrev pub modify : (Cluster → Cluster) → M S (Unit {0})
  modify f w = ok (tt, record w { cluster = f w.cluster })

  abbrev pub tell_server : (S → S) → M S (Unit {0})
  tell_server f w = ok (tt, record w { server = f w.server })

  -- Close a handle that is not NULL.
  abbrev pub close_with : (ℕ → S → S) → Option ℕ → M S (Unit {0})
  close_with close none = pure tt
  close_with close (some h) = tell_server (close h)

module _ {S : Type 0} (J : Jansson) (client : EtcdClient J S) where
  open client use {
    etcd_connect, etcd_disconnect, etcd_set_verbose, etcd_dir_create, etcd_dir_open, etcd_dir_close,
    pthread_create,
  }

  -- The end of `cluster_etcd_ping_thread_`: the flag has been seen.
  unfoldable pub ping_thread_exit : M S (Unit {0})
  unfolding cluster_rdlock cluster_unlock
  ping_thread_exit = do cluster_rdlock; _ ← cluster_etcd_unping J client; cluster_unlock

  -- One pass of `cluster_etcd_balancer_thread_` after a wait that succeeded.
  unfoldable pub balancer_pass : Bool → M S (Unit {0})
  unfolding cluster_wrlock cluster_unlock
  balancer_pass calloc_ok = do
    cluster_wrlock
    _ ← cluster_etcd_balance J client calloc_ok
    cluster_unlock

  abbrev pub late_pass : Bool → Bool → M S (Unit {0})
  late_pass false calloc_ok = pure tt
  late_pass true calloc_ok = balancer_pass calloc_ok

  -- The two calls of `pthread_join`, for the threads that there are. A thread ends only once
  -- CF_LEAVING is set, and until then the call does not return.
  unfoldable pub join_threads : Late → Bool → Bool → Bool → M S (Unit {0})
  join_threads late calloc_ok pt bt = do
    c ← get_cluster
    (if (pt || bt) && not c.flags.leaving then raise never_returns else pure tt)
    (if bt then late_pass (is_before late) calloc_ok else pure tt)
    (if pt then ping_thread_exit else pure tt)
    (if bt then late_pass (is_after late) calloc_ok else pure tt)

  -- Everything from the second locking on.
  unfoldable pub close_all : M S ℤ
  unfolding cluster_unlock
  close_all = do
    c ← get_cluster
    put_cluster (record c {
      flags = record (c.flags) { joined = false; leaving = false };
      ping_thread = false;
      balancer_thread = false;
      etcd_envdir = none;
      etcd_partitiondir = none;
      etcd_clusterdir = none;
      etcd_root = none;
    })
    close_with etcd_dir_close c.etcd_envdir
    close_with etcd_dir_close c.etcd_partitiondir
    close_with etcd_dir_close c.etcd_clusterdir
    close_with etcd_disconnect c.etcd_root
    cluster_unlock
    pure (pos 0)

  unfoldable pub cluster_etcd_leave : Late → Bool → M S ℤ
  unfolding cluster_wrlock cluster_unlock
  cluster_etcd_leave late calloc_ok = do
    cluster_wrlock
    c ← get_cluster
    (if c.flags.joined
        then (do
          put_cluster (record c { flags = record (c.flags) { leaving = true } })
          cluster_unlock
          join_threads late calloc_ok c.ping_thread c.balancer_thread
          cluster_wrlock)
        else pure tt)
    close_all

  -- A failed join: it has not set CF_JOINED, so no thread is waited for.
  unfoldable pub give_up : Bool → M S ℤ
  unfolding cluster_unlock
  give_up calloc_ok = do cluster_unlock; _ ← cluster_etcd_leave no_pass calloc_ok; pure (negsuc 0)

  -- `etcd_dir_create`, and if that fails `etcd_dir_open`.
  abbrev pub open_dir : ℕ → Bytes → M S (Option ℕ)
  open_dir parent name = do
    made ← on_server (etcd_dir_create parent name)
    elim made [ none ↦ on_server (etcd_dir_open parent name) | some d ↦ pure (some d) ]

  -- The two calls of `pthread_create`, whose results are dropped: a thread that is not created leaves
  -- the field as it was.
  abbrev pub start_threads : M S (Unit {0})
  start_threads = do
    ping_made ← on_server pthread_create
    balancer_made ← on_server pthread_create
    modify (λ c. record c {
      ping_thread = if ping_made then true else c.ping_thread;
      balancer_thread = if balancer_made then true else c.balancer_thread;
    })

  unfoldable pub join_start : Bool → M S ℤ
  unfolding cluster_unlock
  join_start calloc_ok = do
    pinged ← cluster_etcd_ping J client false
    if eq_ℤ pinged (pos 0)
        then (do
          balanced ← cluster_etcd_balance J client calloc_ok
          if eq_ℤ balanced (pos 0)
              then (do
                start_threads
                modify (λ c. record c { flags = record (c.flags) { joined = true } })
                cluster_unlock
                pure (pos 0))
              else give_up calloc_ok)
        else give_up calloc_ok

  unfoldable pub join_env : Bool → ℕ → M S ℤ
  join_env calloc_ok parent = do
    c ← get_cluster
    env ← read_str c.env
    dir ← open_dir parent env
    modify (λ c. record c { etcd_envdir = dir })
    elim dir [ none ↦ give_up calloc_ok | some d ↦ join_start calloc_ok ]

  unfoldable pub join_partition : Bool → ℕ → M S ℤ
  join_partition calloc_ok clusterdir = do
    c ← get_cluster
    if is_null c.partition then join_env calloc_ok clusterdir else (do
      name ← read_str c.partition
      dir ← open_dir clusterdir name
      modify (λ c. record c { etcd_partitiondir = dir })
      elim dir [ none ↦ give_up calloc_ok | some d ↦ join_env calloc_ok d ])

  unfoldable pub join_cluster : Bool → ℕ → M S ℤ
  join_cluster calloc_ok root = do
    c ← get_cluster
    tell_server (etcd_set_verbose root c.flags.verbose)
    key ← read_str c.key
    dir ← open_dir root key
    modify (λ c. record c { etcd_clusterdir = dir })
    elim dir [ none ↦ give_up calloc_ok | some d ↦ join_partition calloc_ok d ]

  unfoldable pub cluster_etcd_join : Bool → M S ℤ
  unfolding cluster_wrlock
  cluster_etcd_join calloc_ok = do
    cluster_wrlock
    modify (λ c. record c { inst_index = negsuc 0 })
    c ← get_cluster
    registry ← read_str c.registry
    root ← on_server (etcd_connect registry)
    modify (λ c. record c { etcd_root = root })
    elim root [ none ↦ give_up calloc_ok | some r ↦ join_cluster calloc_ok r ]

  -- Used after a fork, with the write lock held.
  unfoldable pub cluster_etcd_rejoin : Bool → M S ℤ
  cluster_etcd_rejoin calloc_ok = do
    pinged ← cluster_etcd_ping J client false
    if eq_ℤ pinged (pos 0)
        then (do
          balanced ← cluster_etcd_balance J client calloc_ok
          if eq_ℤ balanced (pos 0) then (do start_threads; pure (pos 0)) else pure (negsuc 0))
        else pure (negsuc 0)
