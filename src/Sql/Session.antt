-- ===== src/Sql/Session.antt =====
-- engines/sql.c: joining, leaving and joining again after a fork. What the threads do while they are
-- waited for is as for the etcd engine; the balancing thread's last pass is given by `Late`.
pub mod Whole
pub mod Joining
pub mod Leaving
use libcluster.Prelude.{ℕ, Bool, true, false, not, ◌&&◌, ◌||◌, Option, none, some, if◌then◌else◌}
use libcluster.Prelude.Int.{ℤ, pos, negsuc, eq_ℤ}
use libcluster.Process.{
  Cluster, M, pure, ◌>>=◌, ◌>>◌, get_cluster, put_cluster, cluster_rdlock, cluster_wrlock,
  cluster_unlock, read_str, raise, never_returns,
}
use libcluster.Etcd.Balance.{on_server, deref}
use libcluster.Etcd.Session.{Late, no_pass, is_before, is_after, modify, close_with}
use libcluster.Sql.Client.{SqlClient}
use libcluster.Sql.Balance.{cluster_sql_ping, cluster_sql_unping, cluster_sql_balance}

module _ {S : Type 0} (client : SqlClient S) where
  open client use {sql_connect, sql_disconnect, sql_migrate, pthread_create}

  unfoldable pub cluster_sql_connect : M S (Option ℕ)
  cluster_sql_connect = do
    c ← get_cluster
    registry ← read_str c.registry
    on_server (sql_connect registry)

  -- The end of `cluster_sql_ping_thread_`: the flag has been seen.
  unfoldable pub sql_ping_thread_exit : M S (Unit {0})
  unfolding cluster_rdlock cluster_unlock
  sql_ping_thread_exit = do cluster_rdlock; _ ← cluster_sql_unping client; cluster_unlock

  -- One re-balancing of `cluster_sql_balancer_thread_`; its query for changes is in Sql/Threads.
  unfoldable pub sql_balancer_pass : M S (Unit {0})
  unfolding cluster_wrlock cluster_unlock
  sql_balancer_pass = do cluster_wrlock; _ ← cluster_sql_balance client; cluster_unlock

  abbrev pub sql_late_pass : Bool → M S (Unit {0})
  sql_late_pass false = pure tt
  sql_late_pass true = sql_balancer_pass

  -- The two calls of `pthread_join`, for the threads that there are. A thread ends only once
  -- CF_LEAVING is set, and until then the call does not return.
  unfoldable pub join_sql_threads : Late → Bool → Bool → M S (Unit {0})
  join_sql_threads late pt bt = do
    c ← get_cluster
    (if (pt || bt) && not c.flags.leaving then raise never_returns else pure tt)
    (if bt then sql_late_pass (is_before late) else pure tt)
    (if pt then sql_ping_thread_exit else pure tt)
    (if bt then sql_late_pass (is_after late) else pure tt)

  -- Everything from the second locking on.
  unfoldable pub disconnect_all : M S ℤ
  unfolding cluster_unlock
  disconnect_all = do
    c ← get_cluster
    put_cluster (record c {
      flags = record (c.flags) { joined = false; leaving = false };
      ping_thread = false;
      balancer_thread = false;
      pingdb = none;
      balancedb = none;
      jobdb = none;
    })
    close_with sql_disconnect c.pingdb
    close_with sql_disconnect c.balancedb
    close_with sql_disconnect c.jobdb
    cluster_unlock
    pure (pos 0)

  unfoldable pub cluster_sql_leave : Late → M S ℤ
  unfolding cluster_wrlock cluster_unlock
  cluster_sql_leave late = do
    cluster_wrlock
    c ← get_cluster
    (if c.flags.joined
        then (do
          put_cluster (record c { flags = record (c.flags) { leaving = true } })
          cluster_unlock
          join_sql_threads late c.ping_thread c.balancer_thread
          cluster_wrlock)
        else pure tt)
    disconnect_all

  -- A failed join: it has not set CF_JOINED, so no thread is waited for.
  unfoldable pub abandon : M S ℤ
  unfolding cluster_unlock
  abandon = do cluster_unlock; _ ← cluster_sql_leave no_pass; pure (negsuc 0)

  -- The calls of `pthread_create`, whose results are dropped: a thread that is not created leaves the
  -- field as it was. A passive instance has no ping thread.
  abbrev pub start_sql_threads : M S (Unit {0})
  start_sql_threads = do
    c ← get_cluster
    ping_made ← (if c.flags.passive then pure false else on_server pthread_create)
    balancer_made ← on_server pthread_create
    modify (λ p. record p {
      ping_thread = if ping_made then true else p.ping_thread;
      balancer_thread = if balancer_made then true else p.balancer_thread;
    })

  -- From the first ping on.
  unfoldable pub sql_join_start : M S ℤ
  unfolding cluster_unlock
  sql_join_start = do
    pinged ← cluster_sql_ping client
    if eq_ℤ pinged (pos 0)
        then (do
          balanced ← cluster_sql_balance client
          if eq_ℤ balanced (pos 0)
              then (do
                start_sql_threads
                modify (λ c. record c { flags = record (c.flags) { joined = true } })
                cluster_unlock
                pure (pos 0))
              else abandon)
        else abandon

  unfoldable pub connect_jobs : M S ℤ
  connect_jobs = do
    db ← cluster_sql_connect
    modify (λ c. record c { jobdb = db })
    elim db [ none ↦ abandon | some d ↦ sql_join_start ]

  unfoldable pub connect_balancer : M S ℤ
  connect_balancer = do
    db ← cluster_sql_connect
    modify (λ c. record c { balancedb = db })
    elim db [ none ↦ abandon | some d ↦ connect_jobs ]

  unfoldable pub cluster_sql_join : M S ℤ
  unfolding cluster_wrlock
  cluster_sql_join = do
    cluster_wrlock
    modify (λ c. record c { inst_index = negsuc 0 })
    db ← cluster_sql_connect
    modify (λ c. record c { pingdb = db })
    elim db [
      | none ↦ abandon
      | some d ↦ (do
        migrated ← on_server (sql_migrate d)
        if eq_ℤ migrated (pos 0) then connect_balancer else abandon)
    ]

  -- Used after a fork, with the write lock held.
  unfoldable pub cluster_sql_rejoin : M S ℤ
  cluster_sql_rejoin = do
    pinged ← cluster_sql_ping client
    if eq_ℤ pinged (pos 0)
        then (do
          balanced ← cluster_sql_balance client
          if eq_ℤ balanced (pos 0) then (do start_sql_threads; pure (pos 0)) else pure (negsuc 0))
        else pure (negsuc 0)
