-- ===== src/Sql/Fork/Handlers.antt =====
-- What the fork handlers of the SQL engine do to a connection.
use libcluster.Prelude.{true, false, ◌≡◌, refl, arith}
use libcluster.Prelude.Int.{ℤ, pos, eq_ℤ}
use libcluster.Process.{
  free, writing, relock, fork_parent, World, ok, fault, cluster_rdlock, cluster_wrlock,
  cluster_unlock,
}
use libcluster.Cluster.Queries.{cluster_rebalanced}
use libcluster.Etcd.Session.{Late}
use libcluster.Sql.Client.{SqlClient}
use libcluster.Sql.Balance.{cluster_sql_ping}
use libcluster.Sql.Session.{cluster_sql_rejoin}
use libcluster.Sql.Session.Whole.{IsPrepared, IsSummable, IsAttached}
use libcluster.Sql.Session.Leaving.{join_sql_threads-Ends}
use libcluster.Sql.Fork.{cluster_sql_prepare, cluster_sql_parent}

module _ {S : Type 0} (client : SqlClient S) where
  abbrev leaving : World S → World S
  leaving w = record w {
    cluster = record (w.cluster) { flags = record (w.cluster.flags) { leaving = true } };
  }

  -- For a database whose queries do not fail and over whose rows the sums stay within int,
  -- cluster_sql_prepare_ on a member with its strings in place always ends in taking the read
  -- lock while it holds the write lock, whenever the balancing thread runs its last pass.
  pub sql_prepare_member :
      IsSummable client
      → (late : Late) (w : World S) → IsAttached w
      → IsPrepared w
      → cluster_sql_prepare client late w ≡ fault relock
  unfolding cluster_sql_prepare cluster_wrlock cluster_unlock cluster_rebalanced cluster_rdlock
  sql_prepare_member sums late w member texts =
      let (a, pingdb) = member.has_pingdb in
      let (b, balancedb) = member.has_balancedb in
      let (v, run, held) =
        join_sql_threads-Ends client sums a b late w.cluster.ping_thread w.cluster.balancer_thread
          (record (leaving w) { lock = free }) refl
          (record {
            unlocked = refl;
            pingdb_open = pingdb;
            balancedb_open = balancedb;
            texts = ground (arith, texts);
          }) in
      ground (arith, run, held.unlocked, member.unlocked)

  -- With CLUSTER_FORK_PARENT, the write lock held and the connection joined: if the first ping
  -- after the fork does not answer 0, the handler in the parent only releases the lock, so that
  -- the connection stays joined with the threads that it had before the ping.
  pub sql_parent_forgets :
      (w : World S) (r : ℤ) (s : S)
      → w.cluster.forkmode ≡ fork_parent
      → w.lock ≡ writing
      → w.cluster.flags.joined ≡ true
      → cluster_sql_ping client w ≡ ok (r, record w { server = s })
      → eq_ℤ r (pos 0) ≡ false
      → cluster_sql_parent client w ≡ ok (tt, record w { lock = free; server = s })
  unfolding cluster_sql_parent cluster_sql_rejoin cluster_unlock
  sql_parent_forgets w r s mode locked joined pinged failed = ground (arith, pinged)
