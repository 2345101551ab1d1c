-- ===== src/Sql/Session/Leaving.antt =====
-- Leaving an SQL cluster: both threads run to their end, and everything is disconnected.
use libcluster.Prelude.{
  ℕ, Bool, true, false, some, ◌≡◌, refl, inl, inr, arith, if◌then◌else◌, Bool-cases,
}
use libcluster.Prelude.Int.{pos}
use libcluster.Process.{
  free, writing, World, ok, M, Returns, cluster_rdlock, cluster_wrlock, cluster_unlock,
}
use libcluster.Etcd.Balance.Result.{adopted}
use libcluster.Etcd.Session.{Late, is_before, is_after}
use libcluster.Sql.Client.{delete_node, SqlClient}
use libcluster.Sql.Balance.{cluster_sql_unping}
use libcluster.Sql.Session.{
  sql_ping_thread_exit, sql_balancer_pass, sql_late_pass, join_sql_threads, disconnect_all,
  cluster_sql_leave,
}
use libcluster.Sql.Session.Whole.{IsPrepared, IsSummable, IsAttached, IsDetached, balance-ends}

module _ {S : Type 0} (client : SqlClient S) where
  -- What the threads need while they run, and leave as it was.
  pub record IsRunning (a b : ℕ) (w : World S) : Type 0 where
    pub unlocked : w.lock ≡ free
    pub pingdb_open : w.cluster.pingdb ≡ some a
    pub balancedb_open : w.cluster.balancedb ≡ some b
    pub texts : IsPrepared w

  abbrev pub Ends : ℕ → ℕ → M S (Unit {0}) → World S → Type 0
  Ends a b m w = (w' : World S) × (m w ≡ ok (tt, w')) × IsRunning a b w'

  pub sql_ping_thread_exit-Ends :
      (a b : ℕ) (w : World S) → IsRunning a b w → Ends a b (sql_ping_thread_exit client) w
  unfolding sql_ping_thread_exit cluster_rdlock cluster_unlock cluster_sql_unping
  sql_ping_thread_exit-Ends a b w r = elim (Bool-cases w.cluster.flags.passive) [
    | inl passive ↦ (w, ground arith, r)
    | inr active ↦ (
      record w {
        server =
            (client.sql_execute a (delete_node w.cluster.instid w.cluster.key w.cluster.env)
              w.server).1;
      },
      ground arith,
      record {
        unlocked = r.unlocked;
        pingdb_open = r.pingdb_open;
        balancedb_open = r.balancedb_open;
        texts = ground (arith, r.texts);
      },
    )
  ]

  sql_balancer_pass-Ends :
      IsSummable client
      → (a b : ℕ) (w : World S) → IsRunning a b w
      → Ends a b (sql_balancer_pass client) w
  unfolding sql_balancer_pass cluster_wrlock cluster_unlock
  sql_balancer_pass-Ends sums a b w r =
      let (base, total, s, run) =
        balance-ends client sums (record w { lock = writing }) b refl (ground (arith, r.texts))
          r.balancedb_open in
      (
        record (adopted (record w { server = s }) base total) { lock = free },
        ground (arith, run),
        ground (arith, r.texts),
      )

  optional-Ends :
      (a b : ℕ) (c : Bool) (m : M S (Unit {0}))
      → ((w : World S) → IsRunning a b w → Ends a b m w)
      → (w : World S) → IsRunning a b w
      → Ends a b (if c then m else (λ w. ok (tt, w))) w
  optional-Ends a b true m run w r = run w r
  optional-Ends a b false m run w r = (w, refl, r)

  sql_late_pass-Ends :
      IsSummable client
      → (a b : ℕ) (c : Bool) (w : World S) → IsRunning a b w
      → Ends a b (sql_late_pass client c) w
  sql_late_pass-Ends sums a b true w r = sql_balancer_pass-Ends sums a b w r
  sql_late_pass-Ends sums a b false w r = (w, refl, r)

  pub join_sql_threads-Ends :
      IsSummable client
      → (a b : ℕ) (late : Late) (pt bt : Bool) (w : World S) → w.cluster.flags.leaving ≡ true
      → IsRunning a b w
      → Ends a b (join_sql_threads client late pt bt) w
  unfolding join_sql_threads
  join_sql_threads-Ends sums a b late pt bt w told r =
      let (x, run_x, held_x) =
        optional-Ends a b bt (sql_late_pass client (is_before late))
          (sql_late_pass-Ends sums a b (is_before late)) w r in
      let (y, run_y, held_y) =
        optional-Ends a b pt (sql_ping_thread_exit client) (sql_ping_thread_exit-Ends a b) x
          held_x in
      let (z, run_z, held_z) =
        optional-Ends a b bt (sql_late_pass client (is_after late))
          (sql_late_pass-Ends sums a b (is_after late)) y held_y in
      (z, ground (arith, run_x, run_y, run_z), held_z)

  pub disconnect_all-IsDetached :
      (w : World S)
      → w.lock ≡ writing
      → Returns (disconnect_all client w) (λ r. (r.0 ≡ pos 0) × IsDetached r.1)
  unfolding disconnect_all cluster_unlock
  disconnect_all-IsDetached w locked = ground arith

  abbrev leaving : World S → World S
  leaving w = record w {
    cluster = record (w.cluster) { flags = record (w.cluster.flags) { leaving = true } };
  }

  -- cluster_sql_leave_ on a member with its strings in place, for a database whose queries do
  -- not fail and over whose rows the sums stay within int: whether the balancing thread runs no
  -- last pass, one before or one after the row is deleted, the call returns 0 and nothing is
  -- held: unlocked, not joined, no thread, no database connection.
  pub sql_leave-IsDetached :
      IsSummable client
      → (late : Late) (w : World S) → IsAttached w
      → IsPrepared w
      → Returns (cluster_sql_leave client late w) (λ r. (r.0 ≡ pos 0) × IsDetached r.1)
  unfolding cluster_sql_leave cluster_wrlock cluster_unlock
  sql_leave-IsDetached sums late w member texts =
      let (a, pingdb) = member.has_pingdb in
      let (b, balancedb) = member.has_balancedb in
      let (v, run, held) =
        join_sql_threads-Ends sums a b late w.cluster.ping_thread w.cluster.balancer_thread
          (record (leaving w) { lock = free }) refl
          (record {
            unlocked = refl;
            pingdb_open = pingdb;
            balancedb_open = balancedb;
            texts = ground (arith, texts);
          }) in
      let step : cluster_sql_leave client late w
          ≡ disconnect_all client (record v { lock = writing }) =
        ground (arith, run, held.unlocked, member.unlocked, member.joined) in
      rw step (disconnect_all-IsDetached (record v { lock = writing }) refl)
