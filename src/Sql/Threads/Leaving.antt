-- ===== src/Sql/Threads/Leaving.antt =====
-- The threads of an SQL member end when it leaves, in whatever order they run.
use libcluster.Prelude.{
  ℕ, ◌≤◌, Bool, true, false, ◌&&◌, Option, none, some, [], ◌≡◌, refl, inl, inr, arith, ◌⊎◌,
  Bool-cases, if◌then◌else◌,
}
use libcluster.Prelude.Int.{ℤ, pos, negsuc, eq_ℤ, ltb_ℤ, ◌+ℤ◌}
use libcluster.Prelude.Bytes.{Bytes}
use libcluster.Process.{
  null, live, Cluster, World, ok, free, writing, Returns, cluster_wrlock, ◌>>◌,
}
use libcluster.Etcd.Balance.Result.{adopted}
use libcluster.Sql.Client.{Query, delete_node, changes_in, changes_out, SqlClient}
use libcluster.Sql.Balance.{cluster_sql_unping}
use libcluster.Sql.Session.{disconnect_all}
use libcluster.Sql.Session.Whole.{
  IsPrepared, IsSummable, IsDetached, ping-ends, query-ends, balance-ends,
}
use libcluster.Sql.Session.Leaving.{disconnect_all-IsDetached}
use libcluster.Sql.Threads.{changes_query, look_for_changes, is_empty, sql_loops, Watch}
use libcluster.Threads.{System, Run}
use libcluster.Threads.Steps.{IsQuiet, IsSteady, Run-Keeps}
use libcluster.Threads.Ending.{IsFinished, Run-finishes}

-- A cluster with its connections, and with text in its strings.
pub record IsWorking (c : Cluster) : Type 0 where
  pub has_pingdb : (h : ℕ) × (c.pingdb ≡ some h)
  pub has_balancedb : (h : ℕ) × (c.balancedb ≡ some h)
  pub has_registry : (u : Bytes) × (c.registry ≡ live u)
  pub has_name : (i : Bytes) × (c.instid ≡ live i)
  pub has_key : (k : Bytes) × (c.key ≡ live k)
  pub has_env : (e : Bytes) × (c.env ≡ live e)
  pub partition_intact : (c.partition ≡ null) ⊎ ((p : Bytes) × (c.partition ≡ live p))

module _ {S : Type 0} (client : SqlClient S) (sums : IsSummable client) where
  texts : (w : World S) → IsWorking w.cluster → IsPrepared w
  texts w h = record {
    has_registry = h.has_registry;
    has_name = h.has_name;
    has_key = h.has_key;
    has_env = h.has_env;
    partition_intact = h.partition_intact;
  }

  changes_query-ends :
      (w : World S) (now : ℤ) (since : Option ℤ)
      → IsWorking w.cluster
      → (q : Query) × (changes_query client w.cluster now since w ≡ ok (q, w))
  unfolding changes_query
  changes_query-ends w now none h = query-ends client w now (texts w h)
  changes_query-ends w now (some since) h = elim h.partition_intact [
    | inl none_set ↦ (
      changes_out h.has_key.0 h.has_env.0 now since,
      ground (arith, h.has_key.1, h.has_env.1, none_set),
    )
    | inr (part, set) ↦ (
      changes_in h.has_key.0 h.has_env.0 part now since,
      ground (arith, h.has_key.1, h.has_env.1, set),
    )
  ]

  look-ends :
      (v : Watch) (w : World S)
      → IsWorking w.cluster
      → (go : Bool) × (v' : Watch) × (s : S) × (look_for_changes client v w
          ≡ ok ((go, v'), record w { server = s }))
  unfolding look_for_changes
  look-ends v w h =
      let (q, asked) = changes_query-ends w (client.time w.server) v.lastbuf h in
      let (db, open_db) = h.has_balancedb in
      let (rows, s, base, total, answered, run) = sums.sums false [] db q w.server in
      elim (Bool-cases (is_empty client rows && ltb_ℤ (client.time w.server) (v.last +ℤ pos 30))) [
        | inl sleeps ↦ (
          false,
          record v { lastbuf = some (client.time w.server) },
          s,
          ground (arith, asked, open_db, answered, sleeps),
        )
        | inr wakes ↦ (
          true,
          record { last = client.time w.server; lastbuf = some (client.time w.server) },
          s,
          ground (arith, asked, open_db, answered, wakes),
        )
      ]

  unping-ends :
      (w : World S)
      → IsWorking w.cluster
      → (r : ℤ) × (s : S) × (cluster_sql_unping client w ≡ ok (r, record w { server = s }))
  unfolding cluster_sql_unping
  unping-ends w h = elim (Bool-cases w.cluster.flags.passive) [
    | inl passive ↦ (pos 0, w.server, ground arith)
    | inr active ↦
        let r =
          client.sql_execute h.has_pingdb.0
            (delete_node w.cluster.instid w.cluster.key w.cluster.env) w.server in
        (if eq_ℤ r.0 (pos 0) then pos 0 else negsuc 0, r.1, ground (arith, h.has_pingdb.1))
  ]

  IsWorking-balance :
      (w : World S)
      → IsWorking w.cluster
      → w.lock ≡ writing
      → (r : ℤ) × (w' : World S) × ((sql_loops client).balance w ≡ ok (r, w'))
        × (w'.lock ≡ writing)
        × (w'.cluster.flags ≡ w.cluster.flags)
        × IsWorking w'.cluster
  IsWorking-balance w h locked =
      let (base, total, s, run) =
        balance-ends client sums w h.has_balancedb.0 locked (texts w h) h.has_balancedb.1 in
      (
        pos 0,
        adopted (record w { server = s }) base total,
        run,
        locked,
        refl,
        record {
          has_pingdb = h.has_pingdb;
          has_balancedb = h.has_balancedb;
          has_registry = h.has_registry;
          has_name = h.has_name;
          has_key = h.has_key;
          has_env = h.has_env;
          partition_intact = h.partition_intact;
        },
      )

  sql_loops-IsQuiet : IsQuiet (sql_loops client) IsWorking
  sql_loops-IsQuiet = record {
    ping_runs = λ w h. ping-ends client w h.has_pingdb.0 h.has_pingdb.1;
    unping_runs = unping-ends;
    start_runs = λ w h. (record { last = pos 0; lastbuf = none }, w.server, refl);
    wait_runs = look-ends;
    stop_runs = λ l w. (w.server, refl);
    balance_runs = IsWorking-balance;
  }

  -- Take any run of the two threads of an SQL member, in any order and with the database
  -- changing in between, from a state in which the connection is unlocked, has its strings in
  -- place (the partition may be NULL) and its connections for pings and for balancing, and is
  -- told to leave; no query fails, and the sums over its rows stay within int. The run has at
  -- most 8 steps, it can be continued to one in which both threads have ended, and disconnecting
  -- after it returns 0 with nothing held: unlocked, not joined, no thread, no database
  -- connection.
  pub sql_threads_end :
      {x y : System S Watch} {n : ℕ}
      → Run (sql_loops client) x n y
      → x.world.lock ≡ free
      → IsWorking x.world.cluster
      → x.world.cluster.flags.leaving ≡ true
      → (n ≤ 8)
        × ((m : ℕ) × (z : System S Watch) × Run (sql_loops client) y m z × IsFinished z)
        × Returns
            ((do cluster_wrlock; disconnect_all client) y.world)
            (λ r. (r.0 ≡ pos 0) × IsDetached r.1)
  unfolding cluster_wrlock
  sql_threads_end {x} {y} run unlocked working leaving =
      let steady : IsSteady (sql_loops client) IsWorking x.world = record {
        unlocked = unlocked;
        held = working;
      } in
      let (short, ending) =
        Run-finishes (sql_loops client) IsWorking sql_loops-IsQuiet run steady leaving in
      let kept = Run-Keeps (sql_loops client) IsWorking sql_loops-IsQuiet run steady in
      (
        short,
        ending,
        rw kept.steady.unlocked
            (disconnect_all-IsDetached client (record (y.world) { lock = writing }) refl),
      )
