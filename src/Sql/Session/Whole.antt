-- ===== src/Sql/Session/Whole.antt =====
-- Joining an SQL cluster is all or nothing.
use libcluster.Prelude.{
  ℕ, Bool, true, false, none, some, List, ap, ◌≡◌, ◌⊎◌, inl, inr, arith, Bool-cases,
}
use libcluster.Prelude.Int.{ℤ, pos, negsuc, eq_ℤ}
use libcluster.Prelude.Bytes.{Bytes}
use libcluster.Process.{
  null, live, free, writing, World, Outcome, ok, Returns, cluster_wrlock, cluster_unlock,
}
use libcluster.Etcd.Balance.Result.{adopted}
use libcluster.Sql.Client.{Query, nodes_in, nodes_out, SqlClient}
use libcluster.Sql.Balance.{
  sql_tally, balance_query, cluster_sql_ping, cluster_sql_perform_ping, cluster_sql_balance,
}
use libcluster.Sql.Balance.Result.{queried, sql_balance-eq}
use libcluster.Sql.Session.{
  disconnect_all, cluster_sql_leave, abandon, cluster_sql_connect, sql_join_start,
}

-- Nothing of the database is held: no connection, no thread, not joined, not locked.
pub record IsDetached {S : Type 0} (w : World S) : Type 0 where
  pub unlocked : w.lock ≡ free
  pub not_joined : w.cluster.flags.joined ≡ false
  pub no_ping : w.cluster.ping_thread ≡ false
  pub no_balancer : w.cluster.balancer_thread ≡ false
  pub no_pingdb : w.cluster.pingdb ≡ none
  pub no_balancedb : w.cluster.balancedb ≡ none
  pub no_jobdb : w.cluster.jobdb ≡ none

-- A member: its three connections, joined, not locked.
pub record IsAttached {S : Type 0} (w : World S) : Type 0 where
  pub unlocked : w.lock ≡ free
  pub joined : w.cluster.flags.joined ≡ true
  pub has_pingdb : (h : ℕ) × (w.cluster.pingdb ≡ some h)
  pub has_balancedb : (h : ℕ) × (w.cluster.balancedb ≡ some h)
  pub has_jobdb : (h : ℕ) × (w.cluster.jobdb ≡ some h)

-- Text in the strings that the engine reads.
pub record IsPrepared {S : Type 0} (w : World S) : Type 0 where
  pub has_registry : (u : Bytes) × (w.cluster.registry ≡ live u)
  pub has_name : (i : Bytes) × (w.cluster.instid ≡ live i)
  pub has_key : (k : Bytes) × (w.cluster.key ≡ live k)
  pub has_env : (e : Bytes) × (w.cluster.env ≡ live e)
  pub partition_intact :
      (w.cluster.partition ≡ null) ⊎ ((p : Bytes) × (w.cluster.partition ≡ live p))

module _ {S : Type 0} (client : SqlClient S) where
  -- What is asked of the database: no query fails, and the sums over its rows stay within int.
  pub record IsSummable : Type 0 where
    pub sums :
        (passive : Bool) (i : Bytes) (h : ℕ) (q : Query) (s : S)
        → (rows : List (Bytes × ℤ)) × (s' : S) × (base total : ℤ) × (client.sql_query h q s
            ≡ (some rows, s'))
          × (sql_tally passive i rows (negsuc 0) (pos 0) ≡ ok (base, total))

  -- Each of the threads is there, or the system has refused to create it; a passive instance asks for
  -- the balancing thread alone. `s` is where the first was asked for, and nothing has been asked
  -- for after the last.
  abbrev pub IsStarted : World S → Type 0
  IsStarted w =
      (s : S) × (((w.cluster.flags.passive ≡ true)
          × (w.server ≡ (client.pthread_create s).1)
          × ((w.cluster.balancer_thread ≡ true) ⊎ ((client.pthread_create s).0 ≡ false)))
        ⊎ ((w.cluster.flags.passive ≡ false)
            × (w.server ≡ (client.pthread_create (client.pthread_create s).1).1)
            × ((w.cluster.ping_thread ≡ true) ⊎ ((client.pthread_create s).0 ≡ false))
            × ((w.cluster.balancer_thread ≡ true)
                ⊎ ((client.pthread_create (client.pthread_create s).1).0 ≡ false))))

  -- All or nothing.
  abbrev pub AllOrNothing : Outcome (ℤ × World S) → Type 0
  AllOrNothing o =
      Returns o
        λ r. ((r.0 ≡ pos 0) × IsAttached r.1 × IsStarted r.1) ⊎ ((r.0 ≡ negsuc 0) × IsDetached r.1)

  pub abandon-AllOrNothing :
      (w : World S)
      → w.lock ≡ writing
      → w.cluster.flags.joined ≡ false
      → AllOrNothing (abandon client w)
  unfolding abandon cluster_sql_leave disconnect_all cluster_unlock cluster_wrlock
  abandon-AllOrNothing w locked apart = ground arith

  pub connect-eq :
      (w : World S) (u : Bytes)
      → w.cluster.registry ≡ live u
      → cluster_sql_connect client w
        ≡ ok (
          (client.sql_connect u w.server).0,
          record w { server = (client.sql_connect u w.server).1 },
        )
  unfolding cluster_sql_connect
  connect-eq w u there = ground arith

  pub ping-ends :
      (w : World S) (h : ℕ)
      → w.cluster.pingdb ≡ some h
      → (r : ℤ) × (s : S) × (cluster_sql_ping client w ≡ ok (r, record w { server = s }))
  unfolding cluster_sql_ping
  ping-ends w h there = elim (Bool-cases w.cluster.flags.passive) [
    | inl passive ↦ (pos 0, w.server, ground arith)
    | inr active ↦ (
      (client.sql_perform h (cluster_sql_perform_ping client h w.cluster) w.server).0,
      (client.sql_perform h (cluster_sql_perform_ping client h w.cluster) w.server).1,
      ground arith,
    )
  ]

  pub query-ends :
      (w : World S) (now : ℤ)
      → IsPrepared w
      → (q : Query) × (balance_query client w.cluster now w ≡ ok (q, w))
  unfolding balance_query
  query-ends w now p =
      let (k, key) = p.has_key in
      let (e, env) = p.has_env in
      elim p.partition_intact [
        | inl none_set ↦ (nodes_out k e now, ground arith)
        | inr (part, set) ↦ (nodes_in k e part now, ground arith)
      ]

  pub balance-ends :
      IsSummable
      → (w : World S) (h : ℕ) → w.lock ≡ writing
      → IsPrepared w
      → w.cluster.balancedb ≡ some h
      → (base total : ℤ) × (s : S) × (cluster_sql_balance client w
          ≡ ok (pos 0, adopted (record w { server = s }) base total))
  balance-ends sums w h locked p there =
      let (q, asked) = query-ends w (client.time w.server) p in
      let (i, name) = p.has_name in
      let (rows, s', base, total, answered, run) =
        sums.sums w.cluster.flags.passive i h q w.server in
      (
        base,
        total,
        (queried client w h q).1,
        sql_balance-eq client w h q rows i base total locked asked there name
            (ap (λ r. r.0) answered) run,
      )

  pub sql_join_start-AllOrNothing :
      IsSummable
      → (w : World S) (a b c : ℕ) → w.lock ≡ writing
      → w.cluster.flags.joined ≡ false
      → IsPrepared w
      → w.cluster.pingdb ≡ some a
      → w.cluster.balancedb ≡ some b
      → w.cluster.jobdb ≡ some c
      → AllOrNothing (sql_join_start client w)
  unfolding sql_join_start cluster_unlock
  sql_join_start-AllOrNothing sums w a b c locked apart p pingdb balancedb jobdb =
      let (r, s, ping) = ping-ends w a pingdb in
      let (base, total, t, run) =
        balance-ends sums (record w { server = s }) b locked (ground arith) balancedb in
      elim (Bool-cases (eq_ℤ r (pos 0))) [
        | inl done ↦ elim (Bool-cases w.cluster.flags.passive) [
          | inl passive ↦ ground (arith, ping, run)
          | inr active ↦ ground (arith, ping, run)
        ]
        | inr failed ↦
            let step : sql_join_start client w ≡ abandon client (record w { server = s }) =
              ground (arith, ping) in
            rw step (abandon-AllOrNothing (record w { server = s }) locked apart)
      ]
