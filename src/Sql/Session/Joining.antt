-- ===== src/Sql/Session/Joining.antt =====
-- The steps of `cluster_sql_join_` that come before the first ping, each all or nothing.
use libcluster.Prelude.{
  ℕ, false, Option, none, some, ◌≡◌, refl, inl, inr, arith, Bool-cases, Option-cases,
}
use libcluster.Prelude.Int.{ℤ, pos, negsuc, eq_ℤ}
use libcluster.Prelude.Bytes.{Bytes}
use libcluster.Process.{free, writing, World, cluster_wrlock}
use libcluster.Sql.Client.{SqlClient}
use libcluster.Sql.Session.{
  abandon, sql_join_start, connect_jobs, connect_balancer, cluster_sql_join,
}
use libcluster.Sql.Session.Whole.{
  IsPrepared, IsSummable, AllOrNothing, abandon-AllOrNothing, connect-eq,
  sql_join_start-AllOrNothing,
}

module _ {S : Type 0} (client : SqlClient S) where
  abbrev connected : World S → Bytes → Option ℕ × S
  connected w u = client.sql_connect u w.server

  abbrev with_jobdb : World S → Option ℕ → S → World S
  with_jobdb w o s = record w { cluster = record (w.cluster) { jobdb = o }; server = s }

  connect_jobs-AllOrNothing :
      IsSummable client
      → (w : World S) (a b : ℕ) → w.lock ≡ writing
      → w.cluster.flags.joined ≡ false
      → IsPrepared w
      → w.cluster.pingdb ≡ some a
      → w.cluster.balancedb ≡ some b
      → AllOrNothing client (connect_jobs client w)
  unfolding connect_jobs
  connect_jobs-AllOrNothing sums w a b locked apart p pingdb balancedb =
      let (u, there) = p.has_registry in
      let (o, s) = connected w u in
      elim (Option-cases o) [
        | inl failed ↦
            let step : connect_jobs client w ≡ abandon client (with_jobdb w none s) =
              ground (arith, connect-eq client w u there, failed) in
            rw step (abandon-AllOrNothing client (with_jobdb w none s) locked apart)
        | inr (c, made) ↦
            let step : connect_jobs client w ≡ sql_join_start client (with_jobdb w (some c) s) =
              ground (arith, connect-eq client w u there, made) in
            rw step (
              sql_join_start-AllOrNothing client sums (with_jobdb w (some c) s) a b c locked apart
                (ground arith) pingdb balancedb refl)
      ]

  abbrev with_balancedb : World S → Option ℕ → S → World S
  with_balancedb w o s = record w { cluster = record (w.cluster) { balancedb = o }; server = s }

  connect_balancer-AllOrNothing :
      IsSummable client
      → (w : World S) (a : ℕ) → w.lock ≡ writing
      → w.cluster.flags.joined ≡ false
      → IsPrepared w
      → w.cluster.pingdb ≡ some a
      → AllOrNothing client (connect_balancer client w)
  unfolding connect_balancer
  connect_balancer-AllOrNothing sums w a locked apart p pingdb =
      let (u, there) = p.has_registry in
      let (o, s) = connected w u in
      elim (Option-cases o) [
        | inl failed ↦
            let step : connect_balancer client w ≡ abandon client (with_balancedb w none s) =
              ground (arith, connect-eq client w u there, failed) in
            rw step (abandon-AllOrNothing client (with_balancedb w none s) locked apart)
        | inr (b, made) ↦
            let step : connect_balancer client w
                ≡ connect_jobs client (with_balancedb w (some b) s) =
              ground (arith, connect-eq client w u there, made) in
            rw step (
              connect_jobs-AllOrNothing sums (with_balancedb w (some b) s) a b locked apart
                (ground arith) pingdb refl)
      ]

  abbrev with_pingdb : World S → Option ℕ → S → World S
  with_pingdb w o s = record w {
    cluster = record (w.cluster) { pingdb = o; inst_index = negsuc 0 };
    lock = writing;
    server = s;
  }

  -- What `sql_migrate` answers, and the database afterwards.
  abbrev migrated : ℕ → S → ℤ × S
  migrated = client.sql_migrate

  -- cluster_sql_join_ on an unlocked connection that is not joined, with its strings in place
  -- (the partition may be NULL), for a database whose queries do not fail and over whose rows
  -- the sums stay within int: whatever connecting, migrating and pinging answer, it returns, and
  -- either with 0 and the connection a member (joined, unlocked, all three database connections)
  -- with its balancing thread and, unless it is passive, its ping thread, each unless
  -- pthread_create has refused it, or with -1 and nothing held (unlocked, not joined, no thread,
  -- no database connection).
  pub sql_join-AllOrNothing :
      IsSummable client
      → (w : World S) → w.lock ≡ free
      → w.cluster.flags.joined ≡ false
      → IsPrepared w
      → AllOrNothing client (cluster_sql_join client w)
  unfolding cluster_sql_join cluster_wrlock
  sql_join-AllOrNothing sums w unlocked apart p =
      let (u, there) = p.has_registry in
      let (o, s) = connected w u in
      let opened = connect-eq client (with_pingdb w w.cluster.pingdb w.server) u there in
      elim (Option-cases o) [
        | inl failed ↦
            let step : cluster_sql_join client w ≡ abandon client (with_pingdb w none s) =
              ground (arith, opened, failed) in
            rw step (abandon-AllOrNothing client (with_pingdb w none s) refl apart)
        | inr (a, made) ↦
            let (r, t) = migrated a s in
            elim (Bool-cases (eq_ℤ r (pos 0))) [
              | inl done ↦
                  let step : cluster_sql_join client w
                      ≡ connect_balancer client (with_pingdb w (some a) t) =
                    ground (arith, opened, made, done) in
                  rw step (
                    connect_balancer-AllOrNothing sums (with_pingdb w (some a) t) a refl apart
                      (ground arith) refl)
              | inr refused ↦
                  let step : cluster_sql_join client w ≡ abandon client (with_pingdb w (some a) t) =
                    ground (arith, opened, made, refused) in
                  rw step (abandon-AllOrNothing client (with_pingdb w (some a) t) refl apart)
            ]
      ]
