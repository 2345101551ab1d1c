-- ===== src/Tests/Threads.antt =====
-- Members that leave while their threads run, and an entry that is renewed.
use libcluster.Prelude.{ℕ, ◌≤◌, true, false, Option, none, some, [], ◌∷◌, ◌≡◌, refl, inl, arith}
use libcluster.Prelude.Int.{pos}
use libcluster.Process.{
  reading, ClusterType, ct_etcd, ct_sql, Cluster, Returns, ok, cluster_wrlock, ◌>>◌,
}
use libcluster.Etcd.Balance.{cluster_etcd_ping, cluster_etcd_unping}
use libcluster.Etcd.Session.{close_all}
use libcluster.Etcd.Session.Whole.{IsApart}
use libcluster.Etcd.Threads.{etcd_loops}
use libcluster.Etcd.Threads.Leaving.{etcd_threads_end}
use libcluster.Sql.Balance.{cluster_sql_unping}
use libcluster.Sql.Session.{disconnect_all}
use libcluster.Sql.Session.Whole.{IsDetached}
use libcluster.Sql.Threads.{Watch, sql_loops}
use libcluster.Sql.Threads.Leaving.{IsWorking, sql_threads_end}
use libcluster.Threads.{
  again, ping_pass, ping_finish, ping_loop, ping_ended, balancer_waiting, System, Step, Run, here,
  stepped,
}
use libcluster.Threads.Ending.{IsFinished}
use libcluster.Threads.Period.{ping_passes, ping_passes-period}
use libcluster.Tests.Samples.{node_b, json, registry, database, joined_connection, world}
use libcluster.Tests.Registry.{calm}
use libcluster.Tests.Database.{summable}

-- A member that has been told to leave.
abbrev leaving : ClusterType → Cluster
leaving kind = record (joined_connection kind) {
  flags = record { joined = true; leaving = true; verbose = false; passive = false };
  pingdb = some 1;
}

abbrev at_work : {L : Type 0} → ClusterType → L → System ℕ L
at_work kind l = record {
  world = world (leaving kind);
  ping = ping_loop (pos 30) (pos 7);
  balancer = balancer_waiting l;
}

-- The ping thread has ended; the other still waits for a change.
abbrev entry_removed : {L : Type 0} → ClusterType → L → System ℕ L
entry_removed kind l = record {
  world = record (world (leaving kind)) { server = 1 };
  ping = ping_ended;
  balancer = balancer_waiting l;
}

etcd-Run :
    Run
      (etcd_loops json registry true)
      (at_work ct_etcd (some 2))
      2
      (entry_removed ct_etcd (some 2))
unfolding ping_pass ping_finish cluster_etcd_unping
etcd-Run = stepped (stepped here (Step.ping_breaks refl)) (Step.ping_finishes refl)

etcd_threads_end_example :
    (2 ≤ 8)
    × ((m : ℕ) × (z : System ℕ (Option ℕ)) × Run
          (etcd_loops json registry true)
          (entry_removed {L = Option ℕ} ct_etcd (some 2))
          m
          z
        × IsFinished z)
    × Returns
        ((do cluster_wrlock; close_all json registry)
          (entry_removed {L = Option ℕ} ct_etcd (some 2)).world)
        (λ r. (r.0 ≡ pos 0) × IsApart r.1)
etcd_threads_end_example =
    etcd_threads_end json registry calm etcd-Run refl
      (record { has_envdir = (2, refl); has_name = (node_b, refl) }) refl

abbrev watch : Watch
watch = record { last = pos 970; lastbuf = none }

sql-Run : Run (sql_loops database) (at_work ct_sql watch) 2 (entry_removed ct_sql watch)
unfolding ping_pass ping_finish cluster_sql_unping
sql-Run = stepped (stepped here (Step.ping_breaks refl)) (Step.ping_finishes refl)

working : IsWorking (leaving ct_sql)
working = record {
  has_pingdb = (1, refl);
  has_balancedb = (1, refl);
  has_registry = (b'r' ∷ [], refl);
  has_name = (node_b, refl);
  has_key = (b'k' ∷ [], refl);
  has_env = (b'e' ∷ [], refl);
  partition_intact = inl refl;
}

sql_threads_end_example :
    (2 ≤ 8)
    × ((m : ℕ) × (z : System ℕ Watch) × Run (sql_loops database) (entry_removed ct_sql watch) m z
        × IsFinished z)
    × Returns
        ((do cluster_wrlock; disconnect_all database) (entry_removed ct_sql watch).world)
        (λ r. (r.0 ≡ pos 0) × IsDetached r.1)
sql_threads_end_example = sql_threads_end database summable sql-Run refl working refl

renewed :
    (etcd_loops json registry true).ping
      (record (world (joined_connection ct_etcd)) { lock = reading 0 })
    ≡ ok (pos 0, record (world (joined_connection ct_etcd)) { lock = reading 0; server = 1 })
unfolding cluster_etcd_ping
renewed = refl

ping_passes-period_example :
    (ping_passes
        (etcd_loops json registry true)
        31
        (pos 30)
        (pos 0)
        (world (joined_connection ct_etcd))
      ≡ ok ((31, pos 31), world (joined_connection ct_etcd)))
    × (ping_pass
          (etcd_loops json registry true)
          (pos 30)
          (pos 31)
          (world (joined_connection ct_etcd))
        ≡ ok (again 0 (pos 0), record (world (joined_connection ct_etcd)) { server = 1 }))
ping_passes-period_example =
    ping_passes-period (etcd_loops json registry true) 30 (world (joined_connection ct_etcd))
      (record (world (joined_connection ct_etcd)) { lock = reading 0; server = 1 }) refl refl
      renewed refl (omega arith)
