-- ===== src/Tests/Database.antt =====
-- A database that answers, with an instance that joins, leaves and forks.
use libcluster.Prelude.{
  ℕ, ◌+◌, Bool, true, false, some, List, [], ◌∷◌, ◌≡◌, refl, arith, length, inl,
}
use libcluster.Prelude.Int.{ℤ, pos, negsuc}
use libcluster.Prelude.Bytes.{Bytes}
use libcluster.Process.{ok, free, ct_sql, fork_parent, Cluster, Returns}
use libcluster.Tally.{to_int}
use libcluster.Tally.Layout.{table, entries, sum_workers}
use libcluster.Tally.Partition.{tally-IsBase, tally_passive_zero}
use libcluster.Etcd.Session.{pass_after}
use libcluster.Sql.Client.{SqlClient}
use libcluster.Sql.Balance.{sql_tally, cluster_sql_ping}
use libcluster.Sql.Balance.Result.{row_entries, sql_tally-eq-tally}
use libcluster.Sql.Session.{cluster_sql_join, cluster_sql_leave}
use libcluster.Sql.Session.Whole.{IsPrepared, IsSummable, IsAttached, IsDetached, AllOrNothing}
use libcluster.Sql.Session.Joining.{sql_join-AllOrNothing}
use libcluster.Sql.Session.Leaving.{sql_leave-IsDetached}
use libcluster.Sql.Fork.{cluster_sql_parent}
use libcluster.Sql.Fork.Handlers.{sql_parent_forgets}
use libcluster.Tests.Samples.{
  node_a, node_b, node_c, members, database, connection, joined_connection, world, held,
}
use libcluster.Tests.Layouts.{members-Distinct, members_small}

abbrev rows : List (Bytes × ℤ)
rows = (node_a, pos 2) ∷ (node_b, pos 1) ∷ (node_c, pos 4) ∷ []

rows_counted : row_entries rows ≡ entries members
unfolding to_int
rows_counted = refl

sums_end :
    (passive : Bool) (i : Bytes)
    → (base total : ℤ) × (sql_tally passive i rows (negsuc 0) (pos 0) ≡ ok (base, total))
sums_end true i = (
  negsuc 0,
  pos (sum_workers members),
  ground (
    arith,
    sql_tally-eq-tally true i rows (negsuc 0) (pos 0),
    rows_counted,
    tally_passive_zero i members members_small,
  ),
)
sums_end false i =
    let (base, r, b) = tally-IsBase i members members-Distinct members_small in
    (
      base,
      pos (length (table members)),
      ground (arith, r, sql_tally-eq-tally false i rows (negsuc 0) (pos 0), rows_counted),
    )

pub summable : IsSummable database
summable = record {
  sums = λ passive i h q s.
      let (base, total, run) = sums_end passive i in (rows, s + 1, base, total, refl, run);
}

prepared : IsPrepared (world (connection ct_sql))
prepared = record {
  has_registry = (b'r' ∷ [], refl);
  has_name = (node_b, refl);
  has_key = (b'k' ∷ [], refl);
  has_env = (b'e' ∷ [], refl);
  partition_intact = inl refl;
}

sql_join-AllOrNothing_example :
    AllOrNothing database (cluster_sql_join database (world (connection ct_sql)))
sql_join-AllOrNothing_example =
    sql_join-AllOrNothing database summable (world (connection ct_sql)) refl refl prepared

abbrev attached : Cluster
attached = record (joined_connection ct_sql) { pingdb = some 1; jobdb = some 3 }

is_attached : IsAttached (world attached)
is_attached = record {
  unlocked = refl;
  joined = refl;
  has_pingdb = (1, refl);
  has_balancedb = (1, refl);
  has_jobdb = (3, refl);
}

attached_texts : IsPrepared (world attached)
attached_texts = record {
  has_registry = (b'r' ∷ [], refl);
  has_name = (node_b, refl);
  has_key = (b'k' ∷ [], refl);
  has_env = (b'e' ∷ [], refl);
  partition_intact = inl refl;
}

sql_leave-IsDetached_example :
    Returns
      (cluster_sql_leave database pass_after (world attached))
      (λ r. (r.0 ≡ pos 0) × IsDetached r.1)
sql_leave-IsDetached_example =
    sql_leave-IsDetached database summable pass_after (world attached) is_attached attached_texts

-- A database in which every transaction is undone.
abbrev refusing : SqlClient ℕ
refusing = record database { sql_perform = λ h f s. (negsuc 0, s + 1) }

abbrev after_fork : Cluster
after_fork = record attached {
  forkmode = fork_parent;
  ping_thread = false;
  balancer_thread = false;
}

refused :
    cluster_sql_ping refusing (held after_fork)
    ≡ ok (negsuc 0, record (held after_fork) { server = 1 })
unfolding cluster_sql_ping
refused = refl

sql_parent_forgets_example :
    cluster_sql_parent refusing (held after_fork)
    ≡ ok (tt, record (held after_fork) { lock = free; server = 1 })
sql_parent_forgets_example =
    sql_parent_forgets refusing (held after_fork) (negsuc 0) 1 refl refl refl refused refl
