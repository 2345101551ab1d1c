-- ===== src/Tests/Rows.antt =====
-- A database whose rows are the members, with an active and a passive instance.
use libcluster.Prelude.Bytes.{Bytes}
use libcluster.Prelude.{List, ◌∷◌, [], false, true, ◌≡◌, refl, length}
use libcluster.Prelude.Int.{ℤ, pos, negsuc}
use libcluster.Process.{ok, ct_sql, Cluster}
use libcluster.Tally.{to_int}
use libcluster.Tally.Layout.{table}
use libcluster.Tally.Partition.{IsBase}
use libcluster.Sql.Client.{Query, nodes_out}
use libcluster.Sql.Balance.{balance_query, cluster_sql_balance}
use libcluster.Sql.Balance.Result.{sql_balance_active, sql_balance_passive}
use libcluster.Etcd.Balance.Result.{adopted}
use libcluster.Tests.Samples.{node_a, node_b, node_c, members, database, connection, held}
use libcluster.Tests.Layouts.{members-Distinct, members_small}

abbrev rows : List (Bytes × ℤ)
rows = (node_a, pos 2) ∷ (node_b, pos 1) ∷ (node_c, pos 4) ∷ []

abbrev query : Query
query = nodes_out (b'k' ∷ []) (b'e' ∷ []) (pos 1000)

abbrev observer : Cluster
observer = record (connection ct_sql) {
  flags = record { joined = false; leaving = false; verbose = false; passive = true };
}

active_asks :
    balance_query database (connection ct_sql) (pos 1000) (held (connection ct_sql))
    ≡ ok (query, held (connection ct_sql))
unfolding balance_query
active_asks = refl

passive_asks :
    balance_query database observer (pos 1000) (held observer) ≡ ok (query, held observer)
unfolding balance_query
passive_asks = refl

sql_balance_active_example :
    (base : ℤ) × (cluster_sql_balance database (held (connection ct_sql))
      ≡ ok (
        pos 0,
        adopted
            (record (held (connection ct_sql)) { server = 1 })
            base
            (pos (length (table members))),
      ))
    × IsBase node_b members base
unfolding to_int
sql_balance_active_example =
    sql_balance_active database (held (connection ct_sql)) 1 query rows node_b members refl
      active_asks refl refl refl refl members_small refl members-Distinct

sql_balance_passive_example :
    cluster_sql_balance database (held observer)
    ≡ ok (
      pos 0,
      adopted (record (held observer) { server = 1 }) (negsuc 0) (pos (length (table members))),
    )
unfolding to_int
sql_balance_passive_example =
    sql_balance_passive database (held observer) 1 query rows node_b members refl passive_asks refl
      refl refl refl members_small refl
