-- ===== src/Sql/Balance.antt =====
-- engines/sql.c: an instance's own row, and re-balancing. Connections are never NULL here: the join
-- has checked them, and `deref` faults where they are.
pub mod Result
use libcluster.Prelude.{
  ℕ, Bool, true, false, not, ◌&&◌, Option, none, some, List, [], ◌∷◌, if◌then◌else◌,
}
use libcluster.Prelude.Int.{ℤ, pos, negsuc, eq_ℤ, ◌+ℤ◌}
use libcluster.Prelude.Bytes.{Bytes, strcmp_eq}
use libcluster.Process.{
  CStr, null, live, null_deref, Cluster, World, Outcome, M, ok, fault, pure, ◌>>=◌, ◌>>◌, raise,
  get_cluster, read_str, is_null,
}
use libcluster.Tally.{add_total, to_int}
use libcluster.Etcd.Balance.{on_server, deref, adopt}
use libcluster.Sql.Client.{
  Statement, delete_node, insert_node, Query, nodes_in, nodes_out, SqlClient,
}

-- The loop of `cluster_sql_balance_` over the rows.
unfoldable pub sql_tally : Bool → Bytes → List (Bytes × ℤ) → ℤ → ℤ → Outcome (ℤ × ℤ)
unfolding add_total
sql_tally passive instid [] base total = ok (base, total)
sql_tally passive instid ((id, threads) ∷ rows) base total =
    elim (add_total total (to_int threads)) [
      | fault x ↦ fault x
      | ok sum ↦
          sql_tally passive instid rows (if strcmp_eq id instid && not passive then total else base)
            sum
    ]

-- The rows of a result; that of a query that failed is NULL, and sql_stmt_eof reads it all the same.
module _ {S : Type 0} where
  abbrev pub rows_of : Option (List (Bytes × ℤ)) → M S (List (Bytes × ℤ))
  rows_of none = raise null_deref
  rows_of (some rows) = pure rows

module _ {S : Type 0} (client : SqlClient S) where
  open client use {sql_execute, sql_perform, sql_query, time}

  -- `cluster_sql_perform_ping_`, run inside a transaction: -1 undoes it, 1 commits it.
  unfoldable pub cluster_sql_perform_ping : ℕ → Cluster → S → ℤ × S
  cluster_sql_perform_ping db c s =
      let (deleted, s₁) = sql_execute db (delete_node c.instid c.key c.env) s in
      if eq_ℤ deleted (pos 0)
      then (let (inserted, s₂) =
            sql_execute db
              (insert_node c.instid c.key c.partition c.env c.inst_threads (time s)
                (time s +ℤ c.ttl))
              s₁ in
          if eq_ℤ inserted (pos 0) then (pos 1, s₂) else (negsuc 0, s₂))
      else (negsuc 0, s₁)

  -- A passive instance has no row.
  unfoldable pub cluster_sql_ping : M S ℤ
  cluster_sql_ping = do
    c ← get_cluster
    if c.flags.passive
        then pure (pos 0)
        else (do db ← deref c.pingdb; on_server (sql_perform db (cluster_sql_perform_ping db c)))

  unfoldable pub cluster_sql_unping : M S ℤ
  cluster_sql_unping = do
    c ← get_cluster
    if c.flags.passive then pure (pos 0) else (do
      db ← deref c.pingdb
      r ← on_server (sql_execute db (delete_node c.instid c.key c.env))
      pure (if eq_ℤ r (pos 0) then pos 0 else negsuc 0))

  -- The query of a pass, by whether the instance is in a partition.
  unfoldable pub balance_query : Cluster → ℤ → M S Query
  balance_query c now = do
    key ← read_str c.key
    env ← read_str c.env
    if is_null c.partition
        then pure (nodes_out key env now)
        else (do partition ← read_str c.partition; pure (nodes_in key env partition now))

  unfoldable pub cluster_sql_balance : M S ℤ
  unfolding balance_query
  cluster_sql_balance = do
    c ← get_cluster
    now ← on_server (λ s. (time s, s))
    query ← balance_query c now
    db ← deref c.balancedb
    answer ← on_server (sql_query db query)
    rows ← rows_of answer
    instid ← read_str c.instid
    elim (sql_tally c.flags.passive instid rows (negsuc 0) (pos 0)) [
      | fault x ↦ raise x
      | ok (base, total) ↦ adopt base total
    ]
