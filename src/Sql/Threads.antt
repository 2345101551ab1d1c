-- ===== src/Sql/Threads.antt =====
-- engines/sql.c: what the loops of the two threads call.
-- The engine looks for changes with the lock released, and reads the cluster without it.
pub mod Leaving
use libcluster.Prelude.{
  ℕ, Bool, true, false, not, ◌&&◌, Option, none, some, List, [], ◌∷◌, if◌then◌else◌,
}
use libcluster.Prelude.Int.{ℤ, pos, ◌+ℤ◌, ltb_ℤ}
use libcluster.Prelude.Bytes.{Bytes}
use libcluster.Process.{Cluster, M, pure, ◌>>=◌, get_cluster, read_str, is_null}
use libcluster.Etcd.Balance.{on_server, deref}
use libcluster.Sql.Client.{Query, nodes_in, nodes_out, changes_in, changes_out, SqlClient}
use libcluster.Sql.Balance.{
  rows_of, balance_query, cluster_sql_ping, cluster_sql_unping, cluster_sql_balance,
}
use libcluster.Threads.{Loops}

-- CLUSTER_SQL_MAX_BALANCEWAIT
abbrev pub max_balancewait : ℤ
max_balancewait = pos 30

-- The balancing thread's variables: `last`, when it last re-balanced, and `lastbuf`, the time of the
-- last look, `none` while it is empty.
pub record Watch : Type 0 where
  pub last : ℤ
  pub lastbuf : Option ℤ

module _ {S : Type 0} (client : SqlClient S) where
  open client use {sql_query, time}

  unfoldable pub changes_query : Cluster → ℤ → Option ℤ → M S Query
  unfolding balance_query
  changes_query c now none = balance_query client c now
  changes_query c now (some since) = do
    key ← read_str c.key
    env ← read_str c.env
    if is_null c.partition
        then pure (changes_out key env now since)
        else (do partition ← read_str c.partition; pure (changes_in key env partition now since))

  abbrev pub is_empty : List (Bytes × ℤ) → Bool
  is_empty [] = true
  is_empty (r ∷ rs) = false

  -- After CLUSTER_SQL_BALANCE_SLEEP seconds of sleep: re-balance if a row has changed, or if the last
  -- time is too long ago.
  unfoldable pub look_for_changes : Watch → M S (Bool × Watch)
  unfolding changes_query
  look_for_changes v = do
    c ← get_cluster
    now ← on_server (λ s. (time s, s))
    query ← changes_query c now v.lastbuf
    db ← deref c.balancedb
    answer ← on_server (sql_query db query)
    rows ← rows_of answer
    pure (
        if is_empty rows && ltb_ℤ now (v.last +ℤ max_balancewait)
        then (false, record v { lastbuf = some now })
        else (true, record { last = now; lastbuf = some now }))

  abbrev pub sql_loops : Loops S Watch
  sql_loops = record {
    ping = cluster_sql_ping client;
    unping = cluster_sql_unping client;
    start = pure (record { last = pos 0; lastbuf = none });
    wait = look_for_changes;
    balance = cluster_sql_balance client;
    stop = λ v. pure tt;
  }
