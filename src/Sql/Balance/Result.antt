-- ===== src/Sql/Balance/Result.antt =====
-- What re-balancing leaves in a member of an SQL cluster.
use libcluster.Prelude.{
  ℕ, ◌≤◌, Bool, true, false, not, Option, some, List, [], ◌∷◌, map, ◌≡◌, refl, arith, length, ◌&&◌,
  if◌then◌else◌,
}
use libcluster.Prelude.Int.{ℤ, pos, negsuc, ◌+ℤ◌, int_max}
use libcluster.Prelude.Bytes.{Bytes, strcmp_eq}
use libcluster.Process.{live, writing, World, ok}
use libcluster.Tally.{tally, to_int}
use libcluster.Tally.Member.{Member}
use libcluster.Tally.Layout.{table, sum_workers, Distinct, entries, length-table}
use libcluster.Tally.Partition.{IsBase, tally-IsBase, tally_passive_zero}
use libcluster.Etcd.Balance.Result.{adopted, adopt-eq}
use libcluster.Sql.Client.{Query, SqlClient}
use libcluster.Sql.Balance.{sql_tally, balance_query, cluster_sql_balance}

-- The members that the rows stand for.
abbrev pub row_entries : List (Bytes × ℤ) → List (Bytes × ℤ)
row_entries = map λ r. (r.0, to_int r.1)

-- The engine's loop is the common one.
pub sql_tally-eq-tally :
    (passive : Bool) (instid : Bytes) (rows : List (Bytes × ℤ)) (base total : ℤ)
    → sql_tally passive instid rows base total
      ≡ tally (not passive) instid (row_entries rows) base total
unfolding sql_tally tally
sql_tally-eq-tally passive instid [] base total = refl
sql_tally-eq-tally passive instid ((id, threads) ∷ rows) base total = ground (
  arith,
  sql_tally-eq-tally passive instid rows
      (if strcmp_eq id instid && not passive then total else base) (total +ℤ to_int threads),
)

module _ {S : Type 0} (client : SqlClient S) where
  -- What a pass is answered in a world.
  abbrev pub queried : World S → ℕ → Query → Option (List (Bytes × ℤ)) × S
  queried w db q = client.sql_query db q w.server

  pub sql_balance-eq :
      (w : World S) (db : ℕ) (q : Query) (rows : List (Bytes × ℤ)) (i : Bytes) (base total : ℤ)
      → w.lock ≡ writing
      → balance_query client w.cluster (client.time w.server) w ≡ ok (q, w)
      → w.cluster.balancedb ≡ some db
      → w.cluster.instid ≡ live i
      → (queried w db q).0 ≡ some rows
      → sql_tally w.cluster.flags.passive i rows (negsuc 0) (pos 0) ≡ ok (base, total)
      → cluster_sql_balance client w
        ≡ ok (pos 0, adopted (record w { server = (queried w db q).1 }) base total)
  unfolding cluster_sql_balance
  sql_balance-eq w db q rows i base total locked asked con name answered pass =
      ground (arith, adopt-eq base total (record w { server = (queried w db q).1 }) locked)

  module _ (w : World S) (db : ℕ) (q : Query) (rows : List (Bytes × ℤ)) (i : Bytes)
      (ms : List Member) (locked : w.lock ≡ writing)
      (asked : balance_query client w.cluster (client.time w.server) w ≡ ok (q, w))
      (con : w.cluster.balancedb ≡ some db) (name : w.cluster.instid ≡ live i)
      (answered : (queried w db q).0 ≡ some rows) (counted : row_entries rows ≡ entries ms)
      (small : sum_workers ms ≤ int_max) where
    -- cluster_sql_balance_ for an instance that is not passive, with the write lock held, a
    -- connection and an identifier, where its query does not fail and its rows are members of
    -- distinct names, their workers adding up to an int: it returns 0 with the lock held, the
    -- cluster holds as base the place in the members' table at which exactly the identifier's
    -- lines stand, or -1 where it is not among the members, and the table's length as total, and
    -- the callback is noted once if one is set and either value has changed, else not.
    pub sql_balance_active :
        w.cluster.flags.passive ≡ false
        → Distinct ms
        → (base : ℤ) × (cluster_sql_balance client w
            ≡ ok (
              pos 0,
              adopted (record w { server = (queried w db q).1 }) base (pos (length (table ms))),
            ))
          × IsBase i ms base
    sql_balance_active active distinct =
        let (base, r, b) = tally-IsBase i ms distinct small in
        (
          base,
          sql_balance-eq w db q rows i base (pos (length (table ms))) locked asked con name answered
              (ground
                (arith, r, sql_tally-eq-tally w.cluster.flags.passive i rows (negsuc 0) (pos 0))),
          b,
        )

    -- cluster_sql_balance_ for a passive instance, with the write lock held, a connection and an
    -- identifier, where its query does not fail and its rows are members whose workers add up to
    -- an int: it returns 0 with the lock held, the index is -1 even if a row bears the
    -- instance's name, the total is the length of the members' table, and the callback is noted
    -- once if one is set and either value has changed, else not.
    pub sql_balance_passive :
        w.cluster.flags.passive ≡ true
        → cluster_sql_balance client w
          ≡ ok (
            pos 0,
            adopted (record w { server = (queried w db q).1 }) (negsuc 0) (pos (length (table ms))),
          )
    sql_balance_passive passive =
        sql_balance-eq w db q rows i (negsuc 0) (pos (length (table ms))) locked asked con name
          answered
          (ground (
            arith,
            tally_passive_zero i ms small,
            length-table ms,
            sql_tally-eq-tally w.cluster.flags.passive i rows (negsuc 0) (pos 0),
          ))
