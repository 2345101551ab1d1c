-- ===== src/Sql/Client.antt =====
-- libsql, as engines/sql.c calls it, and the statements that it sends. A handle is the address of an
-- `SQL`, NULL is `none`; `S` is the state of the database and of libsql. A query's result is NULL, or
-- the list of rows that the cursor yields; the clock's time is part of `S`, and so is whether a thread
-- can be created.
use libcluster.Prelude.{ℕ, Bool, Option, List}
use libcluster.Prelude.Int.{ℤ}
use libcluster.Prelude.Bytes.{Bytes}
use libcluster.Process.{CStr}

-- The statements on the table "cluster_node", by their parameters; a NULL partition is SQL's NULL.
pub data Statement : Type 0 where
  delete_node : (id key env : CStr) → Statement
  insert_node : (id key partition env : CStr) (threads : ℤ) (updated expires : ℤ) → Statement

-- The rows of an environment that have not expired, in the order of their identifiers: those of a
-- partition, or those of none; and those among them that were updated since a time.
pub data Query : Type 0 where
  nodes_in : (key env partition : Bytes) (now : ℤ) → Query
  nodes_out : (key env : Bytes) (now : ℤ) → Query
  changes_in : (key env partition : Bytes) (now since : ℤ) → Query
  changes_out : (key env : Bytes) (now since : ℤ) → Query

pub record SqlClient (S : Type 0) : Type 0 where
  pub sql_connect : Bytes → S → Option ℕ × S
  pub sql_disconnect : ℕ → S → S
  pub sql_execute : ℕ → Statement → S → ℤ × S
  pub sql_perform : ℕ → (S → ℤ × S) → S → ℤ × S
  pub sql_migrate : ℕ → S → ℤ × S
  pub sql_query : ℕ → Query → S → Option (List (Bytes × ℤ)) × S
  pub time : S → ℤ
  pub pthread_create : S → Bool × S
