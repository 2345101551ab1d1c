-- ===== src/Sql/Migration.antt =====
-- engines/sql.c: the versions of the database's schema, as libsql asks for them one after the other.
-- A statement is its parts: the names are constructors, and the text that joins them is left out.
pub mod Schema
pub mod Served
use libcluster.Prelude.{ℕ, Bool, true, false, Option, none, some, List, [], ◌∷◌, if◌then◌else◌}
use libcluster.Prelude.Int.{ℤ, pos, negsuc, eq_ℤ}
use libcluster.Prelude.Bytes.{Bytes}

pub data TableName : Type 0 where
  cluster_node cluster_data cluster_node_data cluster_job : TableName

pub data ColumnName : Type 0 where
  col_id col_key col_env col_threads col_updated col_expires col_partition : ColumnName
  col_name col_value col_parent col_status col_created col_node col_progress col_total : ColumnName

pub data IndexName : Type 0 where
  cluster_node_key_env cluster_node_expires cluster_node_updated cluster_node_partition : IndexName
  cluster_data_key_env cluster_node_data_id_key_env cluster_node_data_key_env : IndexName

pub data ColumnType : Type 0 where
  varchar : ℕ → ColumnType
  sql_int sql_text datetime timestamp : ColumnType

pub data Default : Type 0 where
  no_default default_null : Default
  default_int : ℕ → Default
  default_text : Bytes → Default

pub record Column : Type 0 where
  pub name : ColumnName
  pub kind : ColumnType
  pub not_null : Bool
  pub default : Default

-- `innodb`: does the statement end with MySQL's engine and character set?
pub data Ddl : Type 0 where
  drop_table_if_exists : TableName → Ddl
  create_table :
      TableName → (columns : List Column) (primary : List ColumnName) (innodb : Bool) → Ddl
  create_index : IndexName → TableName → List ColumnName → Ddl
  add_column : TableName → Column → Ddl

-- NOT NULL, and no DEFAULT
abbrev pub required : ColumnName → ColumnType → Column
required name kind = record { name = name; kind = kind; not_null = true; default = no_default }

abbrev pub nullable : ColumnName → ColumnType → Column
nullable name kind = record { name = name; kind = kind; not_null = false; default = default_null }

-- NOT NULL with a DEFAULT
abbrev pub defaulted : ColumnName → ColumnType → Default → Column
defaulted name kind d = record { name = name; kind = kind; not_null = true; default = d }

abbrev pub time_type : Bool → ColumnType
time_type is_mysql = if is_mysql then datetime else timestamp

-- "WAIT"
abbrev pub wait_status : Bytes
wait_status = b'W' ∷ b'A' ∷ b'I' ∷ b'T' ∷ []

abbrev pub create_node : Bool → Ddl
create_node is_mysql =
    create_table cluster_node
      (required col_id (varchar 32)
        ∷ required col_key (varchar 32)
        ∷ required col_env (varchar 32)
        ∷ defaulted col_threads sql_int (default_int 0)
        ∷ required col_updated (time_type is_mysql)
        ∷ required col_expires (time_type is_mysql)
        ∷ [])
      (col_id ∷ col_key ∷ col_env ∷ []) is_mysql

abbrev pub create_data : Ddl
create_data =
    create_table cluster_data
      (required col_key (varchar 32)
        ∷ required col_env (varchar 32)
        ∷ required col_name (varchar 32)
        ∷ nullable col_value sql_text
        ∷ [])
      (col_key ∷ col_env ∷ col_name ∷ []) false

abbrev pub create_node_data : Ddl
create_node_data =
    create_table cluster_node_data
      (required col_id (varchar 32)
        ∷ required col_key (varchar 32)
        ∷ required col_env (varchar 32)
        ∷ required col_name (varchar 32)
        ∷ nullable col_value sql_text
        ∷ [])
      (col_id ∷ col_key ∷ col_env ∷ col_name ∷ []) false

abbrev pub create_job : Bool → Ddl
create_job is_mysql =
    create_table cluster_job
      (required col_id (varchar 32)
        ∷ required col_key (varchar 32)
        ∷ required col_env (varchar 32)
        ∷ nullable col_parent (varchar 32)
        ∷ defaulted col_status (varchar 16) (default_text wait_status)
        ∷ required col_created (time_type is_mysql)
        ∷ required col_updated (time_type is_mysql)
        ∷ nullable col_node (varchar 32)
        ∷ defaulted col_progress sql_int (default_int 0)
        ∷ defaulted col_total sql_int (default_int 1)
        ∷ [])
      (col_id ∷ col_key ∷ col_env ∷ []) false

-- The statements of a version, in their order; `none` for a version that there is not.
unfoldable pub statements : Bool → ℤ → Option (List Ddl)
statements is_mysql v =
    if eq_ℤ v (pos 1)
    then some (drop_table_if_exists cluster_node ∷ create_node is_mysql ∷ [])
    else if eq_ℤ v (pos 2)
    then some (create_index cluster_node_key_env cluster_node (col_key ∷ col_env ∷ []) ∷ [])
    else if eq_ℤ v (pos 3)
    then some (create_index cluster_node_expires cluster_node (col_expires ∷ []) ∷ [])
    else if eq_ℤ v (pos 4)
    then some (create_index cluster_node_updated cluster_node (col_updated ∷ []) ∷ [])
    else if eq_ℤ v (pos 5)
    then some (
        add_column cluster_node (nullable col_partition (varchar 32))
        ∷ create_index cluster_node_partition cluster_node (col_partition ∷ [])
        ∷ [])
    else if eq_ℤ v (pos 6)
    then some
        (create_data ∷ create_index cluster_data_key_env cluster_data (col_key ∷ col_env ∷ []) ∷ [])
    else if eq_ℤ v (pos 7)
    then some (
        create_node_data
        ∷ create_index cluster_node_data_id_key_env cluster_node_data
            (col_id ∷ col_key ∷ col_env ∷ [])
        ∷ create_index cluster_node_data_key_env cluster_node_data (col_key ∷ col_env ∷ [])
        ∷ [])
    else if eq_ℤ v (pos 8)
    then some (create_job is_mysql ∷ [])
    else none

-- CLUSTER_SQL_SCHEMA_VERSION
abbrev pub schema_version : ℤ
schema_version = pos 8

module _ {S : Type 0} (is_mysql : Bool) (execute : Ddl → S → ℤ × S) where
  -- `if(sql_execute(sql, ddl)) return -1;` for one statement after the other, then `return 0`.
  unfoldable pub run_all : List Ddl → S → ℤ × S
  run_all [] s = (pos 0, s)
  run_all (d ∷ ds) s =
      let (r, s₁) = execute d s in
      let rest = run_all ds s₁ in if eq_ℤ r (pos 0) then rest else (negsuc 0, s₁)

  unfoldable pub cluster_sql_migrate : ℤ → S → ℤ × S
  unfolding statements run_all
  cluster_sql_migrate newversion s =
      if eq_ℤ newversion (pos 0)
      then (schema_version, s)
      else elim (statements is_mysql newversion) [ none ↦ (negsuc 0, s) | some ds ↦ run_all ds s ]
