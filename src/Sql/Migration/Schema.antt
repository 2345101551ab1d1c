-- ===== src/Sql/Migration/Schema.antt =====
-- What SQL's statements on tables do to a schema, described apart from the code.
use libcluster.Prelude.{
  ℕ, Bool, true, false, not, ◌&&◌, ◌||◌, ◌==◌, Option, none, some, List, [], ◌∷◌, ◌++◌,
  if◌then◌else◌,
}
use libcluster.Sql.Migration.{
  TableName, cluster_node, cluster_data, cluster_node_data, cluster_job, ColumnName, IndexName,
  Column, Ddl, drop_table_if_exists, create_table, create_index, add_column, no_default,
}

pub record Table : Type 0 where
  pub columns : List Column
  pub primary : List ColumnName
  pub indexes : List IndexName

abbrev pub Schema : Type 0
Schema = TableName → Option Table

abbrev table_code : TableName → ℕ
table_code cluster_node = 0
table_code cluster_data = 1
table_code cluster_node_data = 2
table_code cluster_job = 3

abbrev column_code : ColumnName → ℕ
column_code ColumnName.col_id = 0
column_code ColumnName.col_key = 1
column_code ColumnName.col_env = 2
column_code ColumnName.col_threads = 3
column_code ColumnName.col_updated = 4
column_code ColumnName.col_expires = 5
column_code ColumnName.col_partition = 6
column_code ColumnName.col_name = 7
column_code ColumnName.col_value = 8
column_code ColumnName.col_parent = 9
column_code ColumnName.col_status = 10
column_code ColumnName.col_created = 11
column_code ColumnName.col_node = 12
column_code ColumnName.col_progress = 13
column_code ColumnName.col_total = 14

abbrev index_code : IndexName → ℕ
index_code IndexName.cluster_node_key_env = 0
index_code IndexName.cluster_node_expires = 1
index_code IndexName.cluster_node_updated = 2
index_code IndexName.cluster_node_partition = 3
index_code IndexName.cluster_data_key_env = 4
index_code IndexName.cluster_node_data_id_key_env = 5
index_code IndexName.cluster_node_data_key_env = 6

abbrev pub has_column : ColumnName → List Column → Bool
has_column c [] = false
has_column c (d ∷ ds) = (column_code c == column_code d.name) || has_column c ds

abbrev pub has_columns : List ColumnName → List Column → Bool
has_columns [] ds = true
has_columns (c ∷ cs) ds = has_column c ds && has_columns cs ds

abbrev distinct_columns : List Column → Bool
distinct_columns [] = true
distinct_columns (d ∷ ds) = not (has_column d.name ds) && distinct_columns ds

abbrev has_index : IndexName → List IndexName → Bool
has_index i [] = false
has_index i (j ∷ js) = (index_code i == index_code j) || has_index i js

abbrev has_name : ColumnName → List ColumnName → Bool
has_name c [] = false
has_name c (d ∷ ds) = (column_code c == column_code d) || has_name c ds

-- An insertion that names these columns leaves no other without a value.
abbrev pub fills : List ColumnName → List Column → Bool
fills cs [] = true
fills cs (d ∷ ds) =
    (has_name d.name cs || not d.not_null || elim d.default [ no_default ↦ false | _ ↦ true ])
    && fills cs ds

abbrev set_table : TableName → Option Table → Schema → Schema
set_table t o schema = λ u. if table_code u == table_code t then o else schema u

-- `none`: the statement is refused.
unfoldable pub apply : Ddl → Schema → Option Schema
apply (drop_table_if_exists t) schema = some (set_table t none schema)
apply (create_table t columns primary innodb) schema = elim (schema t) [
  | none ↦
      if distinct_columns columns && has_columns primary columns
      then some (
          set_table t (some (record { columns = columns; primary = primary; indexes = [] })) schema)
      else none
  | some old ↦ none
]
apply (create_index i t columns) schema = elim (schema t) [
  | none ↦ none
  | some old ↦
      if not (has_index i old.indexes) && has_columns columns old.columns
      then some (set_table t (some (record old { indexes = old.indexes ++ i ∷ [] })) schema)
      else none
]
apply (add_column t column) schema = elim (schema t) [
  | none ↦ none
  | some old ↦
      if has_column column.name old.columns
      then none
      else some (set_table t (some (record old { columns = old.columns ++ column ∷ [] })) schema)
]

unfoldable pub apply_all : List Ddl → Schema → Option Schema
unfolding apply
apply_all [] schema = some schema
apply_all (d ∷ ds) schema = elim (apply d schema) [ none ↦ none | some next ↦ apply_all ds next ]
