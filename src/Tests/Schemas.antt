-- ===== src/Tests/Schemas.antt =====
-- A database that is its schema, and goes from an old table to the eight versions.
use libcluster.Prelude.{true, Option, none, some, [], ◌∷◌, ◌≡◌, refl}
use libcluster.Prelude.Int.{ℤ, pos, negsuc}
use libcluster.Sql.Migration.{Ddl, col_id, varchar, required}
use libcluster.Sql.Migration.Schema.{Table, Schema, apply}
use libcluster.Sql.Migration.Served.{
  upgrade, versions, before, IsDatabase, IsServing, upgrade-IsServing,
}

abbrev carry_out : Ddl → Schema → Option Schema → ℤ × Schema
carry_out d schema none = (negsuc 0, schema)
carry_out d schema (some next) = (pos 0, next)

abbrev execute : Ddl → Schema → ℤ × Schema
execute d schema = carry_out d schema (apply d schema)

lawful : IsDatabase (λ schema. schema) execute
lawful = record { runs = λ d schema next e. (rw e refl, rw e refl) }

abbrev old_table : Option Table
old_table =
    some
      (record { columns = required col_id (varchar 32) ∷ []; primary = col_id ∷ []; indexes = [] })

upgrade-IsServing_example :
    (s : Schema) × (upgrade true execute versions (before old_table) ≡ (pos 0, s)) × IsServing s
upgrade-IsServing_example =
    upgrade-IsServing true (λ schema. schema) execute lawful (before old_table) old_table refl
