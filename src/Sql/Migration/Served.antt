-- ===== src/Sql/Migration/Served.antt =====
-- The schema that the versions lead to, and the statements of the engine over it.
use mathlib.Core.Option.{some-injective}
use libcluster.Prelude.{
  zero, suc, Bool, true, false, Option, none, some, List, [], ◌∷◌, ◌≡◌, refl, sym, arith, subst,
  Option-cases, inl, inr, if◌then◌else◌,
}
use libcluster.Prelude.Int.{ℤ, pos, negsuc, eq_ℤ}
use libcluster.Sql.Migration.{
  cluster_node, cluster_data, cluster_node_data, cluster_job, ColumnName, col_id, col_key, col_env,
  col_threads, col_updated, col_expires, col_partition, Ddl, statements, run_all,
  cluster_sql_migrate,
}
use libcluster.Sql.Migration.Schema.{Table, Schema, has_columns, fills, apply, apply_all}

-- The columns that the INSERT of a ping names, those that a DELETE tests, and those that the queries
-- read and test.
abbrev pub insert_columns : List ColumnName
insert_columns =
    col_id ∷ col_key ∷ col_partition ∷ col_env ∷ col_threads ∷ col_updated ∷ col_expires ∷ []

abbrev pub delete_columns : List ColumnName
delete_columns = col_id ∷ col_key ∷ col_env ∷ []

abbrev pub query_columns : List ColumnName
query_columns =
    col_id ∷ col_threads ∷ col_key ∷ col_env ∷ col_partition ∷ col_expires ∷ col_updated ∷ []

-- Versions one after the other, each once the one before has succeeded.
unfoldable pub upgrade : {S : Type 0} → Bool → (Ddl → S → ℤ × S) → List ℤ → S → ℤ × S
unfolding cluster_sql_migrate
upgrade is_mysql execute [] s = (pos 0, s)
upgrade is_mysql execute (v ∷ vs) s =
    let (r, s₁) = cluster_sql_migrate is_mysql execute v s in
    let rest = upgrade is_mysql execute vs s₁ in if eq_ℤ r (pos 0) then rest else (r, s₁)

-- The same of schemas.
unfoldable pub apply_versions : Bool → List ℤ → Schema → Option Schema
unfolding statements apply_all
apply_versions is_mysql [] schema = some schema
apply_versions is_mysql (v ∷ vs) schema = elim (statements is_mysql v) [
  | none ↦ none
  | some ds ↦ elim (apply_all ds schema) [
    | none ↦ none
    | some next ↦ apply_versions is_mysql vs next
  ]
]

abbrev pub versions : List ℤ
versions = pos 1 ∷ pos 2 ∷ pos 3 ∷ pos 4 ∷ pos 5 ∷ pos 6 ∷ pos 7 ∷ pos 8 ∷ []

-- None of the tables is there, except that an old "cluster_node" may be.
abbrev pub before : Option Table → Schema
before old cluster_node = old
before old cluster_data = none
before old cluster_node_data = none
before old cluster_job = none

-- A database that carries out every statement that its schema allows.
pub record IsDatabase {S : Type 0} (schema : S → Schema) (execute : Ddl → S → ℤ × S) : Type 0 where
  pub runs :
      (d : Ddl) (s : S) (next : Schema)
      → apply d (schema s) ≡ some next
      → ((execute d s).0 ≡ pos 0) × (schema (execute d s).1 ≡ next)

-- Every statement of the engine finds its columns, and its insertion leaves none without a value that
-- must have one; the tables for the applications are there.
pub record IsServing (schema : Schema) : Type 0 where
  pub node :
      (t : Table) × (schema cluster_node ≡ some t)
      × (has_columns insert_columns t.columns ≡ true)
      × (fills insert_columns t.columns ≡ true)
      × (has_columns delete_columns t.columns ≡ true)
      × (has_columns query_columns t.columns ≡ true)
  pub data_table : (t : Table) × (schema cluster_data ≡ some t)
  pub node_data_table : (t : Table) × (schema cluster_node_data ≡ some t)
  pub job_table : (t : Table) × (schema cluster_job ≡ some t)

-- What the first statement of a list does, and the others after it.
apply_all-cons :
    (d : Ddl) (ds : List Ddl) (schema next : Schema)
    → apply_all (d ∷ ds) schema ≡ some next
    → (mid : Schema) × (apply d schema ≡ some mid) × (apply_all ds mid ≡ some next)
unfolding apply_all
apply_all-cons d ds schema next e = elim (Option-cases (apply d schema)) [
  | inl refused ↦ absurd (ground (arith, e, refused))
  | inr (mid, done) ↦ (mid, done, ground (arith, e, done))
]

module _ {S : Type 0} (is_mysql : Bool) (schema : S → Schema) (execute : Ddl → S → ℤ × S)
    (law : IsDatabase schema execute) where
  run_all-runs :
      (ds : List Ddl) (s : S) (next : Schema)
      → apply_all ds (schema s) ≡ some next
      → (s' : S) × (run_all is_mysql execute ds s ≡ (pos 0, s')) × (schema s' ≡ next)
  unfolding run_all apply_all
  run_all-runs [] s next e = (s, refl, some-injective (schema s) next e)
  run_all-runs (d ∷ ds) s next e =
      let (mid, done, later) = apply_all-cons d ds (schema s) next e in
      let (good, moved) = law.runs d s mid done in
      let (s', run, reached) =
        run_all-runs ds (execute d s).1 next
          (subst (λ σ. apply_all ds σ ≡ some next) (sym moved) later) in
      (s', rw good run, reached)

  versions-cons :
      (v : ℤ) (vs : List ℤ) (old next : Schema)
      → apply_versions is_mysql (v ∷ vs) old ≡ some next
      → (ds : List Ddl) × (mid : Schema) × (statements is_mysql v ≡ some ds)
        × (apply_all ds old ≡ some mid)
        × (apply_versions is_mysql vs mid ≡ some next)
  unfolding apply_versions
  versions-cons v vs old next e = elim (Option-cases (statements is_mysql v)) [
    | inl missing ↦ absurd (ground (arith, e, missing))
    | inr (ds, there) ↦ elim (Option-cases (apply_all ds old)) [
      | inl refused ↦ absurd (ground (arith, e, there, refused))
      | inr (mid, done) ↦ (ds, mid, there, done, ground (arith, e, there, done))
    ]
  ]

  statements-not_zero :
      (v : ℤ) (ds : List Ddl) → statements is_mysql v ≡ some ds → eq_ℤ v (pos 0) ≡ false
  unfolding statements
  statements-not_zero (pos zero) ds there = absurd (ground arith)
  statements-not_zero (pos (suc n)) ds there = ground arith
  statements-not_zero (negsuc n) ds there = refl

  migrate-runs :
      (v : ℤ) (ds : List Ddl) (s s' : S)
      → statements is_mysql v ≡ some ds
      → run_all is_mysql execute ds s ≡ (pos 0, s')
      → cluster_sql_migrate is_mysql execute v s ≡ (pos 0, s')
  unfolding cluster_sql_migrate
  migrate-runs v ds s s' there run = rw (statements-not_zero v ds there, there, run) refl

  upgrade-runs :
      (vs : List ℤ) (s : S) (next : Schema)
      → apply_versions is_mysql vs (schema s) ≡ some next
      → (s' : S) × (upgrade is_mysql execute vs s ≡ (pos 0, s')) × (schema s' ≡ next)
  unfolding upgrade apply_versions
  upgrade-runs [] s next e = (s, refl, some-injective (schema s) next e)
  upgrade-runs (v ∷ vs) s next e =
      let (ds, mid, there, done, later) = versions-cons v vs (schema s) next e in
      let (s₁, run, moved) = run_all-runs ds s mid done in
      let (s', rest, reached) =
        upgrade-runs vs s₁ next
          (subst (λ σ. apply_versions is_mysql vs σ ≡ some next) (sym moved) later) in
      (s', rw (migrate-runs v ds s s₁ there run) rest, reached)

  -- What the eight versions lead to.
  versions-IsServing :
      (old : Option Table)
      → (next : Schema) × (apply_versions is_mysql versions (before old) ≡ some next)
        × IsServing next
  unfolding apply_versions apply_all apply statements
  versions-IsServing old = (
    _,
    refl,
    record {
      node = (_, refl, refl, refl, refl, refl);
      data_table = (_, refl);
      node_data_table = (_, refl);
      job_table = (_, refl);
    },
  )

  -- On a database that carries out each statement which its schema allows, and that has none of
  -- the tables except perhaps an old "cluster_node", with MySQL or another: cluster_sql_migrate_
  -- for the versions 1 to 8 in order returns 0 each time, and then every column that the
  -- engine's INSERT, DELETE and SELECT statements name is in "cluster_node", the INSERT leaves
  -- no column without a value that must have one, and the tables "cluster_data",
  -- "cluster_node_data" and "cluster_job" are there.
  pub upgrade-IsServing :
      (s : S) (old : Option Table)
      → schema s ≡ before old
      → (s' : S) × (upgrade is_mysql execute versions s ≡ (pos 0, s')) × IsServing (schema s')
  upgrade-IsServing s old start =
      let (next, done, serving) = versions-IsServing old in
      let (s', run, reached) =
        upgrade-runs versions s next
          (subst (λ σ. apply_versions is_mysql versions σ ≡ some next) (sym start) done) in
      (s', run, subst IsServing (sym reached) serving)
