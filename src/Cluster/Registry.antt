-- ===== src/Cluster/Registry.antt =====
-- cluster.c: `cluster_set_registry`, which chooses the kind of clustering by the URI's scheme.
-- `sql_scheme_exists` is libsql's: does it know the scheme?
use libcluster.Prelude.{
  Bool, true, false, ◌&&◌, Option, none, some, [], ◌∷◌, ltb, ◌==◌, length, take, if◌then◌else◌,
}
use libcluster.Prelude.Int.{ℤ, pos, negsuc}
use libcluster.Prelude.Bytes.{Bytes, strcmp_eq}
use libcluster.Process.{
  eperm, einval, ClusterType, ct_static, ct_etcd, ct_sql, M, ◌>>=◌, ◌>>◌, get_cluster, put_cluster,
  cluster_wrlock, cluster_unlock, release, strdup, is_null,
}
use libcluster.Cluster.Settings.Exits.{unlock_return, refuse}

-- What stands before the first ':', if there is one.
pub before_colon : Bytes → Option Bytes
before_colon [] = none
before_colon (c ∷ cs) = elim (c == b':') [
  | true ↦ some []
  | false ↦ elim (before_colon cs) [ none ↦ none | some t ↦ some (c ∷ t) ]
]

abbrev pub http_prefix : Bytes
http_prefix = b'h' ∷ b't' ∷ b't' ∷ b'p' ∷ b':' ∷ []

http_kind : Bytes → Option ClusterType
http_kind uri = if strcmp_eq (take 5 uri) http_prefix then some ct_etcd else none

-- The tests on the URI: a scheme of at most 62 bytes that libsql knows, else the prefix "http:".
unfoldable pub registry_kind : (Bytes → Bool) → Bytes → Option ClusterType
unfolding http_kind before_colon
registry_kind sql_scheme_exists uri = elim (before_colon uri) [
  | none ↦ http_kind uri
  | some scheme ↦
      if ltb (length scheme) 63 && sql_scheme_exists scheme then some ct_sql else http_kind uri
]

module _ {S : Type 0} where
  -- With no URI the old one is freed and its pointer stays in the cluster.
  unfoldable pub cluster_set_registry : (Bytes → Bool) → Bool → Option Bytes → M S ℤ
  unfolding cluster_wrlock cluster_unlock
  cluster_set_registry sql_scheme_exists strdup_ok uri = do
    cluster_wrlock
    c ← get_cluster
    if c.flags.joined then refuse eperm else elim uri [
      | none ↦ (do
        r ← release c.registry
        put_cluster (record c { registry = r; kind = ct_static })
        unlock_return (pos 0))
      | some u ↦ elim (registry_kind sql_scheme_exists u) [
        | none ↦ refuse einval
        | some k ↦ if is_null (strdup strdup_ok u) then unlock_return (negsuc 0) else (do
          _ ← release c.registry
          put_cluster (record c { registry = strdup strdup_ok u; kind = k })
          unlock_return (pos 0))
      ]
    ]
