-- ===== src/Etcd/Balance.antt =====
-- engines/etcd.c: an instance's own entry in the registry, and re-balancing.
pub mod Result
use libcluster.Prelude.{ℕ, Bool, true, false, not, ◌&&◌, ◌||◌, Option, none, some, if◌then◌else◌}
use libcluster.Prelude.Int.{ℤ, pos, negsuc, eq_ℤ}
use libcluster.Prelude.Bytes.{Bytes}
use libcluster.Prelude.Decimal.{print_int}
use libcluster.Process.{
  null_deref, ClusterState, Cluster, World, Outcome, M, ok, fault, pure, ◌>>=◌, ◌>>◌, raise,
  get_cluster, put_cluster, cluster_wrlock, cluster_unlock, read_str,
}
use libcluster.Jansson.{Jansson}
use libcluster.Cluster.Queries.{cluster_rebalanced}
use libcluster.Etcd.Keys.{cluster_etcd_json_keys}
use libcluster.Etcd.Directory.{etcd_tally}
use libcluster.Etcd.Client.{Reply, reply, status, EtcdClient}

module _ {S : Type 0} where
  -- A call of the registry's client.
  abbrev pub on_server : {A : Type 0} → (S → A × S) → M S A
  on_server f w = let (a, s) = f w.server in ok (a, record w { server = s })

  abbrev pub try_server : {A : Type 0} → (S → Outcome (A × S)) → M S A
  try_server f w = elim (f w.server) [
    | ok (a, s) ↦ ok (a, record w { server = s })
    | fault x ↦ fault x
  ]

  abbrev pub deref : Option ℕ → M S ℕ
  deref none = raise null_deref
  deref (some h) = pure h

  -- What both engines do with the result of a pass: store a place that has changed, and tell the
  -- application with the lock released.
  unfoldable pub adopt : ℤ → ℤ → M S ℤ
  unfolding cluster_wrlock cluster_unlock cluster_rebalanced
  adopt base total = do
    c ← get_cluster
    if not (eq_ℤ total c.total_threads) || not (eq_ℤ base c.inst_index)
        then (do
          put_cluster (record c { inst_index = base; total_threads = total })
          cluster_unlock
          _ ← cluster_rebalanced
          cluster_wrlock
          pure (pos 0))
        else pure (pos 0)

module _ {S : Type 0} (J : Jansson) (client : EtcdClient J S) where
  open client use {etcd_dir_get, etcd_key_set_ttl, etcd_key_delete}

  -- `must_exist` is ETCD_EXISTS.
  unfoldable pub cluster_etcd_ping : Bool → M S ℤ
  cluster_etcd_ping must_exist = do
    c ← get_cluster
    dir ← deref c.etcd_envdir
    instid ← read_str c.instid
    on_server (etcd_key_set_ttl dir instid (print_int c.inst_threads) c.ttl must_exist)

  unfoldable pub cluster_etcd_unping : M S ℤ
  cluster_etcd_unping = do
    c ← get_cluster
    dir ← deref c.etcd_envdir
    instid ← read_str c.instid
    on_server (etcd_key_delete dir instid)

  -- `calloc_ok` says whether the array of keys can be allocated; the code reads it unchecked.
  unfoldable pub cluster_etcd_balance : Bool → M S ℤ
  unfolding cluster_etcd_json_keys
  cluster_etcd_balance calloc_ok = do
    c ← get_cluster
    dir ← deref c.etcd_envdir
    r ← try_server (etcd_dir_get dir)
    elim r [
      | status code ↦ pure (negsuc 0)
      | reply dict ↦ elim (cluster_etcd_json_keys J calloc_ok dict) [
        | none ↦ raise null_deref
        | some keys ↦ (do
          instid ← read_str c.instid
          elim (etcd_tally J dict instid keys (negsuc 0) (pos 0)) [
            | fault x ↦ raise x
            | ok (base, total) ↦ adopt base total
          ])
      ]
    ]
