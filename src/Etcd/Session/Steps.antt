-- ===== src/Etcd/Session/Steps.antt =====
-- What each step of `cluster_etcd_join_` before the first ping comes to.
use libcluster.Prelude.{ℕ, true, false, Option, none, some, ◌≡◌, ◌⊎◌, inl, inr, arith, Option-cases}
use libcluster.Prelude.Int.{ℤ, negsuc}
use libcluster.Prelude.Bytes.{Bytes}
use libcluster.Process.{null, live, free, writing, World, ok, cluster_wrlock}
use libcluster.Jansson.{Jansson}
use libcluster.Etcd.Client.{EtcdClient}
use libcluster.Etcd.Session.{
  open_dir, give_up, join_start, join_env, join_partition, join_cluster, cluster_etcd_join,
}

module _ {S : Type 0} where
  -- What the connection must have before it joins: text in its strings, and no membership yet.
  pub record IsReady (w : World S) : Type 0 where
    pub apart : w.cluster.flags.joined ≡ false
    pub has_name : (i : Bytes) × (w.cluster.instid ≡ live i)
    pub has_key : (k : Bytes) × (w.cluster.key ≡ live k)
    pub has_env : (e : Bytes) × (w.cluster.env ≡ live e)
    pub partition_intact :
        (w.cluster.partition ≡ null) ⊎ ((p : Bytes) × (w.cluster.partition ≡ live p))

  abbrev pub with_env : World S → Option ℕ → S → World S
  with_env w o s = record w { cluster = record (w.cluster) { etcd_envdir = o }; server = s }

  abbrev pub with_partition : World S → Option ℕ → S → World S
  with_partition w o s = record w {
    cluster = record (w.cluster) { etcd_partitiondir = o };
    server = s;
  }

  abbrev pub with_cluster : World S → Option ℕ → S → World S
  with_cluster w o s = record w { cluster = record (w.cluster) { etcd_clusterdir = o }; server = s }

  pub IsReady-like :
      (w : World S) (a b c d : Option ℕ) (s : S) (k : ℤ)
      → IsReady w
      → IsReady (record w {
        cluster = record (w.cluster) {
          etcd_root = a;
          etcd_clusterdir = b;
          etcd_partitiondir = c;
          etcd_envdir = d;
          inst_index = k;
        };
        server = s;
      })
  IsReady-like w a b c d s k r = record {
    apart = r.apart;
    has_name = r.has_name;
    has_key = r.has_key;
    has_env = r.has_env;
    partition_intact = r.partition_intact;
  }

  abbrev pub with_root : World S → Option ℕ → S → World S
  with_root w o s = record w {
    cluster = record (w.cluster) { etcd_root = o; inst_index = negsuc 0 };
    lock = writing;
    server = s;
  }

  -- The strings of a connection are not touched by connecting.
  pub IsReady-root : (w : World S) (o : Option ℕ) (s : S) → IsReady w → IsReady (with_root w o s)
  IsReady-root w o s ready = record {
    apart = ready.apart;
    has_name = ready.has_name;
    has_key = ready.has_key;
    has_env = ready.has_env;
    partition_intact = ready.partition_intact;
  }

module _ {S : Type 0} (J : Jansson) (client : EtcdClient J S) where
  -- Opening a directory changes nothing but the registry's side.
  pub open_dir-ok :
      (parent : ℕ) (name : Bytes) (w : World S)
      → ((s : S) × (open_dir J client parent name w ≡ ok (none, record w { server = s })))
        ⊎ ((d : ℕ) × (s : S) × (open_dir J client parent name w
              ≡ ok (some d, record w { server = s })))
  open_dir-ok parent name w =
      let (made, s) = client.etcd_dir_create parent name w.server in
      elim (Option-cases made) [
        | inr (d, e) ↦ inr (d, s, ground arith)
        | inl e ↦
            let (found, s') = client.etcd_dir_open parent name s in
            elim (Option-cases found) [
              | inr (d, e') ↦ inr (d, s', ground arith)
              | inl e' ↦ inl (s', ground arith)
            ]
      ]

  pub join_env_failed :
      (w : World S) (parent : ℕ) (e : Bytes) (s : S)
      → w.cluster.env ≡ live e
      → open_dir J client parent e w ≡ ok (none, record w { server = s })
      → join_env J client true parent w ≡ give_up J client true (with_env w none s)
  unfolding join_env
  join_env_failed w parent e s env run = ground (arith, run)

  pub join_env_found :
      (w : World S) (parent : ℕ) (e : Bytes) (d : ℕ) (s : S)
      → w.cluster.env ≡ live e
      → open_dir J client parent e w ≡ ok (some d, record w { server = s })
      → join_env J client true parent w ≡ join_start J client true (with_env w (some d) s)
  unfolding join_env
  join_env_found w parent e d s env run = ground (arith, run)

  pub join_partition_absent :
      (w : World S) (parent : ℕ)
      → w.cluster.partition ≡ null
      → join_partition J client true parent w ≡ join_env J client true parent w
  unfolding join_partition
  join_partition_absent w parent e = ground arith

  pub join_partition_failed :
      (w : World S) (parent : ℕ) (p : Bytes) (s : S)
      → w.cluster.partition ≡ live p
      → open_dir J client parent p w ≡ ok (none, record w { server = s })
      → join_partition J client true parent w ≡ give_up J client true (with_partition w none s)
  unfolding join_partition
  join_partition_failed w parent p s e run = ground (arith, run)

  pub join_partition_found :
      (w : World S) (parent : ℕ) (p : Bytes) (d : ℕ) (s : S)
      → w.cluster.partition ≡ live p
      → open_dir J client parent p w ≡ ok (some d, record w { server = s })
      → join_partition J client true parent w
        ≡ join_env J client true d (with_partition w (some d) s)
  unfolding join_partition
  join_partition_found w parent p d s e run = ground (arith, run)

  -- The registry's side once the root knows whether to be verbose.
  abbrev pub told : ℕ → World S → World S
  told root w = record w { server = client.etcd_set_verbose root w.cluster.flags.verbose w.server }

  pub join_cluster_failed :
      (w : World S) (root : ℕ) (k : Bytes) (s : S)
      → w.cluster.key ≡ live k
      → open_dir J client root k (told root w) ≡ ok (none, record w { server = s })
      → join_cluster J client true root w ≡ give_up J client true (with_cluster w none s)
  unfolding join_cluster
  join_cluster_failed w root k s key run = ground (arith, run)

  pub join_cluster_found :
      (w : World S) (root : ℕ) (k : Bytes) (d : ℕ) (s : S)
      → w.cluster.key ≡ live k
      → open_dir J client root k (told root w) ≡ ok (some d, record w { server = s })
      → join_cluster J client true root w
        ≡ join_partition J client true d (with_cluster w (some d) s)
  unfolding join_cluster
  join_cluster_found w root k d s key run = ground (arith, run)

  pub join_failed :
      (w : World S) (uri : Bytes)
      → w.lock ≡ free
      → w.cluster.registry ≡ live uri
      → (client.etcd_connect uri w.server).0 ≡ none
      → cluster_etcd_join J client true w
        ≡ give_up J client true (with_root w none (client.etcd_connect uri w.server).1)
  unfolding cluster_etcd_join cluster_wrlock
  join_failed w uri unlocked registry failed = ground arith

  pub join_connected :
      (w : World S) (uri : Bytes) (r : ℕ)
      → w.lock ≡ free
      → w.cluster.registry ≡ live uri
      → (client.etcd_connect uri w.server).0 ≡ some r
      → cluster_etcd_join J client true w
        ≡ join_cluster J client true r (with_root w (some r) (client.etcd_connect uri w.server).1)
  unfolding cluster_etcd_join cluster_wrlock
  join_connected w uri r unlocked registry found = ground arith
