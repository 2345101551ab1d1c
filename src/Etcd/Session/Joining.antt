-- ===== src/Etcd/Session/Joining.antt =====
-- The steps of `cluster_etcd_join_` that come before the first ping, each all or nothing.
use libcluster.Prelude.{ℕ, true, none, some, ◌≡◌, refl, inl, inr, Option-cases}
use libcluster.Prelude.Bytes.{Bytes}
use libcluster.Process.{live, free, writing, World}
use libcluster.Jansson.{Jansson}
use libcluster.Etcd.Client.{EtcdClient}
use libcluster.Etcd.Session.{join_env, join_partition, join_cluster, cluster_etcd_join}
use libcluster.Etcd.Session.Whole.{Whole, IsCalm, give_up-Whole, join_start-Whole}
use libcluster.Etcd.Session.Steps.{
  open_dir-ok, IsReady, with_env, join_env_failed, join_env_found, with_partition, with_cluster,
  IsReady-like, join_partition_absent, join_partition_failed, join_partition_found, told,
  join_cluster_failed, join_cluster_found, with_root, join_failed, join_connected, IsReady-root,
}

module _ {S : Type 0} (J : Jansson) (client : EtcdClient J S) where
  join_env-Whole :
      IsCalm J client
      → (w : World S) (parent : ℕ) → w.lock ≡ writing
      → IsReady w
      → Whole J client (join_env J client true parent w)
  join_env-Whole calm w parent locked ready =
      let (e, env) = ready.has_env in
      let (i, name) = ready.has_name in
      elim (open_dir-ok J client parent e w) [
        | inl (s, run) ↦
            rw (join_env_failed J client w parent e s env run)
              (give_up-Whole J client true (with_env w none s) locked ready.apart)
        | inr (d, s, run) ↦ rw (join_env_found J client w parent e d s env run) (
            join_start-Whole J client (with_env w (some d) s) d i locked refl name calm ready.apart)
      ]

  join_partition-Whole :
      IsCalm J client
      → (w : World S) (parent : ℕ) → w.lock ≡ writing
      → IsReady w
      → Whole J client (join_partition J client true parent w)
  join_partition-Whole calm w parent locked ready = elim ready.partition_intact [
    | inl e ↦
        rw (join_partition_absent J client w parent e) (join_env-Whole calm w parent locked ready)
    | inr (p, e) ↦ elim (open_dir-ok J client parent p w) [
      | inl (s, run) ↦
          rw (join_partition_failed J client w parent p s e run)
            (give_up-Whole J client true (with_partition w none s) locked ready.apart)
      | inr (d, s, run) ↦ rw (join_partition_found J client w parent p d s e run) (
          join_env-Whole calm (with_partition w (some d) s) d locked (
            IsReady-like w w.cluster.etcd_root w.cluster.etcd_clusterdir (some d)
              w.cluster.etcd_envdir s w.cluster.inst_index ready))
    ]
  ]

  join_cluster-Whole :
      IsCalm J client
      → (w : World S) (root : ℕ) → w.lock ≡ writing
      → IsReady w
      → Whole J client (join_cluster J client true root w)
  join_cluster-Whole calm w root locked ready =
      let (k, key) = ready.has_key in
      elim (open_dir-ok J client root k (told J client root w)) [
        | inl (s, run) ↦
            rw (join_cluster_failed J client w root k s key run)
              (give_up-Whole J client true (with_cluster w none s) locked ready.apart)
        | inr (d, s, run) ↦ rw (join_cluster_found J client w root k d s key run) (
            join_partition-Whole calm (with_cluster w (some d) s) d locked (
              IsReady-like w w.cluster.etcd_root (some d) w.cluster.etcd_partitiondir
                w.cluster.etcd_envdir s w.cluster.inst_index ready))
      ]

  -- cluster_etcd_join_ on an unlocked connection that is not joined, with its strings in place
  -- and the keys' allocation succeeding: for a registry whose directory reads answer with a
  -- status or with a directory over which a pass ends, it returns, and either with 0 and the
  -- connection a member (joined, unlocked, an environment directory) with each of its two
  -- threads there unless pthread_create has refused it, or with -1 and the connection apart
  -- (unlocked, not joined, no thread, no handle).
  pub etcd_join-Whole :
      IsCalm J client
      → (w : World S) (uri : Bytes) → w.lock ≡ free
      → w.cluster.registry ≡ live uri
      → IsReady w
      → Whole J client (cluster_etcd_join J client true w)
  etcd_join-Whole calm w uri unlocked registry ready =
      let (o, s) = client.etcd_connect uri w.server in
      elim (Option-cases o) [
        | inl failed ↦
            rw (join_failed J client w uri unlocked registry failed)
              (give_up-Whole J client true (with_root w none s) refl ready.apart)
        | inr (r, found) ↦ rw (join_connected J client w uri r unlocked registry found) (
            join_cluster-Whole calm (with_root w (some r) s) r refl
              (IsReady-root w (some r) s ready))
      ]
