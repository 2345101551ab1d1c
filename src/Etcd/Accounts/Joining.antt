-- ===== src/Etcd/Accounts/Joining.antt =====
-- Joining: the handles that are open are those that the connection has.
use libcluster.Prelude.{
  ℕ, true, false, Option, none, some, List, ◌∷◌, ◌≡◌, refl, ap, ◌∙◌, arith, ◌⊎◌, inl, inr,
  Bool-cases, Option-cases,
}
use libcluster.Prelude.Int.{ℤ, pos, eq_ℤ}
use libcluster.Prelude.Bytes.{Bytes}
use libcluster.Prelude.Decimal.{print_int}
use libcluster.Process.{live, free, writing, Cluster, World, Outcome, ok, Returns}
use libcluster.Jansson.{Jansson}
use libcluster.Etcd.Client.{EtcdClient, reply, status}
use libcluster.Etcd.Accounts.{is_in, opened, handles, IsAccounted}
use libcluster.Etcd.Accounts.Leaving.{newest-is_in, envdir-is_in, closed-table}
use libcluster.Etcd.Session.{
  open_dir, give_up, join_start, join_env, join_partition, join_cluster, cluster_etcd_join,
}
use libcluster.Etcd.Session.Whole.{
  IsCalm, give_up-eq, pinged, after_ping, join_start_unpinged, join_start_unread,
  join_start-adopted,
}
use libcluster.Etcd.Session.Steps.{
  IsReady, with_env, with_partition, with_cluster, with_root, IsReady-like, IsReady-root, told,
  join_env_failed, join_env_found, join_partition_absent, join_partition_failed,
  join_partition_found, join_cluster_failed, join_cluster_found, join_failed, join_connected,
}

module _ {S : Type 0} (J : Jansson) (client : EtcdClient J S) (table : S → Option (List ℕ))
    (accounts : IsAccounted J client table) (hs : List ℕ) where
  -- The open handles are those of the connection, and `hs`.
  abbrev pub Balances : World S → Type 0
  Balances w = table w.server ≡ some (handles w.cluster hs)

  abbrev pub Balanced : Outcome (ℤ × World S) → Type 0
  Balanced o = Returns o λ r. Balances r.1

  with_result :
      (ks : List ℕ) {s : S} {o x : Option ℕ}
      → table s ≡ some (opened o ks)
      → o ≡ x
      → table s ≡ some (opened x ks)
  with_result ks kept e = kept ∙ ap (λ y. some (opened y ks)) e

  give_up-Balanced :
      (w : World S)
      → w.lock ≡ writing
      → w.cluster.flags.joined ≡ false
      → Balances w
      → Balanced (give_up J client true w)
  give_up-Balanced w locked apart kept =
      rw (give_up-eq J client true w locked apart)
        (closed-table J client table accounts hs w.cluster w.server kept)

  open_dir-Balanced :
      (parent : ℕ) (name : Bytes) (ks : List ℕ) (w : World S)
      → table w.server ≡ some ks
      → is_in parent ks ≡ true
      → ((s : S) × (open_dir J client parent name w ≡ ok (none, record w { server = s }))
          × (table s ≡ some ks))
        ⊎ ((d : ℕ) × (s : S) × (open_dir J client parent name w
              ≡ ok (some d, record w { server = s }))
            × (table s ≡ some (d ∷ ks)))
  open_dir-Balanced parent name ks w kept there =
      let (made, s) = client.etcd_dir_create parent name w.server in
      let created = accounts.creating parent name ks w.server kept there in
      elim (Option-cases made) [
        | inr (d, e) ↦ inr (d, s, ground arith, with_result ks created e)
        | inl e ↦
            let (found, s') = client.etcd_dir_open parent name s in
            let opens = accounts.opening parent name ks s (with_result ks created e) there in
            elim (Option-cases found) [
              | inr (d, e') ↦ inr (d, s', ground arith, with_result ks opens e')
              | inl e' ↦ inl (s', ground arith, with_result ks opens e')
            ]
      ]

  join_start-Balanced :
      IsCalm J client
      → (w : World S) (h : ℕ) (i : Bytes) → w.lock ≡ writing
      → w.cluster.etcd_envdir ≡ some h
      → w.cluster.instid ≡ live i
      → w.cluster.flags.joined ≡ false
      → Balances w
      → Balanced (join_start J client true w)
  join_start-Balanced calm w h i locked dir name apart kept =
      let (r, s) = pinged J client w h i in
      let there = envdir-is_in w.cluster h hs dir in
      let after =
        accounts.setting h i (print_int w.cluster.inst_threads) w.cluster.ttl false _ w.server kept
          there in
      elim (Bool-cases (eq_ℤ r (pos 0))) [
        | inr failed ↦
            rw (join_start_unpinged J client w h i locked dir name failed)
              (give_up-Balanced (after_ping J client w h i) locked apart after)
        | inl done ↦ elim (calm.answers h i s) [
          | inr (code, s', got) ↦
              rw (join_start_unread J client w h i locked dir name code s' done got) (
                give_up-Balanced (record w { server = s' }) locked apart
                  (accounts.reading h _ s s' (status code) after there got))
          | inl (d, s', base, total, got, pass) ↦
              rw (join_start-adopted J client w h i locked dir name d s' base total done got pass) (
                accounts.starting _ _
                  (accounts.starting _ _ (accounts.reading h _ s s' (reply d) after there got)))
        ]
      ]

  -- The handles below the environment directory, below that of the partition, and below that of the
  -- cluster.
  abbrev below_env : Cluster → List ℕ
  below_env c = opened c.etcd_partitiondir (opened c.etcd_clusterdir (opened c.etcd_root hs))

  abbrev below_partition : Cluster → List ℕ
  below_partition c = opened c.etcd_clusterdir (opened c.etcd_root hs)

  abbrev below_cluster : Cluster → List ℕ
  below_cluster c = opened c.etcd_root hs

  join_env-Balanced :
      IsCalm J client
      → (w : World S) (parent : ℕ) → w.lock ≡ writing
      → IsReady w
      → table w.server ≡ some (below_env w.cluster)
      → is_in parent (below_env w.cluster) ≡ true
      → Balanced (join_env J client true parent w)
  join_env-Balanced calm w parent locked ready kept there =
      let (e, env) = ready.has_env in
      let (i, name) = ready.has_name in
      elim (open_dir-Balanced parent e _ w kept there) [
        | inl (s, run, after) ↦
            rw (join_env_failed J client w parent e s env run)
              (give_up-Balanced (with_env w none s) locked ready.apart after)
        | inr (d, s, run, after) ↦ rw (join_env_found J client w parent e d s env run) (
            join_start-Balanced calm (with_env w (some d) s) d i locked refl name ready.apart after)
      ]

  -- No directory of a partition, or of an environment, is open yet.
  abbrev IsClear : World S → Type 0
  IsClear w = (w.cluster.etcd_partitiondir ≡ none) × (w.cluster.etcd_envdir ≡ none)

  join_partition-Balanced :
      IsCalm J client
      → (w : World S) (parent : ℕ) → w.lock ≡ writing
      → IsReady w
      → IsClear w
      → table w.server ≡ some (below_partition w.cluster)
      → is_in parent (below_partition w.cluster) ≡ true
      → Balanced (join_partition J client true parent w)
  join_partition-Balanced calm w parent locked ready (no_partition, no_env) kept there =
      elim ready.partition_intact [
        | inl e ↦ rw (join_partition_absent J client w parent e) (
            join_env-Balanced calm w parent locked ready (rw no_partition kept)
              (rw no_partition there))
        | inr (p, e) ↦ elim (open_dir-Balanced parent p _ w kept there) [
          | inl (s, run, after) ↦
              rw (join_partition_failed J client w parent p s e run)
                (give_up-Balanced (with_partition w none s) locked ready.apart (rw no_env after))
          | inr (d, s, run, after) ↦ rw (join_partition_found J client w parent p d s e run) (
              join_env-Balanced calm (with_partition w (some d) s) d locked
                (IsReady-like w w.cluster.etcd_root w.cluster.etcd_clusterdir (some d)
                  w.cluster.etcd_envdir s w.cluster.inst_index ready)
                after (newest-is_in d _))
        ]
      ]

  join_cluster-Balanced :
      IsCalm J client
      → (w : World S) (root : ℕ) → w.lock ≡ writing
      → IsReady w
      → IsClear w
      → table w.server ≡ some (below_cluster w.cluster)
      → is_in root (below_cluster w.cluster) ≡ true
      → Balanced (join_cluster J client true root w)
  join_cluster-Balanced calm w root locked ready (no_partition, no_env) kept there =
      let (k, key) = ready.has_key in
      let before = accounts.telling root w.cluster.flags.verbose _ w.server kept there in
      elim (open_dir-Balanced root k _ (told J client root w) before there) [
        | inl (s, run, after) ↦ rw (join_cluster_failed J client w root k s key run) (
            give_up-Balanced (with_cluster w none s) locked ready.apart
              (rw (no_env, no_partition) after))
        | inr (d, s, run, after) ↦ rw (join_cluster_found J client w root k d s key run) (
            join_partition-Balanced calm (with_cluster w (some d) s) d locked
              (IsReady-like w w.cluster.etcd_root (some d) w.cluster.etcd_partitiondir
                w.cluster.etcd_envdir s w.cluster.inst_index ready)
              (no_partition, no_env) after (newest-is_in d _))
      ]

  -- cluster_etcd_join_ on an unlocked connection without a handle.
  pub etcd_join-Balanced :
      IsCalm J client
      → (w : World S) (uri : Bytes) → w.lock ≡ free
      → w.cluster.registry ≡ live uri
      → IsReady w
      → w.cluster.etcd_clusterdir ≡ none
      → IsClear w
      → table w.server ≡ some hs
      → Balanced (cluster_etcd_join J client true w)
  etcd_join-Balanced calm w uri unlocked registry ready no_cluster (no_partition, no_env) kept =
      let (o, s) = client.etcd_connect uri w.server in
      let connected = accounts.connecting uri hs w.server kept in
      elim (Option-cases o) [
        | inl failed ↦ rw (join_failed J client w uri unlocked registry failed) (
            give_up-Balanced (with_root w none s) refl ready.apart
              (rw (no_env, no_partition, no_cluster) (with_result hs connected failed)))
        | inr (r, found) ↦ rw (join_connected J client w uri r unlocked registry found) (
            join_cluster-Balanced calm (with_root w (some r) s) r refl
              (IsReady-root w (some r) s ready) (no_partition, no_env)
              (with_result hs connected found) (newest-is_in r hs))
      ]
