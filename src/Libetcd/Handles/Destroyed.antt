-- ===== src/Libetcd/Handles/Destroyed.antt =====
-- The end of a member of an etcd cluster, over libetcd: the list, the block and the handles.
use libcluster.Prelude.{ℕ, Bool, true, Option, some, List, ◌∷◌, ◌++◌, ◌≡◌, refl, ap, sym, ◌∙◌}
use libcluster.Prelude.Int.{pos}
use libcluster.Process.{free, ct_etcd, Cluster, Returns}
use libcluster.Jansson.{Jansson}
use libcluster.Membership.{Engine}
use libcluster.Etcd.Client.{EtcdClient}
use libcluster.Etcd.Accounts.{handles, IsAccounted}
use libcluster.Etcd.Accounts.Leaving.{closed-table, handles-IsKept}
use libcluster.Etcd.Session.{Late, cluster_etcd_join, cluster_etcd_leave}
use libcluster.Etcd.Session.Whole.{IsMember, closed}
use libcluster.Etcd.Session.Leaving.{IsKept, etcd_leave-closes}
use libcluster.Clusters.Links.Laws.{IsListed}
use libcluster.Clusters.Links.Listed.{unlink-IsListed}
use libcluster.Clusters.Store.{Body, Store, world_of}
use libcluster.Clusters.Create.{cluster_destroy}
use libcluster.Clusters.Create.Ended.{IsReleasable, IsGone, leave_left, destroy_left, destroy_at}
use libcluster.Libetcd.Requests.{Net}
use libcluster.Libetcd.Handles.{Handles, libetcd}
use libcluster.Libetcd.Handles.Accounts.{table, libetcd-IsAccounted}
use libcluster.Libetcd.Handles.Session.{IsResponsive, libetcd-IsCalm, HasOpen, HasOpen-table}

HasOpen-of : {U W : Type 0} (hs : List ℕ) (s : Handles U W) → HasOpen hs s → table s ≡ some hs
HasOpen-of hs s (sound, open_handles) = rw (sound, open_handles) refl

-- The strings of a cluster in which nothing but other fields has changed.
IsReleasable-like :
    (c : Cluster) (d : Cluster)
    → d.instid ≡ c.instid
    → d.key ≡ c.key
    → d.env ≡ c.env
    → d.registry ≡ c.registry
    → d.partition ≡ c.partition
    → IsReleasable c
    → IsReleasable d
IsReleasable-like c d i k e r p texts = record {
  instid_intact = rw i texts.instid_intact;
  key_intact = rw k texts.key_intact;
  env_intact = rw e texts.env_intact;
  registry_intact = rw r texts.registry_intact;
  partition_intact = rw p texts.partition_intact;
}

module _ {S : Type 0} (J : Jansson) (client : EtcdClient J S) (table : S → Option (List ℕ))
    (accounts : IsAccounted J client table) (hs : List ℕ) where
  -- The handles are accounted for, and the strings can be freed.
  abbrev Kept : Cluster → S → Type 0
  Kept c s = (table s ≡ some (handles c hs)) × IsReleasable c

  Kept-IsKept : (h : ℕ) → IsKept J client h Kept
  Kept-IsKept h =
      let only = handles-IsKept J client table accounts hs h in
      record {
        flagging = λ c f s (k, t).
            (k, IsReleasable-like c (record c { flags = f }) refl refl refl refl refl t);
        adopting = λ c base total s (k, t). (
          k,
          IsReleasable-like c (record c { inst_index = base; total_threads = total }) refl refl refl
              refl refl t,
        );
        reading = λ c s s' r dir got (k, t). (only.reading c s s' r dir got k, t);
        deleting = λ c i s dir (k, t). (only.deleting c i s dir k, t);
      }

-- cluster.c's view of the etcd engine.
abbrev pub etcd_engine : {S : Type 0} (J : Jansson) → EtcdClient J S → Late → Engine S
etcd_engine J client late = record {
  join = cluster_etcd_join J client true;
  leave = cluster_etcd_leave J client late true;
}

module _ {U W : Type 0} (net : Net U W) (J : Jansson) (realloc_ok : Bool) (late : Late)
    (sql : Engine (Handles U W)) where
  -- cluster_destroy on a member of an etcd cluster over libetcd, which stands anywhere in the
  -- list with the list's lock free and has strings that can be freed; where just the member's
  -- handles are allocated besides some others, no address has been used that was not, reading a
  -- directory gives a status or a directory over which a pass ends, and the keys' allocation
  -- succeeds. Whether the balancing thread runs no last pass, one before or one after the entry
  -- is removed: it returns 0, the pointers stand for the list without the cluster, the list's
  -- lock is free, the cluster's block is freed and all other blocks are as they were, and just
  -- the other handles are allocated, with no address used that was not.
  pub destroy_member-IsGone :
      IsResponsive net J realloc_ok
      → (p : ℕ) (hs xs ys : List ℕ) (st : Store (Handles U W)) (b : Body)
      → IsListed st.links (xs ++ p ∷ ys)
      → st.list_lock ≡ free
      → st.bodies p ≡ some b
      → b.cluster.kind ≡ ct_etcd
      → IsMember (world_of b st)
      → IsReleasable b.cluster
      → HasOpen (handles b.cluster hs) st.server
      → Returns
          (cluster_destroy (etcd_engine J (libetcd net J realloc_ok) late) sql p st)
          (λ r. (r.0 ≡ pos 0) × IsGone p (xs ++ ys) st r.1 × HasOpen hs r.1.server)
  destroy_member-IsGone responsive p hs xs ys st b listed unlocked there kind member texts
        open_handles =
      let client = libetcd net J realloc_ok in
      let engine = etcd_engine J client late in
      let accounts = libetcd-IsAccounted net J realloc_ok in
      let (h, dir) = member.has_envdir in
      let (i, name) = member.has_name in
      let (v, (kept, texts_v), step) =
        etcd_leave-closes J client h (Kept J client table accounts hs)
          (Kept-IsKept J client table accounts hs h) (libetcd-IsCalm net J realloc_ok responsive) i
          late (world_of b st) member dir name (HasOpen-of _ st.server open_handles, texts) in
      let texts_closed =
        IsReleasable-like v.cluster (closed J client v).cluster refl refl refl refl refl texts_v in
      let left =
        leave_left engine sql (world_of b st) (closed J client v) (pos 0) member.unlocked
          member.joined kind
          (ap (λ l. engine.leave (record (world_of b st) { lock = l })) (sym member.unlocked)
            ∙ step) in
      let done =
        destroy_left engine sql (world_of b st) (closed J client v) (pos 0) left refl
          texts_closed in
      let (w, run, (a, same), gone) =
        destroy_at engine sql p (xs ++ ys) st b (λ r. r.1.server ≡ (closed J client v).server) done
          there unlocked (unlink-IsListed p st.links xs ys listed) in
      rw run (
        refl,
        gone,
        HasOpen-table hs w.server
            (ap table same ∙ closed-table J client table accounts hs v.cluster v.server kept),
      )
