-- ===== src/Clusters/Create/Ended.antt =====
-- What becomes of the list and of a block when its cluster is destroyed.
use libcluster.Prelude.{
  ℕ, ◌==◌, true, false, none, some, List, ◌∷◌, ◌++◌, ◌≡◌, ◌⊎◌, refl, arith, inl, inr,
}
use libcluster.Prelude.Int.{ℤ, pos}
use libcluster.Process.{
  CStr, live, null, freed, free, ok, ct_static, ct_etcd, Returns, Cluster, World, cluster_rdlock,
  cluster_wrlock, cluster_unlock,
}
use libcluster.Membership as Membership
use libcluster.Membership.{Engine, cluster_leave}
use libcluster.Membership.Soundness.{IsSound, IsLive, IsIntact}
use libcluster.Membership.Joined.{destroy_static}
use libcluster.Clusters.Links.{unlink}
use libcluster.Clusters.Links.Laws.{IsListed}
use libcluster.Clusters.Links.Listed.{unlink-IsListed}
use libcluster.Clusters.Store.{
  Body, Store, world_of, after, set_body, cluster_list_wrlock, cluster_list_unlock, Returns-ok,
}
use libcluster.Clusters.Create.{cluster_destroy}

-- Every string of the cluster may be freed.
pub record IsReleasable (c : Cluster) : Type 0 where
  pub instid_intact : IsIntact c.instid
  pub key_intact : IsIntact c.key
  pub env_intact : IsIntact c.env
  pub registry_intact : IsIntact c.registry
  pub partition_intact : IsIntact c.partition

live-IsIntact : (t : CStr) → IsLive t → IsIntact t
live-IsIntact null l = tt
live-IsIntact (live s) l = tt
live-IsIntact freed l = l

-- A cluster that is gone: its block is free, the list is without it, and the others are as they were.
pub record IsGone {S : Type 0} (p : ℕ) (xs : List ℕ) (st st' : Store S) : Type 0 where
  pub listed : IsListed st'.links xs
  pub unlocked : st'.list_lock ≡ free
  pub block : st'.bodies p ≡ none
  pub others : (q : ℕ) → (q == p) ≡ false → st'.bodies q ≡ st.bodies q

module _ {S : Type 0} (etcd sql : Engine S) where
  -- The end of a connection that is not joined.
  pub destroy_apart :
      (w : World S)
      → w.lock ≡ free
      → w.cluster.flags.joined ≡ false
      → IsReleasable w.cluster
      → Returns (Membership.cluster_destroy etcd sql w) (λ r. r.1.server ≡ w.server)
  unfolding Membership.cluster_destroy cluster_leave cluster_rdlock cluster_wrlock cluster_unlock
  destroy_apart w unlocked apart texts = ground arith

  pub leave_left :
      (w v : World S) (a : ℤ)
      → w.lock ≡ free
      → w.cluster.flags.joined ≡ true
      → w.cluster.kind ≡ ct_etcd
      → etcd.leave (record w { lock = free }) ≡ ok (a, v)
      → cluster_leave etcd sql w ≡ ok (a, v)
  unfolding cluster_leave cluster_rdlock cluster_unlock
  leave_left w v a unlocked joined kind left = ground (arith, left)

  -- The end of a connection that is joined, if its engine can leave.
  pub destroy_left :
      (w v : World S) (a : ℤ)
      → cluster_leave etcd sql w ≡ ok (a, v)
      → v.lock ≡ free
      → IsReleasable v.cluster
      → Returns (Membership.cluster_destroy etcd sql w) (λ r. r.1.server ≡ v.server)
  unfolding Membership.cluster_destroy cluster_wrlock cluster_unlock
  destroy_left w v a left back texts = ground (arith, left)

  -- The engine's part of the end of a connection decides nothing about the list.
  destroy_run :
      (p : ℕ) (st : Store S) (b : Body) (a : ℤ) (w : World S)
      → Membership.cluster_destroy etcd sql (world_of b st) ≡ ok (a, w)
      → st.bodies p ≡ some b
      → st.list_lock ≡ free
      → cluster_destroy etcd sql p st
        ≡ ok (
          pos 0,
          set_body p none (after p w (record st { links = unlink p st.links; list_lock = free })),
        )
  unfolding cluster_destroy cluster_list_wrlock cluster_list_unlock
  destroy_run p st b a w run there unlocked = ground arith

  pub destroy_at :
      (p : ℕ) (xs : List ℕ) (st : Store S) (b : Body) (Q : ℤ × World S → Type 0)
      → Returns (Membership.cluster_destroy etcd sql (world_of b st)) Q
      → st.bodies p ≡ some b
      → st.list_lock ≡ free
      → IsListed (unlink p st.links) xs
      → (w : World S) × (cluster_destroy etcd sql p st
          ≡ ok (
            pos 0,
            set_body p none (after p w (record st { links = unlink p st.links; list_lock = free })),
          ))
        × ((a : ℤ) × Q (a, w))
        × IsGone p xs st (
            set_body p none (after p w (record st { links = unlink p st.links; list_lock = free })))
  destroy_at p xs st b Q done there unlocked h =
      let (r, run, q) = Returns-ok (Membership.cluster_destroy etcd sql (world_of b st)) Q done in
      let self : (p == p) ≡ true = ground arith in
      (
        r.1,
        destroy_run p st b r.0 r.1 run there unlocked,
        (r.0, q),
        record { listed = h; unlocked = refl; block = ground arith; others = λ q n. ground arith },
      )

  -- A connection at rest that is of static kind or not joined can be ended.
  destroy-Returns :
      (w : World S)
      → IsSound w
      → (w.cluster.kind ≡ ct_static) ⊎ (w.cluster.flags.joined ≡ false)
      → (Q : ℤ × World S → Type 0) × Returns (Membership.cluster_destroy etcd sql w) Q
  destroy-Returns w sound (inl static) = (_, destroy_static etcd sql w sound static)
  destroy-Returns w sound (inr apart) = (
    _,
    destroy_apart w sound.unlocked apart (record {
      instid_intact = live-IsIntact w.cluster.instid sound.has_instid;
      key_intact = live-IsIntact w.cluster.key sound.has_key;
      env_intact = live-IsIntact w.cluster.env sound.has_env;
      registry_intact = sound.registry_intact;
      partition_intact = sound.partition_intact;
    }),
  )

  -- cluster_destroy on a cluster that stands anywhere in the list, with the list's lock free and
  -- the connection at rest and of static kind or not joined: it returns 0, the pointers stand
  -- for the list without the cluster, the list's lock is free, the cluster's block is freed, and
  -- all other blocks are as they were.
  pub cluster_destroy-IsGone :
      (p : ℕ) (xs ys : List ℕ) (st : Store S) (b : Body)
      → IsListed st.links (xs ++ p ∷ ys)
      → st.list_lock ≡ free
      → st.bodies p ≡ some b
      → IsSound (world_of b st)
      → (b.cluster.kind ≡ ct_static) ⊎ (b.cluster.flags.joined ≡ false)
      → Returns (cluster_destroy etcd sql p st) (λ r. (r.0 ≡ pos 0) × IsGone p (xs ++ ys) st r.1)
  cluster_destroy-IsGone p xs ys st b h unlocked there sound simple =
      let (Q, done) = destroy-Returns (world_of b st) sound simple in
      let (w, run, q, gone) =
        destroy_at p (xs ++ ys) st b Q done there unlocked (unlink-IsListed p st.links xs ys h) in
      rw run (refl, gone)
