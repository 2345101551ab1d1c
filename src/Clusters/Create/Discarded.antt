-- ===== src/Clusters/Create/Discarded.antt =====
-- What is left where a cluster cannot be made complete.
use libcluster.Prelude.{
  ℕ, ◌==◌, true, false, ◌&&◌, none, some, List, [], ◌≡◌, refl, arith, subst, Bool-cases, inl, inr,
  sym,
}
use libcluster.Prelude.Int.{pos}
use libcluster.Prelude.Bytes.{Bytes}
use libcluster.Process.{CStr, live, null, free, ok, Returns, Cluster}
use libcluster.Cluster.Settings.{copy_alnum}
use libcluster.Membership.{Engine}
use libcluster.Membership.Soundness.{IsIntact}
use libcluster.Clusters.Links.{unlink}
use libcluster.Clusters.Links.Chain.{has}
use libcluster.Clusters.Links.Laws.{IsListed}
use libcluster.Clusters.Links.Listed.{unlink_unlisted}
use libcluster.Clusters.Store.{Body, Store, world_of, after, set_body}
use libcluster.Clusters.Create.{
  Allocs, blank_cluster, clear_links, cluster_destroy, new_cluster, cluster_create,
}
use libcluster.Clusters.Create.Listed.{cleared-IsListed, cleared-IsUnlisted, IsDiscarded}
use libcluster.Clusters.Create.Ended.{IsReleasable, destroy_apart, destroy_at}

module _ {S : Type 0} (etcd sql : Engine S) where
  -- A cluster that is not complete is destroyed before the list knows it.
  discarded :
      (p : ℕ) (xs : List ℕ) (st : Store S) (c : Cluster)
      → c.flags.joined ≡ false
      → IsReleasable c
      → IsListed st.links xs
      → has p xs ≡ false
      → st.list_lock ≡ free
      → (st' : Store S) × (cluster_destroy etcd sql p (
            set_body p
              (some (record { cluster = c; lock = free; calls = [] }))
              (record st { links = clear_links p st.links }))
          ≡ ok (pos 0, st'))
        × IsDiscarded p xs st st'
  discarded p xs st c apart texts h out unlocked =
      let self : (p == p) ≡ true = ground arith in
      let b : Body = record { cluster = c; lock = free; calls = [] } in
      let st₁ = set_body p (some b) (record st { links = clear_links p st.links }) in
      let clear = cleared-IsListed p st.links xs out h in
      let (w, run, (a, same), gone) =
        destroy_at etcd sql p xs st₁ b (λ r. r.1.server ≡ st.server)
          (destroy_apart etcd sql (world_of b st₁) refl apart texts) (ground arith) unlocked
          (subst (λ l. IsListed l xs)
            (sym (
              unlink_unlisted p (clear_links p st.links) xs (cleared-IsUnlisted p st.links xs out)
                clear))
            clear) in
      (
        set_body p none (after p w (record st₁ { links = unlink p st₁.links; list_lock = free })),
        run,
        record {
          listed = gone.listed;
          unlocked = refl;
          block = gone.block;
          others = λ q n. ground arith;
          same_server = same;
        },
      )

  blank_texts :
      (i k : CStr)
      → IsIntact i
      → IsIntact k
      → IsReleasable (record blank_cluster { instid = i; key = k })
  blank_texts i k hi hk = record {
    instid_intact = hi;
    key_intact = hk;
    env_intact = tt;
    registry_intact = tt;
    partition_intact = tt;
  }

  -- What the block holds if an allocation fails.
  incomplete :
      (allocs : Allocs) (uuid key s : Bytes)
      → copy_alnum 33 uuid ≡ some s
      → allocs.malloc_ok && allocs.key_ok && allocs.env_ok ≡ false
      → (c : Cluster) × (new_cluster allocs uuid key ≡ some (c, false))
        × (c.flags.joined ≡ false)
        × IsReleasable c
  unfolding new_cluster
  incomplete allocs uuid key s text failing = elim (Bool-cases allocs.malloc_ok) [
    | inl m ↦ elim (Bool-cases allocs.key_ok) [
      | inl k ↦ (
        record blank_cluster { instid = live s; key = live key },
        ground arith,
        refl,
        blank_texts (live s) (live key) tt tt,
      )
      | inr k ↦ (
        record blank_cluster { instid = live s },
        ground arith,
        refl,
        blank_texts (live s) null tt tt,
      )
    ]
    | inr m ↦ (blank_cluster, ground arith, refl, blank_texts null null tt tt)
  ]

  create_incomplete :
      (allocs : Allocs) (uuid key : Bytes) (p : ℕ) (st st' : Store S) (c : Cluster)
      → allocs.calloc_ok ≡ true
      → new_cluster allocs uuid key ≡ some (c, false)
      → cluster_destroy etcd sql p (
          set_body p
            (some (record { cluster = c; lock = free; calls = [] }))
            (record st { links = clear_links p st.links }))
        ≡ ok (pos 0, st')
      → cluster_create etcd sql allocs uuid p key st ≡ ok (none, st')
  unfolding cluster_create
  create_incomplete allocs uuid key p st st' c got made run = ground arith

  -- cluster_create where one of the four allocations fails, the UUID's text fits its buffer, the
  -- list's lock is free, the pointers stand for a list of clusters and the new address is
  -- neither in it nor allocated: it returns NULL, the pointers stand for the same list, the
  -- list's lock is free, the address is not allocated, and all other blocks and the registry's
  -- side are as they were.
  pub cluster_create-IsDiscarded :
      (allocs : Allocs) (uuid s : Bytes) (p : ℕ) (key : Bytes) (xs : List ℕ) (st : Store S)
      → copy_alnum 33 uuid ≡ some s
      → allocs.calloc_ok && allocs.malloc_ok && allocs.key_ok && allocs.env_ok ≡ false
      → IsListed st.links xs
      → has p xs ≡ false
      → st.bodies p ≡ none
      → st.list_lock ≡ free
      → Returns
          (cluster_create etcd sql allocs uuid p key st)
          (λ r. (r.0 ≡ none) × IsDiscarded p xs st r.1)
  unfolding cluster_create
  cluster_create-IsDiscarded allocs uuid s p key xs st text failing h out fresh unlocked =
      elim (Bool-cases allocs.calloc_ok) [
        | inl got ↦
            let (c, made, apart, texts) = incomplete allocs uuid key s text (ground arith) in
            let (st', run, gone) = discarded p xs st c apart texts h out unlocked in
            rw (create_incomplete allocs uuid key p st st' c got made run) (refl, gone)
        | inr lost ↦ rw lost (
          refl,
          record {
            listed = h;
            unlocked = unlocked;
            block = fresh;
            others = λ q n. refl;
            same_server = refl;
          },
        )
      ]
