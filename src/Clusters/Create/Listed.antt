-- ===== src/Clusters/Create/Listed.antt =====
-- What making and freeing a cluster do to the list, and to its own block.
use libcluster.Prelude.{ℕ, ◌==◌, true, false, none, some, List, [], ◌∷◌, ◌++◌, ◌≡◌, refl, arith}
use libcluster.Prelude.Bytes.{Bytes}
use libcluster.Process.{live, free, Returns, Cluster}
use libcluster.Cluster.Settings.{copy_alnum, default_env}
use libcluster.Membership.{Engine}
use libcluster.Clusters.Links.{Links}
use libcluster.Clusters.Links.Chain.{has, frame}
use libcluster.Clusters.Links.Laws.{IsListed, IsUnlisted}
use libcluster.Clusters.Links.Listed.{link_last-IsListed}
use libcluster.Clusters.Store.{Store, cluster_list_wrlock, cluster_list_unlock}
use libcluster.Clusters.Create.{
  Allocs, blank_cluster, default_ttl, default_refresh, clear_links, new_cluster, cluster_create,
}

pub cleared-IsListed :
    (p : ℕ) (l : Links) (xs : List ℕ)
    → has p xs ≡ false
    → IsListed l xs
    → IsListed (clear_links p l) xs
cleared-IsListed p l xs out h = record {
  starts = h.starts;
  chained = frame l.prev l.next none xs l.last (some p) (some p) none none out out h.chained;
  distinct = h.distinct;
}

pub cleared-IsUnlisted :
    (p : ℕ) (l : Links) (xs : List ℕ) → has p xs ≡ false → IsUnlisted p (clear_links p l) xs
cleared-IsUnlisted p l xs out = record {
  absent = out;
  no_prev = ground arith;
  no_next = ground arith;
}

abbrev pub all_succeed : Allocs
all_succeed = record { calloc_ok = true; malloc_ok = true; key_ok = true; env_ok = true }

-- A cluster as cluster_create leaves it.
abbrev pub created_cluster : Bytes → Bytes → Cluster
created_cluster s key = record blank_cluster {
  instid = live s;
  key = live key;
  env = live default_env;
  ttl = default_ttl;
  refresh = default_refresh;
}

-- A new cluster stands in the list, behind the others, which are as they were.
pub record IsCreated {S : Type 0} (p : ℕ) (s key : Bytes) (xs : List ℕ) (st st' : Store S)
    : Type 0 where
  pub listed : IsListed st'.links (xs ++ p ∷ [])
  pub unlocked : st'.list_lock ≡ free
  pub block :
      st'.bodies p ≡ some (record { cluster = created_cluster s key; lock = free; calls = [] })
  pub others : (q : ℕ) → (q == p) ≡ false → st'.bodies q ≡ st.bodies q
  pub same_server : st'.server ≡ st.server

-- A cluster that was not made: its block is free, and the list and the others are as they were.
pub record IsDiscarded {S : Type 0} (p : ℕ) (xs : List ℕ) (st st' : Store S) : Type 0 where
  pub listed : IsListed st'.links xs
  pub unlocked : st'.list_lock ≡ free
  pub block : st'.bodies p ≡ none
  pub others : (q : ℕ) → (q == p) ≡ false → st'.bodies q ≡ st.bodies q
  pub same_server : st'.server ≡ st.server

module _ {S : Type 0} (etcd sql : Engine S) where
  -- cluster_create where every allocation succeeds, the UUID's text fits its buffer, the list's
  -- lock is free, the pointers stand for a list of clusters and the new address is not in it: it
  -- returns that address, the pointers stand for the list with the new cluster at its end, the
  -- list's lock is free, the new block holds the identifier, the key and the defaults, and all
  -- other blocks and the registry's side are as they were.
  pub cluster_create-IsCreated :
      (uuid s : Bytes) (p : ℕ) (key : Bytes) (xs : List ℕ) (st : Store S)
      → copy_alnum 33 uuid ≡ some s
      → IsListed st.links xs
      → has p xs ≡ false
      → st.list_lock ≡ free
      → Returns
          (cluster_create etcd sql all_succeed uuid p key st)
          (λ r. (r.0 ≡ some p) × IsCreated p s key xs st r.1)
  unfolding cluster_create new_cluster cluster_list_wrlock cluster_list_unlock
  cluster_create-IsCreated uuid s p key xs st text h out unlocked =
      let self : (p == p) ≡ true = ground arith in
      rw (text, unlocked)
        (
          refl,
          record {
            listed =
                link_last-IsListed p (clear_links p st.links) xs
                  (cleared-IsUnlisted p st.links xs out) (cleared-IsListed p st.links xs out h);
            unlocked = refl;
            block = ground arith;
            others = λ q n. ground arith;
            same_server = refl;
          },
        )
