-- ===== src/Clusters/Create/Undone.antt =====
-- Making a cluster and destroying it again.
use mathlib.Core.List.{append-nil}
use libcluster.Prelude.{
  ℕ, ◌==◌, false, none, some, List, [], ◌++◌, ◌≡◌, refl, inr, inl, arith, ◌∙◌, sym, ap, subst,
  Bool-cases,
}
use libcluster.Prelude.Int.{pos}
use libcluster.Prelude.Bytes.{Bytes}
use libcluster.Process.{free, Returns}
use libcluster.Cluster.Settings.{copy_alnum}
use libcluster.Membership.{Engine}
use libcluster.Membership.Soundness.{IsSound}
use libcluster.Clusters.Links.Chain.{has}
use libcluster.Clusters.Links.Laws.{IsListed}
use libcluster.Clusters.Store.{Store, world_of, Returns-ok}
use libcluster.Clusters.Create.{cluster_create, cluster_destroy}
use libcluster.Clusters.Create.Listed.{
  all_succeed, created_cluster, IsCreated, cluster_create-IsCreated,
}
use libcluster.Clusters.Create.Ended.{IsGone, cluster_destroy-IsGone}

-- The clusters of the process are those of another state, each as it was.
pub record IsRestored {S : Type 0} (xs : List ℕ) (st st' : Store S) : Type 0 where
  pub listed : IsListed st'.links xs
  pub unlocked : st'.list_lock ≡ free
  pub bodies : (q : ℕ) → st'.bodies q ≡ st.bodies q

module _ {S : Type 0} (etcd sql : Engine S) where
  pub created-IsSound :
      (s key : Bytes) (st : Store S)
      → IsSound (world_of (record { cluster = created_cluster s key; lock = free; calls = [] }) st)
  created-IsSound s key st = record {
    unlocked = refl;
    has_instid = tt;
    has_key = tt;
    has_env = tt;
    registry_intact = tt;
    partition_intact = tt;
  }

  IsGone-IsRestored :
      (p : ℕ) (s key : Bytes) (xs : List ℕ) (st st₁ st₂ : Store S)
      → st.bodies p ≡ none
      → IsCreated p s key xs st st₁
      → IsGone p (xs ++ []) st₁ st₂
      → IsRestored xs st st₂
  IsGone-IsRestored p s key xs st st₁ st₂ fresh made gone = record {
    listed = subst (IsListed st₂.links) (append-nil xs) gone.listed;
    unlocked = gone.unlocked;
    bodies = λ q. elim (Bool-cases (q == p)) [
      | inl same ↦
          let at_p : q ≡ p = grind arith in
          ap st₂.bodies at_p ∙ gone.block ∙ sym (ap st.bodies at_p ∙ fresh)
      | inr other ↦ gone.others q other ∙ made.others q other
    ];
  }

  -- Where every allocation succeeds, the UUID's text fits its buffer, the list's lock is free,
  -- the pointers stand for a list of clusters and the new address is neither in it nor
  -- allocated: cluster_create returns the address, and cluster_destroy on it, in the state that
  -- this leaves, returns 0, after which the pointers stand for the same list, its lock is free,
  -- and every block is as it was before the two calls.
  pub create_destroy-IsRestored :
      (uuid s : Bytes) (p : ℕ) (key : Bytes) (xs : List ℕ) (st : Store S)
      → copy_alnum 33 uuid ≡ some s
      → IsListed st.links xs
      → has p xs ≡ false
      → st.bodies p ≡ none
      → st.list_lock ≡ free
      → Returns (cluster_create etcd sql all_succeed uuid p key st) (λ r.
        (r.0 ≡ some p)
        × Returns (cluster_destroy etcd sql p r.1) (λ e. (e.0 ≡ pos 0) × IsRestored xs st e.1))
  create_destroy-IsRestored uuid s p key xs st text h out fresh unlocked =
      let ((o, st₁), run, (is_p, made)) =
        Returns-ok (cluster_create etcd sql all_succeed uuid p key st)
          (λ r. (r.0 ≡ some p) × IsCreated p s key xs st r.1)
          (cluster_create-IsCreated etcd sql uuid s p key xs st text h out unlocked) in
      let ((e, st₂), end, (zero_result, gone)) =
        Returns-ok (cluster_destroy etcd sql p st₁)
          (λ r. (r.0 ≡ pos 0) × IsGone p (xs ++ []) st₁ r.1)
          (cluster_destroy-IsGone etcd sql p xs [] st₁
            (record { cluster = created_cluster s key; lock = free; calls = [] }) made.listed
            made.unlocked made.block (created-IsSound s key st₁) (inl refl)) in
      rw run (is_p, rw end (zero_result, IsGone-IsRestored p s key xs st st₁ st₂ fresh made gone))
