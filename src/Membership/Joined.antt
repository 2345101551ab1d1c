-- ===== src/Membership/Joined.antt =====
-- Ending a connection, and taking its registry away.
use libcluster.Prelude.{Bool, false, none, ◌≡◌, ◌⊎◌, arith}
use libcluster.Prelude.Int.{pos}
use libcluster.Prelude.Bytes.{Bytes}
use libcluster.Process.{null, live, freed, free, double_free, ok, fault, ct_static, World, Returns}
use libcluster.Cluster.Registry.{cluster_set_registry}
use libcluster.Static.{cluster_static_leave}
use libcluster.Membership.{Engine, cluster_leave, cluster_destroy}
use libcluster.Membership.Soundness.{IsSound}

module _ {S : Type 0} (etcd sql : Engine S) where
  -- No string of the connection is left allocated.
  pub record IsEmptied (w : World S) : Type 0 where
    pub no_instid : w.cluster.instid ≡ freed
    pub no_key : w.cluster.key ≡ freed
    pub no_env : w.cluster.env ≡ freed
    pub no_registry : (w.cluster.registry ≡ freed) ⊎ (w.cluster.registry ≡ null)
    pub no_partition : (w.cluster.partition ≡ freed) ⊎ (w.cluster.partition ≡ null)
    pub unlocked : w.lock ≡ free
    pub apart : w.cluster.flags.joined ≡ false

  -- cluster_destroy on a connection of static kind at rest, joined or not, returns 0 without a
  -- fault: identifier, key and environment are freed, registry and partition are freed or NULL,
  -- and the connection is unlocked and not joined.
  pub destroy_static :
      (w : World S)
      → IsSound w
      → w.cluster.kind ≡ ct_static
      → Returns (cluster_destroy etcd sql w) (λ r. (r.0 ≡ pos 0) × IsEmptied r.1)
  unfolding cluster_destroy cluster_static_leave cluster_leave
  destroy_static w s k = ground arith

  -- On a connection at rest that is not joined and has a registry, cluster_set_registry(NULL)
  -- returns 0, after which the same call again, and cluster_destroy, free the registry's text a
  -- second time.
  pub registry_double_free :
      (scheme : Bytes → Bool) (alloc : Bool) (w : World S) (u : Bytes)
      → IsSound w
      → w.cluster.flags.joined ≡ false
      → w.cluster.registry ≡ live u
      → (w₁ : World S) × (cluster_set_registry scheme alloc none w ≡ ok (pos 0, w₁))
        × (cluster_set_registry scheme alloc none w₁ ≡ fault double_free)
        × (cluster_destroy etcd sql w₁ ≡ fault double_free)
  unfolding cluster_set_registry cluster_destroy
  registry_double_free scheme alloc w u s apart there = (
    record w { cluster = record (w.cluster) { registry = freed; kind = ct_static } },
    ground arith,
    ground arith,
    ground arith,
  )
