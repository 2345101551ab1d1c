-- ===== src/Membership/Soundness.antt =====
-- No call of an application faults, and each leaves the connection sound.
use libcluster.Prelude.{Bool, true, false, none, some, ◌≡◌, ◌⊎◌, arith}
use libcluster.Prelude.Int.{◌+ℤ◌, fits_int}
use libcluster.Prelude.Bytes.{Bytes}
use libcluster.Process.{CStr, null, live, freed, free, World, Returns}
use libcluster.Cluster.Settings.{
  copy_alnum, cluster_set_env, cluster_set_instance, cluster_reset_instance, cluster_set_partition,
  cluster_set_workers, cluster_set_verbose, cluster_set_balancer, cluster_set_logger,
}
use libcluster.Cluster.Registry.{cluster_set_registry}
use libcluster.Cluster.Queries.{
  cluster_index, cluster_total, cluster_workers, cluster_state, cluster_rebalanced,
}
use libcluster.Static.{cluster_static_set_index, cluster_static_set_total}
use libcluster.Membership.Requests.{
  Request, set_env, set_instance, set_partition, set_registry, reset_instance, set_workers,
  set_verbose, set_balancer, set_logger, static_set_index, static_set_total, index, total, workers,
  state, rebalanced, perform,
}

-- A pointer to text, as a type.
abbrev pub IsLive : CStr → Type 0
IsLive (live s) = Unit {0}
IsLive _ = ⊥

-- NULL or a pointer to text: what may be freed.
abbrev pub IsIntact : CStr → Type 0
IsIntact freed = ⊥
IsIntact _ = Unit {0}

-- A connection at rest: not locked, its strings in place, none of them freed.
pub record IsSound {S : Type 0} (w : World S) : Type 0 where
  pub unlocked : w.lock ≡ free
  pub has_instid : IsLive w.cluster.instid
  pub has_key : IsLive w.cluster.key
  pub has_env : IsLive w.cluster.env
  pub registry_intact : IsIntact w.cluster.registry
  pub partition_intact : IsIntact w.cluster.partition

-- What a call asks: no registry to be taken away that is there, an allocation for a new identifier
-- and a UUID's text that fits its buffer, a worker index within `int`.
abbrev pub IsAllowed : {S : Type 0} → Request → World S → Type 0
IsAllowed (set_registry a none) w = (w.cluster.registry ≡ null) ⊎ (w.cluster.flags.joined ≡ true)
IsAllowed (reset_instance a uuid) w = (a ≡ true) × ((s : Bytes) × (copy_alnum 33 uuid ≡ some s))
IsAllowed (index n) w =
    (fits_int (w.cluster.inst_index +ℤ n) ≡ true) ⊎ (w.cluster.flags.joined ≡ false)
IsAllowed _ w = Unit {0}

module _ {S : Type 0} (sql : Bytes → Bool) where
  -- On a connection at rest (unlocked; identifier, key and environment in place; registry and
  -- partition NULL or in place) each of the application's calls between joining and leaving
  -- returns without a fault and leaves the connection at rest. Excepted are taking a registry
  -- away from a connection that is not joined and has one, a new identifier without memory or
  -- beyond its buffer, and a worker's index beyond int.
  pub perform-IsSound :
      (r : Request) (w : World S)
      → IsSound w
      → IsAllowed r w
      → Returns (perform sql r w) (λ x. IsSound x.1)
  unfolding cluster_set_env cluster_set_instance cluster_set_partition cluster_set_registry
      cluster_reset_instance cluster_set_workers cluster_set_verbose cluster_static_set_index
      cluster_static_set_total cluster_index cluster_total cluster_workers cluster_state
      cluster_rebalanced cluster_set_balancer cluster_set_logger
  perform-IsSound (set_env a e) w s h = ground arith
  perform-IsSound (set_instance a e) w s h = ground arith
  perform-IsSound (set_partition a e) w s h = ground arith
  perform-IsSound (set_registry a none) w s h = ground arith
  perform-IsSound (set_registry a (some u)) w s h = ground arith
  perform-IsSound (reset_instance a u) w s h = ground arith
  perform-IsSound (set_workers n) w s h = ground arith
  perform-IsSound (set_verbose n) w s h = ground arith
  perform-IsSound (set_balancer n) w s h = ground arith
  perform-IsSound (set_logger n) w s h = ground arith
  perform-IsSound (static_set_index n) w s h = ground arith
  perform-IsSound (static_set_total n) w s h = ground arith
  perform-IsSound (index n) w s h = ground arith
  perform-IsSound total w s h = ground arith
  perform-IsSound workers w s h = ground arith
  perform-IsSound state w s h = ground arith
  perform-IsSound rebalanced w s h = ground arith
