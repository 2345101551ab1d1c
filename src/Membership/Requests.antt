-- ===== src/Membership/Requests.antt =====
-- The calls that an application makes on a connection between joining and leaving.
use libcluster.Prelude.{Bool, Option}
use libcluster.Prelude.Int.{ℤ, pos}
use libcluster.Prelude.Bytes.{Bytes}
use libcluster.Process.{M, pure, ◌>>=◌}
use libcluster.Cluster.Settings.{
  cluster_set_env, cluster_set_instance, cluster_reset_instance, cluster_set_partition,
  cluster_set_workers, cluster_set_verbose, cluster_set_balancer, cluster_set_logger,
}
use libcluster.Cluster.Registry.{cluster_set_registry}
use libcluster.Cluster.Queries.{
  cluster_index, cluster_total, cluster_workers, cluster_state, cluster_rebalanced,
}
use libcluster.Static.{cluster_static_set_index, cluster_static_set_total}

-- One constructor for each call, with what it is given and whether its allocation succeeds.
pub data Request : Type 0 where
  set_env set_instance set_partition set_registry : Bool → Option Bytes → Request
  reset_instance : Bool → Bytes → Request
  set_workers set_verbose : ℤ → Request
  set_balancer set_logger : Bool → Request
  static_set_index static_set_total : ℤ → Request
  index : ℤ → Request
  total workers state rebalanced : Request

abbrev pub perform : {S : Type 0} → (Bytes → Bool) → Request → M S ℤ
perform sql (set_env a e) = cluster_set_env a e
perform sql (set_instance a e) = cluster_set_instance a e
perform sql (set_partition a e) = cluster_set_partition a e
perform sql (set_registry a e) = cluster_set_registry sql a e
perform sql (reset_instance a u) = cluster_reset_instance a u
perform sql (set_workers n) = cluster_set_workers n
perform sql (set_verbose n) = cluster_set_verbose n
perform sql (set_balancer b) = cluster_set_balancer b
perform sql (set_logger b) = cluster_set_logger b
perform sql (static_set_index n) = cluster_static_set_index n
perform sql (static_set_total n) = cluster_static_set_total n
perform sql (index n) = cluster_index n
perform sql total = cluster_total
perform sql workers = cluster_workers
perform sql state = do _ ← cluster_state; pure (pos 0)
perform sql rebalanced = cluster_rebalanced
