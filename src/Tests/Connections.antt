-- ===== src/Tests/Connections.antt =====
-- A connection that is configured, joined, frozen, and ended.
use libcluster.Prelude.{ℕ, Bool, true, none, some, [], ◌∷◌, ◌≡◌, refl}
use libcluster.Prelude.Int.{pos}
use libcluster.Prelude.Bytes.{Bytes, strcmp_eq}
use libcluster.Process.{ok, fault, double_free, ct_static, World, Returns}
use libcluster.Cluster.Registry.{cluster_set_registry}
use libcluster.Membership.{Engine, cluster_destroy}
use libcluster.Membership.Requests.{set_registry, perform}
use libcluster.Membership.Soundness.{IsSound, perform-IsSound}
use libcluster.Membership.Joined.{registry_double_free}
use libcluster.Etcd.Session.{cluster_etcd_join, cluster_etcd_leave, no_pass}
use libcluster.Tests.Samples.{json, registry, connection, joined_connection, world}

abbrev is_sql : Bytes → Bool
is_sql s = strcmp_eq s (b's' ∷ b'q' ∷ b'l' ∷ [])

abbrev etcd_engine : Engine ℕ
etcd_engine = record {
  join = cluster_etcd_join json registry true;
  leave = cluster_etcd_leave json registry no_pass true;
}

abbrev idle : World ℕ
idle = world (connection ct_static)

abbrev busy : World ℕ
busy = world (joined_connection ct_static)

idle-IsSound : IsSound idle
idle-IsSound = record {
  unlocked = refl;
  has_instid = tt;
  has_key = tt;
  has_env = tt;
  registry_intact = tt;
  partition_intact = tt;
}

busy-IsSound : IsSound busy
busy-IsSound = record {
  unlocked = refl;
  has_instid = tt;
  has_key = tt;
  has_env = tt;
  registry_intact = tt;
  partition_intact = tt;
}

perform-IsSound_example :
    Returns (perform is_sql (set_registry true (some (b'h' ∷ []))) idle) (λ x. IsSound x.1)
perform-IsSound_example =
    perform-IsSound is_sql (set_registry true (some (b'h' ∷ []))) idle idle-IsSound tt

registry_double_free_example :
    (w₁ : World ℕ) × (cluster_set_registry is_sql true none idle ≡ ok (pos 0, w₁))
    × (cluster_set_registry is_sql true none w₁ ≡ fault double_free)
    × (cluster_destroy etcd_engine etcd_engine w₁ ≡ fault double_free)
registry_double_free_example =
    registry_double_free etcd_engine etcd_engine is_sql true idle (b'r' ∷ []) idle-IsSound refl refl
