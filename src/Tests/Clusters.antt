-- ===== src/Tests/Clusters.antt =====
-- A process with two clusters: one is made, one destroyed, and the process forks.
use libcluster.Prelude.{
  ℕ, ◌==◌, true, false, none, some, [], ◌∷◌, ◌≡◌, refl, inl, arith, if◌then◌else◌,
}
use libcluster.Prelude.Int.{pos}
use libcluster.Prelude.Bytes.{Bytes}
use libcluster.Process.{free, success, relock, ct_static, ct_etcd, Cluster, Returns, fault}
use libcluster.Cluster.Settings.{copy_alnum, isalnum}
use libcluster.Etcd.Session.{cluster_etcd_join, cluster_etcd_leave, pass_after}
use libcluster.Sql.Session.{cluster_sql_join, cluster_sql_leave}
use libcluster.Membership.{Engine}
use libcluster.Membership.Soundness.{IsSound}
use libcluster.Clusters.Links.{Links}
use libcluster.Clusters.Links.Laws.{IsListed}
use libcluster.Clusters.Store.{Body, Store, world_of}
use libcluster.Clusters.Create.{Allocs, cluster_create, cluster_destroy}
use libcluster.Clusters.Create.Listed.{
  all_succeed, IsCreated, IsDiscarded, cluster_create-IsCreated,
}
use libcluster.Clusters.Create.Ended.{IsGone, cluster_destroy-IsGone}
use libcluster.Clusters.Create.Discarded.{cluster_create-IsDiscarded}
use libcluster.Clusters.Create.Undone.{IsRestored, create_destroy-IsRestored}
use libcluster.Clusters.Fork.{cluster_fork_prepare}
use libcluster.Clusters.Fork.Hooks.{fork_prepare-relock}
use libcluster.Tests.Samples.{node_b, json, registry, database, connection, joined_connection}
use libcluster.Tests.Registry.{calm, is_member}
use libcluster.Tests.Database.{summable}

abbrev pub etcd : Engine ℕ
etcd = record {
  join = cluster_etcd_join json registry true;
  leave = cluster_etcd_leave json registry pass_after true;
}

abbrev pub sql : Engine ℕ
sql = record { join = cluster_sql_join database; leave = cluster_sql_leave database pass_after }

abbrev block : Cluster → Body
block c = record { cluster = c; lock = free; calls = [] }

-- Clusters at the addresses 5 and 8, in that order.
abbrev two_links : Links
two_links = record {
  first = some 5;
  last = some 8;
  prev = λ p. if p == 8 then some 5 else none;
  next = λ p. if p == 5 then some 8 else none;
}

abbrev store : Cluster → Store ℕ
store c = record {
  links = two_links;
  list_lock = free;
  bodies = λ p.
      if p == 5
      then some (block (connection ct_static))
      else if p == 8
      then some (block c)
      else none;
  errno = success;
  server = 0;
}

two_listed : IsListed two_links (5 ∷ 8 ∷ [])
two_listed = record {
  starts = refl;
  chained = (refl, refl, (refl, refl, refl));
  distinct = (refl, (refl, tt));
}

-- "a-1"
abbrev pub uuid : Bytes
uuid = b'a' ∷ b'-' ∷ b'1' ∷ []

abbrev pub name : Bytes
name = b'a' ∷ b'1' ∷ []

pub named : copy_alnum 33 uuid ≡ some name
unfolding copy_alnum isalnum
named = refl

cluster_create-IsCreated_example :
    Returns (cluster_create etcd sql all_succeed uuid 9 node_b (store (connection ct_static))) (λ r.
      (r.0 ≡ some 9) × IsCreated 9 name node_b (5 ∷ 8 ∷ []) (store (connection ct_static)) r.1)
cluster_create-IsCreated_example =
    cluster_create-IsCreated etcd sql uuid name 9 node_b (5 ∷ 8 ∷ []) (store (connection ct_static))
      named two_listed refl refl

create_destroy-IsRestored_example :
    Returns (cluster_create etcd sql all_succeed uuid 9 node_b (store (connection ct_static))) (λ r.
      (r.0 ≡ some 9)
      × Returns
          (cluster_destroy etcd sql 9 r.1)
          (λ e. (e.0 ≡ pos 0) × IsRestored (5 ∷ 8 ∷ []) (store (connection ct_static)) e.1))
create_destroy-IsRestored_example =
    create_destroy-IsRestored etcd sql uuid name 9 node_b (5 ∷ 8 ∷ [])
      (store (connection ct_static)) named two_listed refl refl refl

abbrev no_env : Allocs
no_env = record all_succeed { env_ok = false }

cluster_create-IsDiscarded_example :
    Returns
      (cluster_create etcd sql no_env uuid 9 node_b (store (connection ct_static)))
      (λ r. (r.0 ≡ none) × IsDiscarded 9 (5 ∷ 8 ∷ []) (store (connection ct_static)) r.1)
cluster_create-IsDiscarded_example =
    cluster_create-IsDiscarded etcd sql no_env uuid name 9 node_b (5 ∷ 8 ∷ [])
      (store (connection ct_static)) named refl two_listed refl refl refl

at_rest : IsSound (world_of (block (connection ct_static)) (store (connection ct_static)))
at_rest = record {
  unlocked = refl;
  has_instid = tt;
  has_key = tt;
  has_env = tt;
  registry_intact = tt;
  partition_intact = tt;
}

cluster_destroy-IsGone_example :
    Returns
      (cluster_destroy etcd sql 5 (store (connection ct_static)))
      (λ r. (r.0 ≡ pos 0) × IsGone 5 (8 ∷ []) (store (connection ct_static)) r.1)
cluster_destroy-IsGone_example =
    cluster_destroy-IsGone etcd sql 5 [] (8 ∷ []) (store (connection ct_static))
      (block (connection ct_static)) two_listed refl refl at_rest (inl refl)

fork_prepare-relock_example :
    cluster_fork_prepare json registry database 2
      (λ p. pass_after)
      (λ p. true)
      (store (joined_connection ct_etcd))
    ≡ fault relock
fork_prepare-relock_example =
    fork_prepare-relock json registry database calm summable (λ p. pass_after) 2 (5 ∷ []) [] 8
      (store (joined_connection ct_etcd)) (block (joined_connection ct_etcd)) two_listed
      (omega arith) refl ((block (connection ct_static), refl, refl), tt) refl
      (inl (refl, is_member))
