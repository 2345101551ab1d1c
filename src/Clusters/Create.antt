-- ===== src/Clusters/Create.antt =====
-- cluster.c: cluster_create, and all of cluster_destroy.
pub mod Listed
pub mod Ended
pub mod Discarded
pub mod Undone
use libcluster.Prelude.{ℕ, Bool, true, false, Option, none, some, [], if◌then◌else◌}
use libcluster.Prelude.Int.{ℤ, pos}
use libcluster.Prelude.Bytes.{Bytes}
use libcluster.Process.{CStr, null, live, free, out_of_bounds, ok, ct_static, fork_child, Cluster}
use libcluster.Cluster.Settings.{copy_alnum, default_env}
use libcluster.Membership as Membership
use libcluster.Membership.{Engine}
use libcluster.Clusters.Links.{Links, assign, link_last, unlink}
use libcluster.Clusters.Store.{
  Body, Store, P, set_body, pure, raise, at, ◌>>=◌, ◌>>◌, change_links, cluster_list_wrlock,
  cluster_list_unlock,
}

-- Which of the four allocations succeed.
pub record Allocs : Type 0 where
  pub calloc_ok : Bool
  pub malloc_ok : Bool
  pub key_ok : Bool
  pub env_ok : Bool

-- What calloc gives, with the two fields that are set before anything can fail.
abbrev pub blank_cluster : Cluster
blank_cluster = record {
  kind = ct_static;
  flags = record { joined = false; leaving = false; verbose = false; passive = false };
  forkmode = fork_child;
  instid = CStr.null;
  key = CStr.null;
  env = CStr.null;
  registry = CStr.null;
  partition = CStr.null;
  inst_index = pos 0;
  inst_threads = pos 1;
  total_threads = pos 0;
  logger = false;
  balancer = false;
  ttl = pos 0;
  refresh = pos 0;
  etcd_root = none;
  etcd_clusterdir = none;
  etcd_partitiondir = none;
  etcd_envdir = none;
  pingdb = none;
  balancedb = none;
  jobdb = none;
  ping_thread = false;
  balancer_thread = false;
}

-- CLUSTER_DEFAULT_TTL, CLUSTER_DEFAULT_REFRESH
abbrev pub default_ttl : ℤ
default_ttl = pos 120

abbrev pub default_refresh : ℤ
default_refresh = pos 30

-- The fields that cluster_create sets before the cluster comes into the list, and whether it gets as
-- far as that; `none` is a write behind the identifier's buffer. `uuid` is the text of a new UUID.
unfoldable pub new_cluster : Allocs → Bytes → Bytes → Option (Cluster × Bool)
new_cluster allocs uuid key =
    if allocs.malloc_ok
    then elim (copy_alnum 33 uuid) [
      | none ↦ none
      | some s ↦
          let c₁ = record blank_cluster { instid = live s } in
          if allocs.key_ok
          then (let c₂ = record c₁ { key = live key } in
              if allocs.env_ok
              then some (
                record c₂ { env = live default_env; ttl = default_ttl; refresh = default_refresh },
                true,
              )
              else some (c₂, false))
          else some (c₁, false)
    ]
    else some (blank_cluster, false)

-- A block at the address that calloc gives: its links are NULL.
abbrev pub clear_links : ℕ → Links → Links
clear_links p l = record l {
  prev = assign l.prev (some p) none;
  next = assign l.next (some p) none;
}

module _ {S : Type 0} where
  abbrev pub put_block : ℕ → Cluster → P S (Unit {0})
  put_block p c st = ok (tt, set_body p (some (record { cluster = c; lock = free; calls = [] })) st)

  abbrev pub free_block : ℕ → P S (Unit {0})
  free_block p st = ok (tt, set_body p none st)

module _ {S : Type 0} (etcd sql : Engine S) where
  unfoldable pub cluster_destroy : ℕ → P S ℤ
  unfolding cluster_list_wrlock cluster_list_unlock
  cluster_destroy p = do
    cluster_list_wrlock
    change_links (unlink p)
    cluster_list_unlock
    _ ← at p (Membership.cluster_destroy etcd sql)
    free_block p
    pure (pos 0)

  -- `p` is the address that calloc gives. A cluster that cannot be completed is destroyed again, before
  -- it has come into the list.
  unfoldable pub cluster_create : Allocs → Bytes → ℕ → Bytes → P S (Option ℕ)
  unfolding cluster_destroy new_cluster cluster_list_wrlock cluster_list_unlock
  cluster_create allocs uuid p key =
      if allocs.calloc_ok
      then (do
        change_links (clear_links p)
        elim (new_cluster allocs uuid key) [
          | none ↦ raise out_of_bounds
          | some (c, complete) ↦ (do
            put_block p c
            if complete
                then (do
                  cluster_list_wrlock
                  change_links (link_last p)
                  cluster_list_unlock
                  pure (some p))
                else (do _ ← cluster_destroy p; pure none))
        ])
      else pure none
