-- ===== src/Etcd/Balance/Result.antt =====
-- What re-balancing leaves in the cluster, and when the application hears of it.
use libcluster.Prelude.{
  ℕ, ◌≤◌, Bool, true, not, ◌&&◌, ◌||◌, some, List, ◌∷◌, ◌≡◌, arith, length, if◌then◌else◌,
}
use libcluster.Prelude.Int.{ℤ, pos, negsuc, eq_ℤ, eq_ℤ-eq, int_max}
use libcluster.Prelude.Bytes.{Bytes}
use libcluster.Process.{live, writing, ClusterState, Cluster, World, ok}
use libcluster.Jansson.{Jansson}
use libcluster.Cluster.Queries.{callback_state}
use libcluster.Tally.Member.{Member}
use libcluster.Tally.Layout.{table, sum_workers, Distinct, entries}
use libcluster.Tally.Partition.{IsBase, tally-IsBase}
use libcluster.Etcd.Keys.{sort_keys}
use libcluster.Etcd.Directory.{etcd_pass, roster, etcd_tally-eq-tally}
use libcluster.Etcd.Client.{reply, status, EtcdClient}
use libcluster.Etcd.Balance.{adopt, cluster_etcd_balance}

-- The callbacks after a pass: one more if the place has changed and there is a callback.
abbrev pub told : Cluster → ℤ → ℤ → List ClusterState → List ClusterState
told c base total calls =
    if (not (eq_ℤ total c.total_threads) || not (eq_ℤ base c.inst_index)) && c.balancer
    then callback_state (record c { inst_index = base; total_threads = total }) ∷ calls
    else calls

module _ {S : Type 0} where
  -- The world in which the instance knows its place.
  abbrev pub adopted : World S → ℤ → ℤ → World S
  adopted w base total = record w {
    cluster = record (w.cluster) { inst_index = base; total_threads = total };
    calls = told w.cluster base total w.calls;
  }

  pub adopt-eq :
      (base total : ℤ) (w : World S)
      → w.lock ≡ writing
      → adopt base total w ≡ ok (pos 0, adopted w base total)
  unfolding adopt
  adopt-eq base total w h =
      ground (arith, eq_ℤ-eq total w.cluster.total_threads, eq_ℤ-eq base w.cluster.inst_index)

module _ {S : Type 0} (J : Jansson) (client : EtcdClient J S) where
  -- A directory that can be read is adopted: the lock is held again at the end, the place is the
  -- one that a pass over the directory gives, and the callback is invoked just if that has changed.
  pub etcd_balance_adopts :
      (w : World S) (h : ℕ) (i : Bytes) (d : J.Json) (s : S) (base total : ℤ)
      → w.lock ≡ writing
      → w.cluster.etcd_envdir ≡ some h
      → w.cluster.instid ≡ live i
      → client.etcd_dir_get h w.server ≡ ok (reply d, s)
      → etcd_pass J d i ≡ ok (base, total)
      → cluster_etcd_balance J client true w
        ≡ ok (pos 0, adopted (record w { server = s }) base total)
  unfolding cluster_etcd_balance etcd_pass
  etcd_balance_adopts w h i d s base total locked dir name got pass =
      ground (arith, adopt-eq base total (record w { server = s }) locked)

  -- A directory that cannot be read changes nothing, and is reported.
  pub etcd_balance_unread :
      (alloc : Bool) (w : World S) (h : ℕ) (code : ℤ) (s : S)
      → w.cluster.etcd_envdir ≡ some h
      → client.etcd_dir_get h w.server ≡ ok (status code, s)
      → cluster_etcd_balance J client alloc w ≡ ok (negsuc 0, record w { server = s })
  unfolding cluster_etcd_balance
  etcd_balance_unread alloc w h code s dir got = ground arith

  -- cluster_etcd_balance_ with the write lock held, an environment directory and an identifier,
  -- where the registry answers with a directory whose counted entries are members of distinct
  -- names, their workers adding up to an int, and the keys can be allocated: it returns 0 with
  -- the lock held, the cluster holds as base the place in the members' table at which exactly
  -- the identifier's lines stand, or -1 where it is not among the members, and the table's
  -- length as total, and the callback is noted once if one is set and either value has changed,
  -- else not.
  pub etcd_balance_table :
      (w : World S) (h : ℕ) (i : Bytes) (d : J.Json) (s : S) (ms : List Member)
      → w.lock ≡ writing
      → w.cluster.etcd_envdir ≡ some h
      → w.cluster.instid ≡ live i
      → client.etcd_dir_get h w.server ≡ ok (reply d, s)
      → roster J d (sort_keys (J.keys d)) ≡ entries ms
      → Distinct ms
      → sum_workers ms ≤ int_max
      → (base : ℤ) × (cluster_etcd_balance J client true w
          ≡ ok (pos 0, adopted (record w { server = s }) base (pos (length (table ms)))))
        × IsBase i ms base
  unfolding etcd_pass
  etcd_balance_table w h i d s ms locked dir name got counted distinct small =
      let (base, r, b) = tally-IsBase i ms distinct small in
      (
        base,
        etcd_balance_adopts w h i d s base (pos (length (table ms))) locked dir name got (
            ground (
              arith,
              r,
              counted,
              etcd_tally-eq-tally J d i (sort_keys (J.keys d)) (negsuc 0) (pos 0),
            )),
        b,
      )
