-- ===== src/Etcd/Threads/Leaving.antt =====
-- The threads of an etcd member end when it leaves, in whatever order they run.
use libcluster.Prelude.{ℕ, ◌≤◌, true, Option, none, some, ◌≡◌, refl, inl, inr, arith}
use libcluster.Prelude.Int.{ℤ, pos, negsuc, eq_ℤ}
use libcluster.Prelude.Decimal.{print_int}
use libcluster.Prelude.Bytes.{Bytes}
use libcluster.Process.{live, free, writing, Cluster, World, ok, Returns, cluster_wrlock, ◌>>◌}
use libcluster.Jansson.{Jansson}
use libcluster.Etcd.Client.{EtcdClient}
use libcluster.Etcd.Balance.{cluster_etcd_ping, cluster_etcd_unping}
use libcluster.Etcd.Balance.Result.{adopted, etcd_balance_adopts, etcd_balance_unread}
use libcluster.Etcd.Session.{close_all}
use libcluster.Etcd.Session.Whole.{IsCalm, IsApart, close_all-eq}
use libcluster.Etcd.Threads.{clone_envdir, wait_for_changes, close_clone, etcd_loops}
use libcluster.Threads.{System, Run}
use libcluster.Threads.Steps.{IsQuiet, IsSteady, Run-Keeps}
use libcluster.Threads.Ending.{IsFinished, Run-finishes}

-- A cluster with a directory and an identifier.
pub record IsServing (c : Cluster) : Type 0 where
  pub has_envdir : (h : ℕ) × (c.etcd_envdir ≡ some h)
  pub has_name : (i : Bytes) × (c.instid ≡ live i)

module _ {S : Type 0} (J : Jansson) (client : EtcdClient J S) (calm : IsCalm J client) where
  balance-runs :
      (w : World S)
      → IsServing w.cluster
      → w.lock ≡ writing
      → (r : ℤ) × (w' : World S) × ((etcd_loops J client true).balance w ≡ ok (r, w'))
        × (w'.lock ≡ writing)
        × (w'.cluster.flags ≡ w.cluster.flags)
        × IsServing w'.cluster
  balance-runs w serving locked =
      let (h, dir) = serving.has_envdir in
      let (i, name) = serving.has_name in
      elim (calm.answers h i w.server) [
        | inl (d, s, base, total, got, pass) ↦ (
          pos 0,
          adopted (record w { server = s }) base total,
          etcd_balance_adopts J client w h i d s base total locked dir name got pass,
          locked,
          refl,
          record { has_envdir = (h, dir); has_name = (i, name) },
        )
        | inr (code, s, got) ↦ (
          negsuc 0,
          record w { server = s },
          etcd_balance_unread J client true w h code s dir got,
          locked,
          refl,
          serving,
        )
      ]

  close_clone-runs :
      (l : Option ℕ) (w : World S)
      → (s : S) × (close_clone J client l w ≡ ok (tt, record w { server = s }))
  unfolding close_clone
  close_clone-runs none w = (w.server, refl)
  close_clone-runs (some d) w = (client.etcd_dir_close d w.server, refl)

  pub etcd_loops-IsQuiet : IsQuiet (etcd_loops J client true) IsServing
  unfolding cluster_etcd_ping cluster_etcd_unping clone_envdir wait_for_changes
  etcd_loops-IsQuiet = record {
    ping_runs = λ w h.
        let r =
          client.etcd_key_set_ttl h.has_envdir.0 h.has_name.0 (print_int w.cluster.inst_threads)
            w.cluster.ttl true w.server in
        (r.0, r.1, ground (arith, h.has_envdir.1, h.has_name.1));
    unping_runs = λ w h.
        let r = client.etcd_key_delete h.has_envdir.0 h.has_name.0 w.server in
        (r.0, r.1, ground (arith, h.has_envdir.1, h.has_name.1));
    start_runs = λ w h.
        let r = client.etcd_clone h.has_envdir.0 w.server in
        (r.0, r.1, ground (arith, h.has_envdir.1));
    wait_runs = λ l w h.
        let r = client.etcd_dir_wait h.has_envdir.0 true w.server in
        (eq_ℤ r.0 (pos 0), l, r.1, ground (arith, h.has_envdir.1));
    stop_runs = close_clone-runs;
    balance_runs = balance-runs;
  }

  threads-IsApart :
      {x y : System S (Option ℕ)} {n : ℕ}
      → Run (etcd_loops J client true) x n y
      → IsSteady (etcd_loops J client true) IsServing x.world
      → Returns ((do cluster_wrlock; close_all J client) y.world) (λ r. (r.0 ≡ pos 0) × IsApart r.1)
  unfolding cluster_wrlock
  threads-IsApart {y} run steady =
      let kept = Run-Keeps (etcd_loops J client true) IsServing etcd_loops-IsQuiet run steady in
      ground (
        arith,
        kept.steady.unlocked,
        close_all-eq J client (record (y.world) { lock = writing }) refl,
      )

  -- Take any run of the two threads of an etcd member, in any order and with the registry
  -- changing in between, from a state in which the connection is unlocked, has an environment
  -- directory and an identifier, and is told to leave; the registry's directory reads answer
  -- with a status or with a directory over which a pass ends, and the keys' allocation succeeds.
  -- The run has at most 8 steps, it can be continued to one in which both threads have ended,
  -- and closing the handles after it returns 0 and leaves the connection apart: unlocked, not
  -- joined, not leaving, no thread, no handle.
  pub etcd_threads_end :
      {x y : System S (Option ℕ)} {n : ℕ}
      → Run (etcd_loops J client true) x n y
      → x.world.lock ≡ free
      → IsServing x.world.cluster
      → x.world.cluster.flags.leaving ≡ true
      → (n ≤ 8)
        × ((m : ℕ) × (z : System S (Option ℕ)) × Run (etcd_loops J client true) y m z
            × IsFinished z)
        × Returns
            ((do cluster_wrlock; close_all J client) y.world)
            (λ r. (r.0 ≡ pos 0) × IsApart r.1)
  etcd_threads_end {x} {y} run unlocked serving leaving =
      let steady : IsSteady (etcd_loops J client true) IsServing x.world = record {
        unlocked = unlocked;
        held = serving;
      } in
      let (short, ending) =
        Run-finishes (etcd_loops J client true) IsServing etcd_loops-IsQuiet run steady leaving in
      (short, ending, threads-IsApart run steady)
