-- ===== src/Etcd/Threads.antt =====
-- engines/etcd.c: what the loops of the two threads call.
-- The engine waits for changes with the lock released, and reads the handle without it.
pub mod Leaving
use libcluster.Prelude.{ℕ, Bool, true, Option}
use libcluster.Prelude.Int.{pos, eq_ℤ}
use libcluster.Process.{M, pure, ◌>>=◌, get_cluster}
use libcluster.Jansson.{Jansson}
use libcluster.Etcd.Client.{EtcdClient}
use libcluster.Etcd.Balance.{
  on_server, deref, cluster_etcd_ping, cluster_etcd_unping, cluster_etcd_balance,
}
use libcluster.Etcd.Session.{close_with}
use libcluster.Threads.{Loops}

module _ {S : Type 0} (J : Jansson) (client : EtcdClient J S) where
  open client use {etcd_clone, etcd_dir_wait, etcd_dir_close}

  -- The balancing thread keeps a clone of the directory's handle, and closes it in the end.
  unfoldable pub clone_envdir : M S (Option ℕ)
  clone_envdir = do c ← get_cluster; h ← deref c.etcd_envdir; on_server (etcd_clone h)

  -- A wait that fails is followed by 30 seconds of sleep, and by no re-balancing.
  unfoldable pub wait_for_changes : Option ℕ → M S (Bool × Option ℕ)
  wait_for_changes dir = do
    c ← get_cluster
    h ← deref c.etcd_envdir
    r ← on_server (etcd_dir_wait h true)
    pure (eq_ℤ r (pos 0), dir)

  unfoldable pub close_clone : Option ℕ → M S (Unit {0})
  close_clone dir = close_with etcd_dir_close dir

  abbrev pub etcd_loops : Bool → Loops S (Option ℕ)
  etcd_loops calloc_ok = record {
    ping = cluster_etcd_ping J client true;
    unping = cluster_etcd_unping J client;
    start = clone_envdir;
    wait = wait_for_changes;
    balance = cluster_etcd_balance J client calloc_ok;
    stop = close_clone;
  }
