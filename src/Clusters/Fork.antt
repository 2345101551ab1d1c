-- ===== src/Clusters/Fork.antt =====
-- cluster.c: the three functions that `pthread_atfork` registers, which call the handlers of the
-- engines for every cluster of the list.
pub mod Visits
pub mod Hooks
use libcluster.Prelude.{ℕ, zero, suc, Bool, Option, none, some}
use libcluster.Prelude.Bytes.{Bytes}
use libcluster.Process as Process
use libcluster.Process.{M, ClusterType, ct_static, ct_etcd, ct_sql, get_cluster}
use libcluster.Jansson.{Jansson}
use libcluster.Etcd.Client.{EtcdClient}
use libcluster.Etcd.Session.{Late}
use libcluster.Etcd.Fork.{cluster_etcd_prepare, cluster_etcd_child, cluster_etcd_parent}
use libcluster.Sql.Client.{SqlClient}
use libcluster.Sql.Fork.{cluster_sql_prepare, cluster_sql_child, cluster_sql_parent}
use libcluster.Clusters.Links.{Links}
use libcluster.Clusters.Store.{
  P, pure, at, ◌>>=◌, ◌>>◌, get_links, cluster_list_rdlock, cluster_list_unlock,
}

-- The handlers of the two engines around one side of `fork()`, for the cluster at an address.
pub record Handlers (S : Type 0) : Type 0 where
  pub etcd : ℕ → M S (Unit {0})
  pub sql : ℕ → M S (Unit {0})

module _ {S : Type 0} where
  abbrev pub handle_kind : Handlers S → ℕ → ClusterType → M S (Unit {0})
  handle_kind h p ct_static = Process.pure tt
  handle_kind h p ct_etcd = h.etcd p
  handle_kind h p ct_sql = h.sql p

  -- `switch(p->type)`
  unfoldable pub handle : Handlers S → ℕ → M S (Unit {0})
  handle h p w = handle_kind h p w.cluster.kind w

  -- `for(; o; o = o->next)`, in as many rounds as there is fuel.
  unfoldable pub each_cluster : ℕ → (ℕ → M S (Unit {0})) → Option ℕ → P S (Unit {0})
  each_cluster zero m o = pure tt
  each_cluster (suc fuel) m none = pure tt
  each_cluster (suc fuel) m (some p) =
      at p (m p) >> (get_links >>= λ l. each_cluster fuel m (l.next p))

  unfoldable pub fork_hook : ℕ → Handlers S → P S (Unit {0})
  unfolding cluster_list_rdlock cluster_list_unlock
  fork_hook fuel h = do
    cluster_list_rdlock
    l ← get_links
    each_cluster fuel (handle h) l.first
    cluster_list_unlock

module _ {S : Type 0} (J : Jansson) (etcd : EtcdClient J S) (sql : SqlClient S) where
  -- For every cluster: what its balancing thread's last pass sees, and whether its allocations
  -- succeed.
  abbrev pub prepare_handlers : (ℕ → Late) → (ℕ → Bool) → Handlers S
  prepare_handlers late calloc_ok = record {
    etcd = λ p. cluster_etcd_prepare J etcd (late p) (calloc_ok p);
    sql = λ p. cluster_sql_prepare sql (late p);
  }

  abbrev pub child_handlers : (ℕ → Bool) → (ℕ → Bytes) → (ℕ → Bool) → Handlers S
  child_handlers malloc_ok uuid calloc_ok = record {
    etcd = λ p. cluster_etcd_child J etcd (malloc_ok p) (uuid p) (calloc_ok p);
    sql = λ p. cluster_sql_child sql (malloc_ok p) (uuid p);
  }

  abbrev pub parent_handlers : (ℕ → Bool) → Handlers S
  parent_handlers calloc_ok = record {
    etcd = λ p. cluster_etcd_parent J etcd (calloc_ok p);
    sql = λ p. cluster_sql_parent sql;
  }

  unfoldable pub cluster_fork_prepare : ℕ → (ℕ → Late) → (ℕ → Bool) → P S (Unit {0})
  unfolding fork_hook
  cluster_fork_prepare fuel late calloc_ok = fork_hook fuel (prepare_handlers late calloc_ok)

  unfoldable pub cluster_fork_child : ℕ → (ℕ → Bool) → (ℕ → Bytes) → (ℕ → Bool) → P S (Unit {0})
  unfolding fork_hook
  cluster_fork_child fuel malloc_ok uuid calloc_ok =
      fork_hook fuel (child_handlers malloc_ok uuid calloc_ok)

  unfoldable pub cluster_fork_parent : ℕ → (ℕ → Bool) → P S (Unit {0})
  unfolding fork_hook
  cluster_fork_parent fuel calloc_ok = fork_hook fuel (parent_handlers calloc_ok)
