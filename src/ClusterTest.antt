-- ===== src/ClusterTest.antt =====
-- util/cluster-test.c: the program that joins a cluster, waits for a signal and leaves. What getopt
-- makes of the command line is data, and `atoi` is a parameter. Printing is left out.
pub mod Layout
pub mod Calls
pub mod Leaving
pub mod Run
use libcluster.Prelude.{
  ℕ, Bool, true, false, not, Option, none, some, List, [], ◌∷◌, ◌++◌, if◌then◌else◌,
}
use libcluster.Prelude.Int.{ℤ, pos, eq_ℤ}
use libcluster.Prelude.Bytes.{Bytes}
use libcluster.Process as Process
use libcluster.Process.{M, ok, add_int}
use libcluster.Cluster.Queries.{cluster_state}
use libcluster.Membership.{Engine, cluster_join, cluster_join_passive}
use libcluster.Membership.Requests.{
  Request, set_env, set_instance, set_partition, set_registry, set_workers, set_verbose,
  set_balancer, set_logger, static_set_index, static_set_total, perform,
}
use libcluster.Clusters.Store.{P, pure, at, ◌>>=◌, ◌>>◌}
use libcluster.Clusters.Create.{Allocs, cluster_create, cluster_destroy}
use libcluster.Clusters.Fork.{Handlers, fork_hook}

-- What `getopt` returns, with `optarg`.
pub data Arg : Type 0 where
  opt_h opt_v opt_F opt_P opt_unknown : Arg
  opt_k opt_e opt_i opt_n opt_r opt_I opt_T opt_p : Bytes → Arg

-- The variables of `main`; `key` is given apart.
pub record Options : Type 0 where
  pub key : Bytes
  pub env : Option Bytes
  pub registry : Option Bytes
  pub instid : Option Bytes
  pub partition : Option Bytes
  pub nworkers : ℤ
  pub instindex : ℤ
  pub total : ℤ
  pub verbose : Bool
  pub dofork : Bool
  pub passive : Bool

-- "cluster-test"
abbrev pub default_key : Bytes
default_key = b'c' ∷ b'l' ∷ b'u' ∷ b's' ∷ b't' ∷ b'e' ∷ b'r' ∷ b'-' ∷ b't' ∷ b'e' ∷ b's' ∷ b't' ∷ []

abbrev pub default_options : Options
default_options = record {
  key = default_key;
  env = none;
  registry = none;
  instid = none;
  partition = none;
  nworkers = pos 0;
  instindex = pos 0;
  total = pos 0;
  verbose = false;
  dofork = false;
  passive = false;
}

-- EXIT_SUCCESS, EXIT_FAILURE
abbrev pub exit_success : ℤ
exit_success = pos 0

abbrev pub exit_failure : ℤ
exit_failure = pos 1

-- The loop over the options ends the program, or comes to its end.
pub data Parsed : Type 0 where
  exits : ℤ → Parsed
  runs : Options → Parsed

module _ (atoi : Bytes → ℤ) where
  unfoldable pub read_options : List Arg → Options → Parsed
  read_options [] o = runs o
  read_options (opt_h ∷ args) o = exits exit_success
  read_options (opt_unknown ∷ args) o = exits exit_failure
  read_options (opt_v ∷ args) o = read_options args (record o { verbose = true })
  read_options (opt_F ∷ args) o = read_options args (record o { dofork = true })
  read_options (opt_P ∷ args) o = read_options args (record o { passive = true })
  read_options (opt_k s ∷ args) o = read_options args (record o { key = s })
  read_options (opt_e s ∷ args) o = read_options args (record o { env = some s })
  read_options (opt_i s ∷ args) o = read_options args (record o { instid = some s })
  read_options (opt_n s ∷ args) o = read_options args (record o { nworkers = atoi s })
  read_options (opt_r s ∷ args) o = read_options args (record o { registry = some s })
  read_options (opt_I s ∷ args) o = read_options args (record o { instindex = atoi s })
  read_options (opt_T s ∷ args) o = read_options args (record o { total = atoi s })
  read_options (opt_p s ∷ args) o = read_options args (record o { partition = some s })

-- Which of the copies of strings succeed.
pub record Copies : Type 0 where
  pub partition_ok : Bool
  pub env_ok : Bool
  pub instid_ok : Bool
  pub registry_ok : Bool

-- `if(s) cluster_set_…(cluster, s)`
abbrev pub if_given : Option Bytes → (Option Bytes → Request) → List Request
if_given none f = []
if_given (some s) f = f (some s) ∷ []

-- `if(n) cluster_…(cluster, n)`
abbrev pub if_set : ℤ → (ℤ → Request) → List Request
if_set n f = if eq_ℤ n (pos 0) then [] else f n ∷ []

-- The calls between making the connection and joining, in their order.
unfoldable pub settings : Copies → Options → List Request
settings copies o =
    set_logger true
    ∷ set_balancer true
    ∷ set_verbose (if o.verbose then pos 1 else pos 0)
    ∷ set_partition copies.partition_ok o.partition
    ∷ (if_given o.env (set_env copies.env_ok)
        ++ (if_given o.instid (set_instance copies.instid_ok)
            ++ (if_given o.registry (set_registry copies.registry_ok)
                ++ (if_set o.nworkers set_workers
                    ++ (if_set o.instindex static_set_index ++ if_set o.total static_set_total)))))

-- What `fork()` returns.
pub data Forked : Type 0 where
  fork_failed in_child in_parent : Forked

module _ {S : Type 0} where
  -- The state that is asked for, and the message: it adds up the index and the workers.
  unfoldable pub report : M S (Unit {0})
  unfolding cluster_state
  report = Process.◌>>=◌ cluster_state (λ state.
      if state.passive
      then Process.pure tt
      else Process.◌>>=◌ (add_int state.index state.workers) (λ last. Process.pure tt))

  -- The results of these calls are not looked at.
  unfoldable pub configure : (Bytes → Bool) → ℕ → List Request → P S (Unit {0})
  configure sql_scheme_exists p [] = pure tt
  configure sql_scheme_exists p (r ∷ rs) = do
    _ ← at p (perform sql_scheme_exists r)
    configure sql_scheme_exists p rs

-- What the program's run depends on: the call's allocations, the text of the UUID, the address of the
-- cluster, and what `fork` gives, with the handlers that run before and after it.
pub record Circumstances (S : Type 0) : Type 0 where
  pub allocs : Allocs
  pub copies : Copies
  pub uuid : Bytes
  pub address : ℕ
  pub forked : Forked
  pub prepare : Handlers S
  pub child : Handlers S
  pub parent : Handlers S
  pub sql_scheme_exists : Bytes → Bool

module _ {S : Type 0} (etcd sql : Engine S) (k : Circumstances S) where
  -- From the end of the wait for a signal on.
  unfoldable pub leave : ℕ → P S ℤ
  unfolding cluster_destroy
  leave p = do _ ← cluster_destroy etcd sql p; pure exit_success

  unfoldable pub after_fork : Forked → ℕ → P S ℤ
  unfolding fork_hook leave
  after_fork fork_failed p = do fork_hook 1 k.parent; pure exit_failure
  after_fork in_parent p = do fork_hook 1 k.parent; pure exit_success
  after_fork in_child p = do fork_hook 1 k.child; leave p

  -- `fork()`, of a process with one cluster.
  unfoldable pub fork_and_leave : ℕ → P S ℤ
  unfolding fork_hook after_fork
  fork_and_leave p = do fork_hook 1 k.prepare; after_fork k.forked p

  -- From the result of joining on.
  unfoldable pub joined : Options → ℕ → ℤ → P S ℤ
  unfolding report fork_and_leave leave
  joined o p r =
      if not (eq_ℤ r (pos 0))
      then pure exit_failure
      else (do at p report; if o.dofork then fork_and_leave p else leave p)

  unfoldable pub join_and_leave : Options → ℕ → P S ℤ
  unfolding joined cluster_join cluster_join_passive
  join_and_leave o p = do
    r ← at p (if o.passive then cluster_join_passive etcd sql else cluster_join etcd sql)
    joined o p r

  -- From the making of the connection on.
  unfoldable pub configured : Options → Option ℕ → P S ℤ
  unfolding settings configure join_and_leave
  configured o none = pure exit_failure
  configured o (some p) = do
    configure k.sql_scheme_exists p (settings k.copies o)
    join_and_leave o p

  -- From the end of the loop over the options on.
  unfoldable pub run_parsed : Parsed → P S ℤ
  unfolding configured cluster_create
  run_parsed (exits status) = pure status
  run_parsed (runs o) = do
    made ← cluster_create etcd sql k.allocs k.uuid k.address o.key
    configured o made

  -- `main`: the exit status.
  unfoldable pub cluster_test : (Bytes → ℤ) → List Arg → P S ℤ
  unfolding read_options run_parsed
  cluster_test atoi args = run_parsed (read_options atoi args default_options)
