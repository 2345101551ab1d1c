-- ===== src/Tests/ClusterTest.antt =====
-- The program with -n 2 -I 1 -T 4 -F, in the process that forks.
use libcluster.Prelude.{ℕ, ◌&&◌, ◌-◌, true, none, List, [], ◌∷◌, ◌≡◌, refl, if◌then◌else◌}
use libcluster.Prelude.Int.{ℤ, pos}
use libcluster.Prelude.Bytes.{Bytes}
use libcluster.Process.{free, success, Returns}
use libcluster.Clusters.Links.Laws.{IsListed}
use libcluster.Clusters.Store.{Store}
use libcluster.Clusters.Create.Listed.{all_succeed}
use libcluster.Clusters.Fork.{prepare_handlers, child_handlers, parent_handlers}
use libcluster.Etcd.Session.{pass_after}
use libcluster.ClusterTest.{
  Arg, opt_n, opt_I, opt_T, opt_F, Options, default_options, read_options, runs, in_parent,
  Circumstances, cluster_test, exit_failure,
}
use libcluster.ClusterTest.Layout.{asked}
use libcluster.ClusterTest.Calls.{is_valid}
use libcluster.ClusterTest.Leaving.{leaves, status_after, HasLeft}
use libcluster.ClusterTest.Run.{cluster_test-HasLeft}
use libcluster.Tests.Clusters.{etcd, sql, name, uuid, named}
use libcluster.Tests.Samples.{json, registry, database}

-- A digit.
abbrev atoi : Bytes → ℤ
atoi [] = pos 0
atoi (c ∷ cs) = pos (c - b'0')

abbrev args : List Arg
args = opt_n (b'2' ∷ []) ∷ opt_I (b'1' ∷ []) ∷ opt_T (b'4' ∷ []) ∷ opt_F ∷ []

abbrev options : Options
options = record default_options {
  nworkers = pos 2;
  instindex = pos 1;
  total = pos 4;
  dofork = true;
}

abbrev circumstances : Circumstances ℕ
circumstances = record {
  allocs = all_succeed;
  copies = record { partition_ok = true; env_ok = true; instid_ok = true; registry_ok = true };
  uuid = uuid;
  address = 3;
  forked = in_parent;
  prepare = prepare_handlers json registry database (λ p. pass_after) (λ p. true);
  child = child_handlers json registry database (λ p. true) (λ p. uuid) (λ p. true);
  parent = parent_handlers json registry database (λ p. true);
  sql_scheme_exists = λ s. true;
}

abbrev new_process : Store ℕ
new_process = record {
  links = record { first = none; last = none; prev = λ p. none; next = λ p. none };
  list_lock = free;
  bodies = λ p. none;
  errno = success;
  server = 0;
}

no_clusters : IsListed new_process.links []
no_clusters = record { starts = refl; chained = refl; distinct = tt }

parsed : read_options atoi args default_options ≡ runs options
unfolding read_options
parsed = refl

cluster_test-HasLeft_example :
    Returns (cluster_test etcd sql circumstances atoi args new_process) (λ r.
      (r.0 ≡ (if is_valid (asked options) then status_after options in_parent else exit_failure))
      × HasLeft (is_valid (asked options) && leaves options in_parent) 3 r.1)
cluster_test-HasLeft_example =
    cluster_test-HasLeft etcd sql circumstances atoi args options name new_process parsed refl refl
      refl named no_clusters refl
