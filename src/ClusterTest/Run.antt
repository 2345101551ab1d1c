-- ===== src/ClusterTest/Run.antt =====
-- The whole program, for a cluster without a registry.
use libcluster.Prelude.{
  ℕ, true, false, ◌&&◌, none, some, List, [], ◌≡◌, refl, ap, sym, ◌∙◌, Bool-cases, inl, inr, subst,
  if◌then◌else◌,
}
use libcluster.Prelude.Int.{ℤ, pos, negsuc, ◌+ℤ◌, fits_int}
use libcluster.Prelude.Bytes.{Bytes}
use libcluster.Process.{free, ok, Returns}
use libcluster.Cluster.Settings.{copy_alnum}
use libcluster.Membership.{Engine, cluster_join, cluster_join_passive}
use libcluster.Clusters.Links.Laws.{IsListed}
use libcluster.Clusters.Store.{Store, at, Returns-ok, bind-ok}
use libcluster.Clusters.Create.{cluster_create}
use libcluster.Clusters.Create.Listed.{
  all_succeed, created_cluster, IsCreated, cluster_create-IsCreated,
}
use libcluster.Clusters.Create.Undone.{created-IsSound}
use libcluster.ClusterTest.{
  Arg, Options, default_options, exit_failure, runs, read_options, settings, configure, report,
  Circumstances, leave, fork_and_leave, joined, join_and_leave, configured, run_parsed,
  cluster_test,
}
use libcluster.ClusterTest.Layout.{
  Layout, IsStatic, asked, new_layout, settings-ArePlain, settings-asked,
}
use libcluster.ClusterTest.Calls.{
  IsAlone, at-IsAlone, is_valid, IsJoined, join-valid, join-invalid, report-IsJoined,
  configure-IsAlone,
}
use libcluster.ClusterTest.Leaving.{
  leaves, status_after, HasLeft, leave-HasLeft, fork_and_leave-HasLeft,
}

module _ {S : Type 0} (etcd sql : Engine S) (k : Circumstances S) where
  -- Once the cluster has been joined.
  joined-HasLeft :
      (o : Options) (l : Layout) (p : ℕ) (st : Store S)
      → IsAlone (IsJoined l) p st
      → Returns
          ((if o.dofork then fork_and_leave etcd sql k p else leave etcd sql k p) st)
          (λ r. (r.0 ≡ status_after o k.forked) × HasLeft (leaves o k.forked) p r.1)
  joined-HasLeft o l p st one = elim (Bool-cases o.dofork) [
    | inl forks ↦ rw forks (fork_and_leave-HasLeft etcd sql k l p st one)
    | inr stays ↦ rw stays (leave-HasLeft etcd sql k l p st one)
  ]

  join_and_leave-valid :
      (o : Options) (l : Layout) (p : ℕ) (st : Store S)
      → is_valid l ≡ true
      → fits_int (l.index +ℤ l.workers) ≡ true
      → IsAlone (IsStatic l) p st
      → Returns
          (join_and_leave etcd sql k o p st)
          (λ r. (r.0 ≡ status_after o k.forked) × HasLeft (leaves o k.forked) p r.1)
  unfolding join_and_leave joined
  join_and_leave-valid o l p st valid fits one =
      let (r, st₁, run, good, one₁) =
        at-IsAlone (IsStatic l) (IsJoined l) (λ a. a ≡ pos 0) p
          (if o.passive then cluster_join_passive etcd sql else cluster_join etcd sql) st one
          (λ w h. join-valid etcd sql o.passive l w valid fits h) in
      let (u, st₂, told, v, one₂) =
        at-IsAlone (IsJoined l) (IsJoined l) (λ a. Unit {0}) p report st₁ one₁
          (λ w h. report-IsJoined l w fits h) in
      let result : join_and_leave etcd sql k o p st
          ≡ (if o.dofork then fork_and_leave etcd sql k p else leave etcd sql k p) st₂ =
        bind-ok (at p (if o.passive then cluster_join_passive etcd sql else cluster_join etcd sql))
          (joined etcd sql k o p) st st₁ r run
        ∙ ap (λ a. joined etcd sql k o p a st₁) good
        ∙ bind-ok (at p report)
            (λ x. if o.dofork then fork_and_leave etcd sql k p else leave etcd sql k p) st₁ st₂ u
            told in
      subst
        (λ x. Returns x (λ r. (r.0 ≡ status_after o k.forked) × HasLeft (leaves o k.forked) p r.1))
        (sym result) (joined-HasLeft o l p st₂ one₂)

  join_and_leave-invalid :
      (o : Options) (l : Layout) (p : ℕ) (st : Store S)
      → is_valid l ≡ false
      → fits_int (l.index +ℤ l.workers) ≡ true
      → IsAlone (IsStatic l) p st
      → Returns (join_and_leave etcd sql k o p st) (λ r. (r.0 ≡ exit_failure) × HasLeft false p r.1)
  unfolding join_and_leave joined
  join_and_leave-invalid o l p st invalid fits one =
      let (r, st₁, run, bad, one₁) =
        at-IsAlone (IsStatic l) (λ w. w.cluster.flags.joined ≡ false) (λ a. a ≡ negsuc 0) p
          (if o.passive then cluster_join_passive etcd sql else cluster_join etcd sql) st one
          (λ w h. join-invalid etcd sql o.passive l w invalid fits h) in
      let result : join_and_leave etcd sql k o p st ≡ ok (exit_failure, st₁) =
        bind-ok (at p (if o.passive then cluster_join_passive etcd sql else cluster_join etcd sql))
          (joined etcd sql k o p) st st₁ r run
        ∙ ap (λ a. joined etcd sql k o p a st₁) bad in
      subst (λ x. Returns x (λ r. (r.0 ≡ exit_failure) × HasLeft false p r.1)) (sym result)
        (refl, one₁.listed)

  created-IsAlone :
      (s key : Bytes) (st st' : Store S)
      → IsCreated k.address s key [] st st'
      → IsAlone (IsStatic new_layout) k.address st'
  created-IsAlone s key st st' made = record {
    listed = made.listed;
    unlocked = made.unlocked;
    body = record { cluster = created_cluster s key; lock = free; calls = [] };
    there = made.block;
    holds = record {
      sound = created-IsSound etcd sql s key st';
      apart = refl;
      static = refl;
      has_index = refl;
      has_workers = refl;
      has_total = refl;
    };
  }

  configured-HasLeft :
      (o : Options) (p : ℕ) (st : Store S)
      → o.registry ≡ none
      → fits_int ((asked o).index +ℤ (asked o).workers) ≡ true
      → IsAlone (IsStatic new_layout) p st
      → Returns (configured etcd sql k o (some p) st) (λ r.
        (r.0 ≡ (if is_valid (asked o) then status_after o k.forked else exit_failure))
        × HasLeft (is_valid (asked o) && leaves o k.forked) p r.1)
  unfolding configured
  configured-HasLeft o p st free_of fits one =
      let (st', run, placed) =
        configure-IsAlone k.sql_scheme_exists p (settings k.copies o) new_layout st
          (settings-ArePlain k.copies o free_of) one in
      let one' : IsAlone (IsStatic (asked o)) p st' =
        subst (λ l. IsAlone (IsStatic l) p st') (settings-asked k.copies o free_of) placed in
      subst
        (λ x. Returns x (λ r.
          (r.0 ≡ (if is_valid (asked o) then status_after o k.forked else exit_failure))
          × HasLeft (is_valid (asked o) && leaves o k.forked) p r.1))
        (sym (
          bind-ok (configure k.sql_scheme_exists p (settings k.copies o))
            (λ x. join_and_leave etcd sql k o p) st st' tt run))
        (elim (Bool-cases (is_valid (asked o))) [
          | inl valid ↦ rw valid (join_and_leave-valid o (asked o) p st' valid fits one')
          | inr invalid ↦ rw invalid (join_and_leave-invalid o (asked o) p st' invalid fits one')
        ])

  -- The program of cluster-test.c, in a process with no cluster and the list's lock free, whose
  -- command line has neither -h nor an option that is unknown or lacks its argument, sets no
  -- registry and gives an index and a number of workers that add up to an int, where the
  -- allocations of cluster_create succeed and the UUID's text fits its buffer: main returns,
  -- whatever else is asked for and fork gives. The exit status is 0 exactly if the layout asked
  -- for is valid (the index is below the total and the workers end within it; a negative index
  -- counts as 0, no workers as 1, and a total that is not positive as 1) and, with -F, fork does
  -- not fail. If the layout is valid, and the process is neither the parent of a fork nor one
  -- whose fork failed, no cluster is listed at the end and the new one's memory is freed; else
  -- it is the one cluster in the list.
  pub cluster_test-HasLeft :
      (atoi : Bytes → ℤ) (args : List Arg) (o : Options) (s : Bytes) (st : Store S)
      → read_options atoi args default_options ≡ runs o
      → o.registry ≡ none
      → fits_int ((asked o).index +ℤ (asked o).workers) ≡ true
      → k.allocs ≡ all_succeed
      → copy_alnum 33 k.uuid ≡ some s
      → IsListed st.links []
      → st.list_lock ≡ free
      → Returns (cluster_test etcd sql k atoi args st) (λ r.
        (r.0 ≡ (if is_valid (asked o) then status_after o k.forked else exit_failure))
        × HasLeft (is_valid (asked o) && leaves o k.forked) k.address r.1)
  unfolding cluster_test
  cluster_test-HasLeft atoi args o s st parsed free_of fits good text empty unlocked =
      let ((m, st'), made, (is_p, new)) =
        Returns-ok (cluster_create etcd sql all_succeed k.uuid k.address o.key st)
          (λ r. (r.0 ≡ some k.address) × IsCreated k.address s o.key [] st r.1)
          (cluster_create-IsCreated etcd sql k.uuid s k.address o.key [] st text empty refl
            unlocked) in
      let run : cluster_create etcd sql k.allocs k.uuid k.address o.key st ≡ ok (m, st') =
        ap (λ a. cluster_create etcd sql a k.uuid k.address o.key st) good ∙ made in
      let result : cluster_test etcd sql k atoi args st
          ≡ configured etcd sql k o (some k.address) st' =
        ap (λ x. run_parsed etcd sql k x st) parsed
        ∙ bind-ok (cluster_create etcd sql k.allocs k.uuid k.address o.key)
            (configured etcd sql k o) st st' m run
        ∙ ap (λ x. configured etcd sql k o x st') is_p in
      subst
        (λ x. Returns x (λ r.
          (r.0 ≡ (if is_valid (asked o) then status_after o k.forked else exit_failure))
          × HasLeft (is_valid (asked o) && leaves o k.forked) k.address r.1))
        (sym result)
        (configured-HasLeft o k.address st' free_of fits (created-IsAlone s o.key st st' new))
