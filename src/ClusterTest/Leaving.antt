-- ===== src/ClusterTest/Leaving.antt =====
-- What becomes of a process that has joined.
use libcluster.Prelude.{ℕ, Bool, true, false, none, [], ◌∷◌, ◌≡◌, refl, arith, inl, if◌then◌else◌}
use libcluster.Prelude.Int.{ℤ, pos}
use libcluster.Process.{ok, Returns}
use libcluster.Membership.{Engine}
use libcluster.Clusters.Links.Laws.{IsListed}
use libcluster.Clusters.Store.{Store, Returns-ok}
use libcluster.Clusters.Create.{cluster_destroy}
use libcluster.Clusters.Create.Ended.{IsGone, cluster_destroy-IsGone}
use libcluster.Clusters.Fork.{Handlers, fork_hook}
use libcluster.Clusters.Fork.Hooks.{fork_hook-all_static}
use libcluster.ClusterTest.{
  Options, exit_success, exit_failure, Forked, fork_failed, in_child, in_parent, Circumstances,
  leave, after_fork, fork_and_leave,
}
use libcluster.ClusterTest.Layout.{Layout}
use libcluster.ClusterTest.Calls.{IsAlone, IsJoined}

-- What becomes of a process that forks: does it leave the cluster, and how does it exit?
abbrev pub fork_leaves : Forked → Bool
fork_leaves fork_failed = false
fork_leaves in_parent = false
fork_leaves in_child = true

abbrev pub fork_status : Forked → ℤ
fork_status fork_failed = exit_failure
fork_status in_parent = exit_success
fork_status in_child = exit_success

-- The same of a process that has joined.
abbrev pub leaves : Options → Forked → Bool
leaves o f = if o.dofork then fork_leaves f else true

abbrev pub status_after : Options → Forked → ℤ
status_after o f = if o.dofork then fork_status f else exit_success

-- A process that has left has no cluster any more; otherwise its cluster is still there.
abbrev pub HasLeft : {S : Type 0} → Bool → ℕ → Store S → Type 0
HasLeft true p st = IsListed st.links [] × (st.bodies p ≡ none)
HasLeft false p st = IsListed st.links (p ∷ [])

module _ {S : Type 0} (etcd sql : Engine S) (k : Circumstances S) where
  pub leave-HasLeft :
      (l : Layout) (p : ℕ) (st : Store S)
      → IsAlone (IsJoined l) p st
      → Returns (leave etcd sql k p st) (λ r. (r.0 ≡ exit_success) × HasLeft true p r.1)
  unfolding leave
  leave-HasLeft l p st one =
      let (r, run, (zero_result, gone)) =
        Returns-ok (cluster_destroy etcd sql p st) (λ r. (r.0 ≡ pos 0) × IsGone p [] st r.1)
          (cluster_destroy-IsGone etcd sql p [] [] st one.body one.listed one.unlocked one.there
            one.holds.sound (inl one.holds.static)) in
      rw run (refl, (gone.listed, gone.block))

  pub hook-IsAlone :
      (l : Layout) (h : Handlers S) (p : ℕ) (st : Store S)
      → IsAlone (IsJoined l) p st
      → fork_hook 1 h st ≡ ok (tt, st)
  hook-IsAlone l h p st one =
      fork_hook-all_static 1 h (p ∷ []) st one.listed (omega arith) one.unlocked
        ((one.body, one.there, one.holds.static), tt)

  pub after_fork-HasLeft :
      (f : Forked) (l : Layout) (p : ℕ) (st : Store S)
      → IsAlone (IsJoined l) p st
      → Returns
          (after_fork etcd sql k f p st)
          (λ r. (r.0 ≡ fork_status f) × HasLeft (fork_leaves f) p r.1)
  unfolding after_fork
  after_fork-HasLeft fork_failed l p st one =
      rw (hook-IsAlone l k.parent p st one) (refl, one.listed)
  after_fork-HasLeft in_parent l p st one = rw (hook-IsAlone l k.parent p st one) (refl, one.listed)
  after_fork-HasLeft in_child l p st one =
      rw (hook-IsAlone l k.child p st one) (leave-HasLeft l p st one)

  pub fork_and_leave-HasLeft :
      (l : Layout) (p : ℕ) (st : Store S)
      → IsAlone (IsJoined l) p st
      → Returns
          (fork_and_leave etcd sql k p st)
          (λ r. (r.0 ≡ fork_status k.forked) × HasLeft (fork_leaves k.forked) p r.1)
  unfolding fork_and_leave
  fork_and_leave-HasLeft l p st one =
      rw (hook-IsAlone l k.prepare p st one) (after_fork-HasLeft k.forked l p st one)
