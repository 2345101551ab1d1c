-- ===== src/ClusterTest/Calls.antt =====
-- One cluster in a process, and what the program's calls do to it.
use libcluster.Prelude.{
  ℕ, ◌==◌, Bool, true, false, ◌&&◌, some, List, [], ◌∷◌, ◌≡◌, refl, arith, ◌∙◌, if◌then◌else◌,
}
use libcluster.Prelude.Int.{ℤ, pos, negsuc, ◌+ℤ◌, fits_int, ltb_ℤ, leb_ℤ, eq_ℤ}
use libcluster.Prelude.Bytes.{Bytes}
use libcluster.Process.{ct_static, free, World, M, Outcome, ok, fault, Returns}
use libcluster.Cluster.Queries.{cluster_state}
use libcluster.Static.{cluster_static_join}
use libcluster.Membership.{Engine, cluster_join, cluster_join_passive}
use libcluster.Membership.Requests.{Request, perform}
use libcluster.Membership.Soundness.{IsSound}
use libcluster.Clusters.Links.Laws.{IsListed}
use libcluster.Clusters.Store.{Body, Store, at, after, world_of, Returns-ok, bind-ok}
use libcluster.ClusterTest.{configure, report}
use libcluster.ClusterTest.Layout.{Layout, place, place_all, ArePlain, IsStatic, perform-IsStatic}

-- The one cluster of a process, about which something holds.
pub record IsAlone {S : Type 0} (Q : World S → Type 0) (p : ℕ) (st : Store S) : Type 0 where
  pub listed : IsListed st.links (p ∷ [])
  pub unlocked : st.list_lock ≡ free
  pub body : Body
  pub there : st.bodies p ≡ some body
  pub holds : Q (world_of body st)

Returns_with :
    {A : Type 0} (r : Outcome A) (Q : A → Type 0) → Returns r Q → Returns r (λ a. Unit {0} × Q a)
Returns_with (ok a) Q q = (tt, q)
Returns_with (fault x) Q q = q

module _ {S A : Type 0} where
  at-ok :
      (p : ℕ) (m : M S A) (st : Store S) (b : Body) (a : A) (w : World S)
      → st.bodies p ≡ some b
      → m (world_of b st) ≡ ok (a, w)
      → at p m st ≡ ok (a, after p w st)
  at-ok p m st b a w there run = ground (arith, there, run)

  -- A call that returns keeps the cluster the only one.
  pub at-IsAlone :
      (Q R : World S → Type 0) (V : A → Type 0) (p : ℕ) (m : M S A) (st : Store S)
      → IsAlone Q p st
      → ((w : World S) → Q w → Returns (m w) (λ r. V r.0 × R r.1))
      → (a : A) × (st' : Store S) × (at p m st ≡ ok (a, st')) × V a × IsAlone R p st'
  at-IsAlone Q R V p m st one keeps =
      let (r, run, (v, then_holds)) =
        Returns-ok (m (world_of one.body st)) (λ r. V r.0 × R r.1)
          (keeps (world_of one.body st) one.holds) in
      let self : (p == p) ≡ true = ground arith in
      (
        r.0,
        after p r.1 st,
        at-ok p m st one.body r.0 r.1 one.there run,
        v,
        record {
          listed = one.listed;
          unlocked = one.unlocked;
          body = _;
          there = rw self refl;
          holds = then_holds;
        },
      )

-- The layouts that a static cluster accepts; without a total it has one worker.
abbrev pub full_total : Layout → ℤ
full_total l = if eq_ℤ l.total (pos 0) then pos 1 else l.total

abbrev pub is_valid : Layout → Bool
is_valid l = ltb_ℤ l.index (full_total l) && leb_ℤ (l.index +ℤ l.workers) (full_total l)

-- A connection that has joined a static cluster at this place.
pub record IsJoined {S : Type 0} (l : Layout) (w : World S) : Type 0 where
  pub sound : IsSound w
  pub joined : w.cluster.flags.joined ≡ true
  pub static : w.cluster.kind ≡ ct_static
  pub has_index : w.cluster.inst_index ≡ l.index
  pub has_workers : w.cluster.inst_threads ≡ l.workers

module _ {S : Type 0} (etcd sql : Engine S) where
  pub join-valid :
      (passive : Bool) (l : Layout) (w : World S)
      → is_valid l ≡ true
      → fits_int (l.index +ℤ l.workers) ≡ true
      → IsStatic l w
      → Returns
          ((if passive then cluster_join_passive etcd sql else cluster_join etcd sql) w)
          (λ r. (r.0 ≡ pos 0) × IsJoined l r.1)
  unfolding cluster_join cluster_join_passive cluster_static_join
  join-valid passive l w valid fits h = ground arith

  pub join-invalid :
      (passive : Bool) (l : Layout) (w : World S)
      → is_valid l ≡ false
      → fits_int (l.index +ℤ l.workers) ≡ true
      → IsStatic l w
      → Returns
          ((if passive then cluster_join_passive etcd sql else cluster_join etcd sql) w)
          (λ r. (r.0 ≡ negsuc 0) × (r.1.cluster.flags.joined ≡ false))
  unfolding cluster_join cluster_join_passive cluster_static_join
  join-invalid passive l w invalid fits h = ground arith

module _ {S : Type 0} where
  pub report-IsJoined :
      (l : Layout) (w : World S)
      → fits_int (l.index +ℤ l.workers) ≡ true
      → IsJoined l w
      → Returns (report w) (λ r. Unit {0} × IsJoined l r.1)
  unfolding report cluster_state
  report-IsJoined l w fits h = ground arith

  pub configure-IsAlone :
      (sql : Bytes → Bool) (p : ℕ) (rs : List Request) (l : Layout) (st : Store S)
      → ArePlain rs
      → IsAlone (IsStatic l) p st
      → (st' : Store S) × (configure sql p rs st ≡ ok (tt, st'))
        × IsAlone (IsStatic (place_all rs l)) p st'
  unfolding configure
  configure-IsAlone sql p [] l st plain one = (st, refl, one)
  configure-IsAlone sql p (r ∷ rs) l st (plain, plains) one =
      let (a, st₁, run, v, one₁) =
        at-IsAlone (IsStatic l) (IsStatic (place r l)) (λ a. Unit {0}) p (perform sql r) st one
          (λ w h. Returns_with (perform sql r w) _ (perform-IsStatic sql r l w plain h)) in
      let (st₂, rest, one₂) = configure-IsAlone sql p rs (place r l) st₁ plains one₁ in
      (st₂, bind-ok (at p (perform sql r)) (λ x. configure sql p rs) st st₁ a run ∙ rest, one₂)
