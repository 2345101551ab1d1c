-- ===== src/ClusterTest/Layout.antt =====
-- What the settings make of a connection that has no registry.
use mathlib.Core.List.{append-nil}
use libcluster.Prelude.{
  Bool, false, Option, none, some, List, [], ◌∷◌, ◌++◌, ◌≡◌, arith, refl, ap, ◌∙◌, inl, inr,
  Bool-cases, if◌then◌else◌,
}
use libcluster.Prelude.Int.{ℤ, pos, ltb_ℤ, eq_ℤ}
use libcluster.Prelude.Bytes.{Bytes}
use libcluster.Process.{ct_static, World, Returns}
use libcluster.Cluster.Settings.{
  cluster_set_env, cluster_set_instance, cluster_set_partition, cluster_set_workers,
  cluster_set_verbose, cluster_set_balancer, cluster_set_logger,
}
use libcluster.Cluster.Queries.{cluster_total, cluster_workers, cluster_state, cluster_rebalanced}
use libcluster.Static.{cluster_static_set_index, cluster_static_set_total}
use libcluster.Membership.Requests.{
  Request, set_env, set_instance, set_partition, set_registry, reset_instance, set_workers,
  set_verbose, set_balancer, set_logger, static_set_index, static_set_total, index, total, workers,
  state, rebalanced, perform,
}
use libcluster.Membership.Soundness.{IsSound}
use libcluster.ClusterTest.{Copies, Options, if_given, if_set, settings}

-- The place of a member in a static cluster.
pub record Layout : Type 0 where
  pub index : ℤ
  pub workers : ℤ
  pub total : ℤ

-- What a call makes of it: an index below 0 and a total below 1 are refused.
abbrev pub place : Request → Layout → Layout
place (set_workers n) l = record l { workers = n }
place (static_set_index n) l = if ltb_ℤ n (pos 0) then l else record l { index = n }
place (static_set_total n) l = if ltb_ℤ n (pos 1) then l else record l { total = n }
place _ l = l

abbrev pub place_all : List Request → Layout → Layout
place_all [] l = l
place_all (r ∷ rs) l = place_all rs (place r l)

-- A call that leaves the registry and the identifier's generation alone.
abbrev pub IsPlain : Request → Type 0
IsPlain (set_registry a s) = ⊥
IsPlain (reset_instance a u) = ⊥
IsPlain (index n) = ⊥
IsPlain _ = Unit {0}

abbrev pub ArePlain : List Request → Type 0
ArePlain [] = Unit {0}
ArePlain (r ∷ rs) = IsPlain r × ArePlain rs

-- A connection at rest without a registry, with this place, not joined.
pub record IsStatic {S : Type 0} (l : Layout) (w : World S) : Type 0 where
  pub sound : IsSound w
  pub apart : w.cluster.flags.joined ≡ false
  pub static : w.cluster.kind ≡ ct_static
  pub has_index : w.cluster.inst_index ≡ l.index
  pub has_workers : w.cluster.inst_threads ≡ l.workers
  pub has_total : w.cluster.total_threads ≡ l.total

module _ {S : Type 0} (sql : Bytes → Bool) where
  pub perform-IsStatic :
      (r : Request) (l : Layout) (w : World S)
      → IsPlain r
      → IsStatic l w
      → Returns (perform sql r w) (λ x. IsStatic (place r l) x.1)
  unfolding cluster_set_env cluster_set_instance cluster_set_partition cluster_set_workers
      cluster_set_verbose cluster_static_set_index cluster_static_set_total cluster_total
      cluster_workers cluster_state cluster_rebalanced cluster_set_balancer cluster_set_logger
  perform-IsStatic (set_env a e) l w p h = ground arith
  perform-IsStatic (set_instance a e) l w p h = ground arith
  perform-IsStatic (set_partition a e) l w p h = ground arith
  perform-IsStatic (set_registry a u) l w p h = absurd p
  perform-IsStatic (reset_instance a u) l w p h = absurd p
  perform-IsStatic (set_workers n) l w p h = ground arith
  perform-IsStatic (set_verbose n) l w p h = ground arith
  perform-IsStatic (set_balancer n) l w p h = ground arith
  perform-IsStatic (set_logger n) l w p h = ground arith
  perform-IsStatic (static_set_index n) l w p h = ground arith
  perform-IsStatic (static_set_total n) l w p h = ground arith
  perform-IsStatic (index n) l w p h = absurd p
  perform-IsStatic total l w p h = ground arith
  perform-IsStatic workers l w p h = ground arith
  perform-IsStatic state l w p h = ground arith
  perform-IsStatic rebalanced l w p h = ground arith

-- The place that the options ask for, as a new connection has index 0 and one worker.
abbrev pub asked : Options → Layout
asked o = record {
  index = if ltb_ℤ o.instindex (pos 0) then pos 0 else o.instindex;
  workers = if eq_ℤ o.nworkers (pos 0) then pos 1 else o.nworkers;
  total = if ltb_ℤ o.total (pos 1) then pos 0 else o.total;
}

abbrev pub new_layout : Layout
new_layout = record { index = pos 0; workers = pos 1; total = pos 0 }

if_given-ArePlain :
    (s : Option Bytes) (f : Option Bytes → Request) (rs : List Request)
    → ((t : Option Bytes) → IsPlain (f t))
    → ArePlain rs
    → ArePlain (if_given s f ++ rs)
if_given-ArePlain none f rs p h = h
if_given-ArePlain (some t) f rs p h = (p (some t), h)

if_set-ArePlain :
    (n : ℤ) (f : ℤ → Request) (rs : List Request)
    → ((m : ℤ) → IsPlain (f m))
    → ArePlain rs
    → ArePlain (if_set n f ++ rs)
if_set-ArePlain n f rs p h = elim (Bool-cases (eq_ℤ n (pos 0))) [
  | inl zero_value ↦ rw zero_value h
  | inr other ↦ rw other (p n, h)
]

pub settings-ArePlain :
    (copies : Copies) (o : Options) → o.registry ≡ none → ArePlain (settings copies o)
unfolding settings
settings-ArePlain copies o free = rw free (
  tt,
  (
    tt,
    (
      tt,
      (
        tt,
        if_given-ArePlain o.env (set_env copies.env_ok) _ (λ t. tt)
            (if_given-ArePlain o.instid (set_instance copies.instid_ok) _ (λ t. tt)
              (if_set-ArePlain o.nworkers set_workers _ (λ m. tt)
                (if_set-ArePlain o.instindex static_set_index _ (λ m. tt)
                  (rw⁻¹ (append-nil (if_set o.total static_set_total))
                    (if_set-ArePlain o.total static_set_total [] (λ m. tt) tt))))),
      ),
    ),
  ),
)

place_all-if_given :
    (s : Option Bytes) (f : Option Bytes → Request) (rs : List Request) (l : Layout)
    → ((t : Option Bytes) → place (f t) l ≡ l)
    → place_all (if_given s f ++ rs) l ≡ place_all rs l
place_all-if_given none f rs l same = refl
place_all-if_given (some t) f rs l same = ap (place_all rs) (same (some t))

place_all-if_set :
    (n : ℤ) (f : ℤ → Request) (rs : List Request) (l : Layout)
    → place_all (if_set n f ++ rs) l ≡ place_all rs (if eq_ℤ n (pos 0) then l else place (f n) l)
place_all-if_set n f rs l = elim (Bool-cases (eq_ℤ n (pos 0))) [
  | inl zero_value ↦ rw zero_value refl
  | inr other ↦ rw other refl
]

asked_at_end :
    (o : Options) (l : Layout)
    → l.index ≡ (asked o).index
    → l.workers ≡ (asked o).workers
    → l.total ≡ pos 0
    → place_all (if_set o.total static_set_total) l ≡ asked o
asked_at_end o l i w t = ground arith

pub settings-asked :
    (copies : Copies) (o : Options)
    → o.registry ≡ none
    → place_all (settings copies o) new_layout ≡ asked o
unfolding settings
settings-asked copies o free =
    let last = if_set o.total static_set_total in
    let third = if_set o.instindex static_set_index ++ last in
    let second = if_set o.nworkers set_workers ++ third in
    let first = if_given o.registry (set_registry copies.registry_ok) ++ second in
    place_all-if_given o.env (set_env copies.env_ok)
      (if_given o.instid (set_instance copies.instid_ok) ++ first) new_layout (λ t. refl)
    ∙ place_all-if_given o.instid (set_instance copies.instid_ok) first new_layout (λ t. refl)
    ∙ ap (λ r. place_all (if_given r (set_registry copies.registry_ok) ++ second) new_layout) free
    ∙ place_all-if_set o.nworkers set_workers third new_layout
    ∙ place_all-if_set o.instindex static_set_index last _
    ∙ asked_at_end o _ (ground arith) (ground arith) (ground arith)
