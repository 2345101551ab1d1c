-- ===== src/Clusters/Fork/Visits.antt =====
-- The walk of the fork hooks, against a plain loop over the list of clusters.
use libcluster.Prelude.{
  ℕ, zero, suc, ◌≤◌, Option, none, some, List, [], ◌∷◌, length, ◌≡◌, ◌⊎◌, inl, inr, refl, sym, ap,
  arith, Option-cases, ◌∙◌,
}
use libcluster.Process.{M, Outcome, ok, fault, Fault, use_after_free, World}
use libcluster.Clusters.Links.{Links}
use libcluster.Clusters.Links.Chain.{head, Chain}
use libcluster.Clusters.Links.Laws.{IsListed}
use libcluster.Clusters.Store.{Body, Store, P, after, pure, at, ◌>>◌, world_of}
use libcluster.Clusters.Fork.{each_cluster}

Outcome-cases :
    {A : Type 0} (r : Outcome A) → ((a : A) × (r ≡ ok a)) ⊎ ((x : Fault) × (r ≡ fault x))
Outcome-cases (ok a) = inl (a, refl)
Outcome-cases (fault x) = inr (x, refl)

module _ {S : Type 0} (m : ℕ → M S (Unit {0})) where
  -- The handler for each cluster of a list, one after the other.
  unfoldable pub for_each : List ℕ → P S (Unit {0})
  for_each [] = pure tt
  for_each (p ∷ xs) = at p (m p) >> for_each xs

  at-none :
      (p : ℕ) (st : Store S) (k : P S (Unit {0}))
      → st.bodies p ≡ none
      → (at p (m p) >> k) st ≡ fault use_after_free
  at-none p st k gone = ground arith

  -- One handler, and what comes after it.
  pub at-ok :
      (p : ℕ) (st : Store S) (b : Body) (w : World S) (k : P S (Unit {0}))
      → st.bodies p ≡ some b
      → m p (world_of b st) ≡ ok (tt, w)
      → (at p (m p) >> k) st ≡ k (after p w st)
  at-ok p st b w k there run = ground (arith, there, run)

  pub at-fault :
      (p : ℕ) (st : Store S) (b : Body) (x : Fault) (k : P S (Unit {0}))
      → st.bodies p ≡ some b
      → m p (world_of b st) ≡ fault x
      → (at p (m p) >> k) st ≡ fault x
  at-fault p st b x k there run = ground (arith, there, run)

  -- What one cluster's handler does leaves the links of all as they are.
  at-links :
      (p : ℕ) (st : Store S) (k k' : P S (Unit {0}))
      → ((st' : Store S) → st'.links ≡ st.links → k st' ≡ k' st')
      → (at p (m p) >> k) st ≡ (at p (m p) >> k') st
  at-links p st k k' same = elim (Option-cases (st.bodies p)) [
    | inl gone ↦ at-none p st k gone ∙ sym (at-none p st k' gone)
    | inr (b, there) ↦ elim (Outcome-cases (m p (world_of b st))) [
      | inl ((u, w), run) ↦
          at-ok p st b w k there run ∙ same (after p w st) refl ∙ sym (at-ok p st b w k' there run)
      | inr (x, run) ↦ at-fault p st b x k there run ∙ sym (at-fault p st b x k' there run)
    ]
  ]

  each_cluster-Chain :
      (l : Links) (b : Option ℕ) (xs : List ℕ) (e : Option ℕ) (fuel : ℕ) (st : Store S)
      → st.links ≡ l
      → Chain l.prev l.next b xs e
      → length xs ≤ fuel
      → each_cluster fuel m (head xs) st ≡ for_each xs st
  unfolding each_cluster for_each
  each_cluster-Chain l b [] e zero st same c bound = refl
  each_cluster-Chain l b [] e (suc fuel) st same c bound = refl
  each_cluster-Chain l b (p ∷ xs) e zero st same c bound = absurd (omega arith)
  each_cluster-Chain l b (p ∷ xs) e (suc fuel) st same c bound =
      at-links p st _ (for_each xs) (λ st' still.
        ap (λ n. each_cluster fuel m n st') (ap (λ k. k.next p) (still ∙ same) ∙ c.1)
        ∙ each_cluster-Chain l (some p) xs e fuel st' (still ∙ same) c.2 (omega arith))

  pub each_cluster-IsListed :
      (st : Store S) (xs : List ℕ) (fuel : ℕ)
      → IsListed st.links xs
      → length xs ≤ fuel
      → each_cluster fuel m st.links.first st ≡ for_each xs st
  each_cluster-IsListed st xs fuel h bound =
      ap (λ o. each_cluster fuel m o st) h.starts
      ∙ each_cluster-Chain st.links none xs st.links.last fuel st refl h.chained bound
