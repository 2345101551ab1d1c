-- ===== src/Clusters/Links/Laws.antt =====
-- Appending and taking away do to the pointers what they do to a list.
use libcluster.Prelude.{ℕ, false, Option, none, some, List, [], ◌∷◌, ◌++◌, ◌≡◌, refl, arith, ◌==◌}
use libcluster.Clusters.Links.{Links, is_at, assign}
use libcluster.Clusters.Links.Chain.{
  has, AllDistinct, head, last_of, Outside, Chain, frame, last_of-Chain,
}

-- The pointers stand for the list of these clusters.
pub record IsListed (l : Links) (xs : List ℕ) : Type 0 where
  pub starts : l.first ≡ head xs
  pub chained : Chain l.prev l.next none xs l.last
  pub distinct : AllDistinct xs

-- A cluster that the list does not know, as calloc made it.
pub record IsUnlisted (p : ℕ) (l : Links) (xs : List ℕ) : Type 0 where
  pub absent : has p xs ≡ false
  pub no_prev : l.prev p ≡ none
  pub no_next : l.next p ≡ none

pub last_of_ne :
    (x y : ℕ) (xs : List ℕ) (q : ℕ)
    → has x (y ∷ xs) ≡ false
    → last_of (some y) xs ≡ some q
    → (x == q) ≡ false
last_of_ne x y [] q out e = ground arith
last_of_ne x y (z ∷ xs) q out e = last_of_ne x z xs q (ground arith) e

module _ (prev next : ℕ → Option ℕ) (p : ℕ) where
  pub Chain-concat :
      (b : Option ℕ) (xs : List ℕ) (q : ℕ)
      → Chain prev next b xs (some q)
      → last_of b xs ≡ some q
      → has p xs ≡ false
      → AllDistinct xs
      → next p ≡ none
      → (p == q) ≡ false
      → Outside b xs
      → Chain
          (assign prev (some p) (some q))
          (assign next (some q) (some p))
          b
          (xs ++ p ∷ [])
          (some p)
  Chain-concat b [] q c at_end out d np ne ob = ground arith
  Chain-concat b (x ∷ []) q c at_end out d np ne ob = ground arith
  Chain-concat b (x ∷ y ∷ xs) q c at_end out d np ne ob =
      let apart : (x == q) ≡ false = last_of_ne x y xs q d.0 at_end in
      let distinct_px : (x == p) ≡ false = ground arith in
      (
        rw distinct_px c.0,
        rw apart c.1,
        Chain-concat (some x) (y ∷ xs) q c.2 at_end (ground arith) d.1 np ne d.0,
      )

  Outside-tail : (b : Option ℕ) (x : ℕ) (xs : List ℕ) → Outside b (x ∷ xs) → Outside b xs
  Outside-tail none x xs o = tt
  Outside-tail (some q) x xs o = ground arith

  is_at-Outside : (b : Option ℕ) (x : ℕ) (xs : List ℕ) → Outside b (x ∷ xs) → is_at x b ≡ false
  is_at-Outside none x xs o = refl
  is_at-Outside (some q) x xs o = ground arith

  -- The first cluster behind the one that is taken away, and the rest of the chain.
  Chain-behind :
      (b : Option ℕ) (r : ℕ) (rs : List ℕ) (e : Option ℕ)
      → Chain prev next (some p) (r ∷ rs) e
      → AllDistinct (r ∷ rs)
      → Outside b (r ∷ rs)
      → Chain (assign prev (some r) b) (assign next b (some r)) b (r ∷ rs) e
  Chain-behind b r rs e c d o = (
    ground arith,
    rw (is_at-Outside b r rs o) c.1,
    frame prev next (some r) rs e (some r) b b (some r) d.0 (Outside-tail b r rs o) c.2,
  )

  Chain-unlink_first :
      (b : Option ℕ) (ys : List ℕ) (e : Option ℕ)
      → Chain prev next (some p) ys e
      → AllDistinct ys
      → Outside b ys
      → Chain (assign prev (head ys) b) (assign next b (head ys)) b ys (last_of b ys)
  Chain-unlink_first b [] e c d o = refl
  Chain-unlink_first b (r ∷ rs) e c d o =
      rw (← last_of-Chain prev next (some p) (r ∷ rs) e c) (Chain-behind b r rs e c d o)

  head_apart : (x : ℕ) (xs ys : List ℕ) → has x (xs ++ p ∷ ys) ≡ false → is_at x (head ys) ≡ false
  head_apart x [] [] h = refl
  head_apart x [] (y ∷ ys) h = ground arith
  head_apart x (z ∷ xs) ys h = head_apart x xs ys (ground arith)

  last_apart :
      (x y : ℕ) (xs ys : List ℕ)
      → has x (y ∷ (xs ++ p ∷ ys)) ≡ false
      → is_at x (last_of (some y) xs) ≡ false
  last_apart x y [] ys h = ground arith
  last_apart x y (z ∷ xs) ys h = last_apart x z xs ys (ground arith)

  -- Joining the two neighbours takes `p` out of the chain, wherever it stands.
  pub Chain-unlink :
      (b : Option ℕ) (xs ys : List ℕ) (e : Option ℕ)
      → Chain prev next b (xs ++ p ∷ ys) e
      → AllDistinct (xs ++ p ∷ ys)
      → Outside b (xs ++ p ∷ ys)
      → Chain
          (assign prev (head ys) (last_of b xs))
          (assign next (last_of b xs) (head ys))
          b
          (xs ++ ys)
          (last_of (last_of b xs) ys)
  Chain-unlink b [] ys e c d o = Chain-unlink_first b ys e c.2 d.1 (Outside-tail b p ys o)
  Chain-unlink b (x ∷ []) ys e c d o =
      (rw (head_apart x [] ys d.0) c.0, ground arith, Chain-unlink (some x) [] ys e c.2 d.1 d.0)
  Chain-unlink b (x ∷ y ∷ xs) ys e c d o = (
    rw (head_apart x (y ∷ xs) ys d.0) c.0,
    rw (last_apart x y xs ys d.0) c.1,
    Chain-unlink (some x) (y ∷ xs) ys e c.2 d.1 d.0,
  )

  -- What the fields of `p` lead to.
  pub neighbours :
      (b : Option ℕ) (xs ys : List ℕ) (e : Option ℕ)
      → Chain prev next b (xs ++ p ∷ ys) e
      → (prev p ≡ last_of b xs) × (next p ≡ head ys) × (e ≡ last_of (some p) ys)
  neighbours b [] ys e c = (c.0, c.1, last_of-Chain prev next (some p) ys e c.2)
  neighbours b (x ∷ xs) ys e c = neighbours (some x) xs ys e c.2
