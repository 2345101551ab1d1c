-- ===== src/Clusters/Links/Chain.antt =====
-- Chains of clusters: what the two pointers of each must be.
use libcluster.Prelude.{ℕ, Bool, false, ◌||◌, Option, none, some, List, [], ◌∷◌, ◌≡◌, arith, ◌==◌}
use libcluster.Clusters.Links.{assign}

abbrev pub has : ℕ → List ℕ → Bool
has p [] = false
has p (x ∷ xs) = (p == x) || has p xs

-- No cluster is there twice.
abbrev pub AllDistinct : List ℕ → Type 0
AllDistinct [] = Unit {0}
AllDistinct (x ∷ xs) = (has x xs ≡ false) × AllDistinct xs

abbrev pub head : List ℕ → Option ℕ
head [] = none
head (x ∷ xs) = some x

-- The last of a list, or what stands before it.
abbrev pub last_of : Option ℕ → List ℕ → Option ℕ
last_of b [] = b
last_of b (x ∷ xs) = last_of (some x) xs

-- The pointer leads to no cluster of the list.
abbrev pub Outside : Option ℕ → List ℕ → Type 0
Outside none xs = Unit {0}
Outside (some p) xs = has p xs ≡ false

-- From `b` the pointers lead through the list and back, and `e` is its last cluster.
abbrev pub Chain : (prev next : ℕ → Option ℕ) → Option ℕ → List ℕ → Option ℕ → Type 0
Chain prev next b [] e = e ≡ b
Chain prev next b (x ∷ xs) e = (prev x ≡ b) × (next x ≡ head xs) × Chain prev next (some x) xs e

module _ (prev next : ℕ → Option ℕ) where
  -- Assignments to clusters that are not in a chain do not touch it.
  pub frame :
      (b : Option ℕ) (xs : List ℕ) (e o o' v v' : Option ℕ)
      → Outside o xs
      → Outside o' xs
      → Chain prev next b xs e
      → Chain (assign prev o v) (assign next o' v') b xs e
  frame b [] e o o' v v' out out' c = c
  frame b (x ∷ xs) e o o' v v' out out' c = ground (arith, frame (some x) xs e o o' v v')

  pub last_of-Chain :
      (b : Option ℕ) (xs : List ℕ) (e : Option ℕ) → Chain prev next b xs e → e ≡ last_of b xs
  last_of-Chain b [] e c = c
  last_of-Chain b (x ∷ xs) e c = last_of-Chain (some x) xs e c.2
