-- ===== src/Clusters/Links.antt =====
-- cluster.c: the doubly linked list, as cluster_create appends to it, cluster_destroy takes from it
-- and the fork hooks walk it. A cluster is its address; NULL is `none`.
pub mod Chain
pub mod Laws
pub mod Listed
use libcluster.Prelude.{
  ℕ, zero, suc, Bool, true, false, Option, none, some, List, [], ◌∷◌, ◌==◌, if◌then◌else◌,
}

-- `cluster_first_`, `cluster_last_`, and the fields `prev` and `next` of every cluster.
pub record Links : Type 0 where
  pub first : Option ℕ
  pub last : Option ℕ
  pub prev : ℕ → Option ℕ
  pub next : ℕ → Option ℕ

-- Is the pointer this cluster's address?
abbrev pub is_at : ℕ → Option ℕ → Bool
is_at p none = false
is_at p (some q) = p == q

-- `if(o) o->field = v`
abbrev pub assign : (ℕ → Option ℕ) → Option ℕ → Option ℕ → ℕ → Option ℕ
assign field o v p = if is_at p o then v else field p

-- The end of cluster_create: the new cluster's own fields are NULL so far.
unfoldable pub link_last : ℕ → Links → Links
link_last p l = elim l.last [
  | none ↦ record l { first = some p; last = some p }
  | some q ↦ record l {
    next = assign l.next (some q) (some p);
    prev = assign l.prev (some p) (some q);
    last = some p;
  }
]

-- The beginning of cluster_destroy.
unfoldable pub unlink : ℕ → Links → Links
unlink p l₀ =
    let l₁ = record l₀ { next = assign l₀.next (l₀.prev p) (l₀.next p) } in
    let l₂ = record l₁ { prev = assign l₁.prev (l₁.next p) (l₁.prev p) } in
    let l₃ = if is_at p l₂.first then record l₂ { first = l₂.next p } else l₂ in
    if is_at p l₃.last then record l₃ { last = l₃.prev p } else l₃

-- The clusters that `for(p = o; p; p = p->next)` meets in as many rounds as there is fuel.
unfoldable pub walk : ℕ → (ℕ → Option ℕ) → Option ℕ → List ℕ
walk zero next o = []
walk (suc fuel) next none = []
walk (suc fuel) next (some p) = p ∷ walk fuel next (next p)
