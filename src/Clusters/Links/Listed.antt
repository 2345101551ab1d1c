-- ===== src/Clusters/Links/Listed.antt =====
-- The pointers stand for a list: appending and taking away do to them what they do to it.
use libcluster.Prelude.{
  ℕ, zero, suc, ◌≤◌, false, Option, none, some, List, [], ◌∷◌, ◌++◌, ◌≡◌, refl, arith, ap, ap₂,
  ◌==◌, length, if◌then◌else◌, Bool-cases, inl, inr, ◌∙◌, subst,
}
use libcluster.Clusters.Links.{Links, is_at, assign, link_last, unlink, walk}
use libcluster.Clusters.Links.Chain.{has, AllDistinct, head, last_of, Chain, last_of-Chain}
use libcluster.Clusters.Links.Laws.{
  IsListed, IsUnlisted, Chain-concat, Chain-unlink, neighbours, last_of_ne,
}

last_of-some : (x : ℕ) (xs : List ℕ) → (q : ℕ) × (last_of (some x) xs ≡ some q)
last_of-some x [] = (x, refl)
last_of-some x (y ∷ xs) = last_of-some y xs

has-append_left : (p : ℕ) (xs ys : List ℕ) → has p (xs ++ ys) ≡ false → has p xs ≡ false
has-append_left p [] ys h = refl
has-append_left p (x ∷ xs) ys h = ground (arith, has-append_left p xs ys)

has-concat :
    (x p : ℕ) (xs : List ℕ) → has x xs ≡ false → (x == p) ≡ false → has x (xs ++ p ∷ []) ≡ false
has-concat x p [] h n = ground arith
has-concat x p (y ∷ xs) h n = ground (arith, has-concat x p xs)

AllDistinct-concat :
    (p : ℕ) (xs : List ℕ) → has p xs ≡ false → AllDistinct xs → AllDistinct (xs ++ p ∷ [])
AllDistinct-concat p [] h d = ground arith
AllDistinct-concat p (x ∷ xs) h d =
    (has-concat x p xs d.0 (ground arith), AllDistinct-concat p xs (ground arith) d.1)

-- cluster_create puts a cluster that is new to the list at its end.
pub link_last-IsListed :
    (p : ℕ) (l : Links) (xs : List ℕ)
    → IsUnlisted p l xs
    → IsListed l xs
    → IsListed (link_last p l) (xs ++ p ∷ [])
unfolding link_last
link_last-IsListed p l [] u h = ground (arith, h.chained)
link_last-IsListed p l (x ∷ xs) u h =
    let (q, at_end) = last_of-some x xs in
    let ended : l.last ≡ some q =
      last_of-Chain l.prev l.next none (x ∷ xs) l.last h.chained ∙ at_end in
    let apart : (p == q) ≡ false = last_of_ne p x xs q u.absent at_end in
    rw ended (record {
      starts = h.starts;
      chained =
          Chain-concat l.prev l.next p none (x ∷ xs) q
            (subst (Chain l.prev l.next none (x ∷ xs)) ended h.chained) at_end u.absent h.distinct
            u.no_next apart tt;
      distinct = AllDistinct-concat p (x ∷ xs) u.absent h.distinct;
    })

has-without :
    (x p : ℕ) (xs ys : List ℕ)
    → has x (xs ++ p ∷ ys) ≡ false
    → (has x (xs ++ ys) ≡ false) × ((x == p) ≡ false)
has-without x p [] ys h = ground arith
has-without x p (y ∷ xs) ys h = ground (arith, has-without x p xs ys)

AllDistinct-without :
    (p : ℕ) (xs ys : List ℕ)
    → AllDistinct (xs ++ p ∷ ys)
    → AllDistinct (xs ++ ys) × (has p xs ≡ false) × (has p ys ≡ false)
AllDistinct-without p [] ys d = (d.1, refl, d.0)
AllDistinct-without p (x ∷ xs) ys d =
    let (rest, left, right) = AllDistinct-without p xs ys d.1 in
    let (out, apart) = has-without x p xs ys d.0 in ((out, rest), ground arith, right)

is_at-last_of : (p : ℕ) (xs : List ℕ) → has p xs ≡ false → is_at p (last_of none xs) ≡ false
is_at-last_of p [] h = refl
is_at-last_of p (x ∷ xs) h =
    let (q, at_end) = last_of-some x xs in rw at_end (last_of_ne p x xs q h at_end)

is_at-head : (p : ℕ) (xs : List ℕ) → has p xs ≡ false → is_at p (head xs) ≡ false
is_at-head p [] h = refl
is_at-head p (x ∷ xs) h = ground arith

-- The pointers once the neighbours of `p` have been joined.
abbrev joined_links : Links → List ℕ → List ℕ → Links
joined_links l xs ys = record {
  first = head (xs ++ ys);
  last = last_of (last_of none xs) ys;
  prev = assign l.prev (head ys) (last_of none xs);
  next = assign l.next (last_of none xs) (head ys);
}

first_without :
    (p : ℕ) (xs ys : List ℕ)
    → has p xs ≡ false
    → (if is_at p (head (xs ++ p ∷ ys)) then head ys else head (xs ++ p ∷ ys)) ≡ head (xs ++ ys)
first_without p [] ys h = ground arith
first_without p (x ∷ xs) ys h = ground arith

last_without :
    (p : ℕ) (q : Option ℕ) (ys : List ℕ)
    → has p ys ≡ false
    → (if is_at p (last_of (some p) ys) then q else last_of (some p) ys) ≡ last_of q ys
last_without p q [] h = ground arith
last_without p q (y ∷ ys) h =
    let (e, at_end) = last_of-some y ys in rw (at_end, last_of_ne p y ys e h at_end) refl

unlink-assign :
    (p : ℕ) (l : Links) (q r : Option ℕ)
    → l.prev p ≡ q
    → l.next p ≡ r
    → is_at p q ≡ false
    → is_at p r ≡ false
    → unlink p l ≡ record {
      first = if is_at p l.first then r else l.first;
      last = if is_at p l.last then q else l.last;
      prev = assign l.prev r q;
      next = assign l.next q r;
    }
unfolding unlink
unlink-assign p l q r back forth apart_q apart_r = elim (Bool-cases (is_at p l.first)) [
  | inl f ↦ elim (Bool-cases (is_at p l.last)) [
    | inl g ↦ rw (back, forth, apart_q, f, g, apart_r, back) refl
    | inr g ↦ rw (back, forth, apart_q, f, g) refl
  ]
  | inr f ↦ elim (Bool-cases (is_at p l.last)) [
    | inl g ↦ rw (back, forth, apart_q, f, g, apart_r, back) refl
    | inr g ↦ rw (back, forth, apart_q, f, g) refl
  ]
]

unlink-eq :
    (p : ℕ) (l : Links) (xs ys : List ℕ)
    → IsListed l (xs ++ p ∷ ys)
    → unlink p l ≡ joined_links l xs ys
unlink-eq p l xs ys h =
    let (back, forth, ended) = neighbours l.prev l.next p none xs ys l.last h.chained in
    let (d, left, right) = AllDistinct-without p xs ys h.distinct in
    unlink-assign p l (last_of none xs) (head ys) back forth (is_at-last_of p xs left)
      (is_at-head p ys right)
    ∙ ap₂
        (λ f e. record {
          first = f;
          last = e;
          prev = assign l.prev (head ys) (last_of none xs);
          next = assign l.next (last_of none xs) (head ys);
        })
        (rw h.starts (first_without p xs ys left))
        (rw ended (last_without p (last_of none xs) ys right))

-- cluster_destroy takes its cluster out of the list, wherever it stands.
pub unlink-IsListed :
    (p : ℕ) (l : Links) (xs ys : List ℕ)
    → IsListed l (xs ++ p ∷ ys)
    → IsListed (unlink p l) (xs ++ ys)
unlink-IsListed p l xs ys h = rw (unlink-eq p l xs ys h) (record {
  starts = refl;
  chained = Chain-unlink l.prev l.next p none xs ys l.last h.chained h.distinct tt;
  distinct = (AllDistinct-without p xs ys h.distinct).0;
})

-- A cluster that is not in the list: nothing changes.
pub unlink_unlisted :
    (p : ℕ) (l : Links) (xs : List ℕ) → IsUnlisted p l xs → IsListed l xs → unlink p l ≡ l
unfolding unlink
unlink_unlisted p l xs u h =
    let ended = last_of-Chain l.prev l.next none xs l.last h.chained in
    let apart_first : is_at p l.first ≡ false = rw h.starts (is_at-head p xs u.absent) in
    let apart_last : is_at p l.last ≡ false = rw ended (is_at-last_of p xs u.absent) in
    ground (arith, u.no_prev, u.no_next)

-- The walk meets the clusters of the list, each once and in order.
walk-Chain :
    (prev next : ℕ → Option ℕ) (b : Option ℕ) (xs : List ℕ) (e : Option ℕ) (fuel : ℕ)
    → Chain prev next b xs e
    → length xs ≤ fuel
    → walk fuel next (head xs) ≡ xs
unfolding walk
walk-Chain prev next b [] e zero c bound = refl
walk-Chain prev next b [] e (suc fuel) c bound = refl
walk-Chain prev next b (x ∷ xs) e zero c bound = absurd (omega arith)
walk-Chain prev next b (x ∷ xs) e (suc fuel) c bound =
    ap (◌∷◌ x) (rw c.1 (walk-Chain prev next (some x) xs e fuel c.2 (omega arith)))

pub walk-IsListed :
    (l : Links) (xs : List ℕ) (fuel : ℕ)
    → IsListed l xs
    → length xs ≤ fuel
    → walk fuel l.next l.first ≡ xs
walk-IsListed l xs fuel h bound =
    rw h.starts (walk-Chain l.prev l.next none xs l.last fuel h.chained bound)
