-- ===== src/Tally/Partition.antt =====
-- The loop over the members gives each worker of the cluster an index of its own.
use libcluster.Prelude.{
  ℕ, ◌+◌, ◌<◌, ◌≤◌, Bool, true, false, some, List, [], ◌∷◌, ◌++◌, ◌≡◌, ◌≢◌, refl, sym, ap, ap₂,
  take, drop, length, subst, ◌∙◌, inl, inr, arith, get_elem?,
}
use libcluster.Prelude.Int.{ℤ, pos, negsuc, int_max}
use libcluster.Prelude.Bytes.{Bytes, strcmp_eq_refl}
use libcluster.Process.{ok}
use libcluster.Tally.{tally}
use libcluster.Tally.Member.{Member}
use libcluster.Tally.Layout.{
  table, lines, sum_workers, workers_of, length-table, take-drop-table, Absent, Distinct, entries,
  Place, find-Place, Line, find-Line, Distinct-around, workers_of_split, get_elem?-table,
}

-- A name that is not met leaves `base` alone, and the total is the sum of the counts.
pub tally-Absent :
    (counts : Bool) (i : Bytes) (ms : List Member) (base : ℤ) (s : ℕ)
    → Absent i ms
    → s + sum_workers ms ≤ int_max
    → tally counts i (entries ms) base (pos s) ≡ ok (base, pos (s + sum_workers ms))
unfolding tally
tally-Absent counts i [] base s a h = ground arith
tally-Absent counts i (m ∷ ms) base s a h =
    ground (arith, tally-Absent counts i ms base (s + m.workers))

-- A passive instance is not looked for.
pub tally_passive :
    (i : Bytes) (ms : List Member) (base : ℤ) (s : ℕ)
    → s + sum_workers ms ≤ int_max
    → tally false i (entries ms) base (pos s) ≡ ok (base, pos (s + sum_workers ms))
unfolding tally
tally_passive i [] base s h = ground arith
tally_passive i (m ∷ ms) base s h = ground (arith, tally_passive i ms base (s + m.workers))

tally_split :
    (i : Bytes) (xs : List Member) (m : Member) (ys : List Member) (base : ℤ) (s : ℕ)
    → Absent i xs
    → m.id ≡ i
    → Absent i ys
    → s + sum_workers (xs ++ m ∷ ys) ≤ int_max
    → tally true i (entries (xs ++ m ∷ ys)) base (pos s)
      ≡ ok (pos (s + sum_workers xs), pos (s + sum_workers (xs ++ m ∷ ys)))
unfolding tally
tally_split i [] m ys base s a e b h =
    ground (arith, strcmp_eq_refl i, tally-Absent true i ys (pos s) (s + m.workers))
tally_split i (x ∷ xs) m ys base s a e b h =
    ground (arith, tally_split i xs m ys base (s + x.workers))

tally_split_zero :
    (i : Bytes) (ms xs : List Member) (m : Member) (ys : List Member)
    → ms ≡ xs ++ m ∷ ys
    → Absent i xs
    → m.id ≡ i
    → Absent i ys
    → sum_workers ms ≤ int_max
    → tally true i (entries ms) (negsuc 0) (pos 0) ≡ ok (pos (sum_workers xs), pos (sum_workers ms))
tally_split_zero i ms xs m ys e a b c h =
    ground (arith, ap entries e, tally_split i xs m ys (negsuc 0) 0 a b c)

tally-Absent_zero :
    (counts : Bool) (i : Bytes) (ms : List Member)
    → Absent i ms
    → sum_workers ms ≤ int_max
    → tally counts i (entries ms) (negsuc 0) (pos 0) ≡ ok (negsuc 0, pos (sum_workers ms))
tally-Absent_zero counts i ms a h = ground (arith, tally-Absent counts i ms (negsuc 0) 0 a)

pub tally_passive_zero :
    (i : Bytes) (ms : List Member)
    → sum_workers ms ≤ int_max
    → tally false i (entries ms) (negsuc 0) (pos 0) ≡ ok (negsuc 0, pos (sum_workers ms))
tally_passive_zero i ms h = ground (arith, tally_passive i ms (negsuc 0) 0)

-- What a base says of the members: -1 if the name is not among them; else one of them has the name, the
-- base counts the lines of those before it, and there the lines of its workers stand, in order.
pub data IsBase (i : Bytes) (ms : List Member) : ℤ → Type 0 where
  outside : Absent i ms → IsBase i ms (negsuc 0)
  inside :
      (before : List Member) (m : Member) (after : List Member)
      → ms ≡ before ++ m ∷ after
      → m.id ≡ i
      → take m.workers (drop (length (table before)) (table ms)) ≡ lines i 0 m.workers
      → IsBase i ms (pos (length (table before)))

Place-lines :
    {i : Bytes} {ms : List Member} (pl : Place i ms)
    → take pl.member.workers (drop (length (table pl.before)) (table ms))
      ≡ lines i 0 pl.member.workers
Place-lines {i} {ms} pl =
    ap₂ (λ a l. take pl.member.workers (drop a (table l))) (length-table pl.before) pl.split
    ∙ take-drop-table pl.before pl.member pl.after
    ∙ ap (λ j. lines j 0 pl.member.workers) pl.name

-- Over members whose identifiers are distinct and whose worker counts add up to an int, a run of
-- the loop that looks for an identifier ends with a result: the total is the length of the
-- members' table, and the base is -1 where the identifier is not among them, else the place in
-- the table at which exactly its workers' lines stand, in order.
pub tally-IsBase :
    (i : Bytes) (ms : List Member)
    → Distinct ms
    → sum_workers ms ≤ int_max
    → (base : ℤ) × (tally true i (entries ms) (negsuc 0) (pos 0)
        ≡ ok (base, pos (length (table ms))))
      × IsBase i ms base
tally-IsBase i ms d h = rw (length-table ms) (elim (find-Place i ms d) [
  | inl a ↦ (negsuc 0, tally-Absent_zero true i ms a h, outside a)
  | inr p ↦ (
    pos (length (table p.before)),
    tally_split_zero i ms p.before p.member p.after p.split p.none_before p.name p.none_after h
        ∙ ap (λ a. ok (pos a, pos (sum_workers ms))) (sym (length-table p.before)),
    inside p.before p.member p.after p.split p.name (Place-lines p),
  )
])

Place-table :
    {i : Bytes} {ms : List Member} (pl : Place i ms) (p : ℕ)
    → p < workers_of i ms
    → get_elem? (table ms) (sum_workers pl.before + p) ≡ some (i, p)
Place-table {i} {ms} pl p h =
    ap (λ l. get_elem? (table l) (sum_workers pl.before + p)) pl.split
    ∙ get_elem?-table pl.before pl.member pl.after p (subst (λ n. p < n) pl.count h)
    ∙ ap (λ j. some (j, p)) pl.name

-- From the base that a run of the loop gave: the line of each of the name's workers.
pub base_table :
    (i : Bytes) (ms : List Member) (a : ℕ) (total : ℤ)
    → Distinct ms
    → sum_workers ms ≤ int_max
    → tally true i (entries ms) (negsuc 0) (pos 0) ≡ ok (pos a, total)
    → (p : ℕ) → p < workers_of i ms
    → get_elem? (table ms) (a + p) ≡ some (i, p)
base_table i ms a total d h e p lt = elim (find-Place i ms d) [
  | inl away ↦ ground (arith, tally-Absent_zero true i ms away h)
  | inr pl ↦
      let run =
        tally_split_zero i ms pl.before pl.member pl.after pl.split pl.none_before pl.name
          pl.none_after h in
      ground (arith, run, Place-table pl p lt)
]

-- Take members whose identifiers are distinct and whose worker counts add up to an int. If one
-- run of the loop gives identifier i the base a, and another gives a different identifier j the
-- base b, then no worker index of i (a + p, p below i's count) is a worker index of j.
pub indexes_disjoint :
    (i j : Bytes) (ms : List Member) (a b : ℕ) (t u : ℤ)
    → Distinct ms
    → sum_workers ms ≤ int_max
    → i ≢ j
    → tally true i (entries ms) (negsuc 0) (pos 0) ≡ ok (pos a, t)
    → tally true j (entries ms) (negsuc 0) (pos 0) ≡ ok (pos b, u)
    → (p q : ℕ) → p < workers_of i ms
    → q < workers_of j ms
    → a + p ≢ b + q
indexes_disjoint i j ms a b t u d h ne r s p q lp lq e = ne (
    ground (
      arith,
      base_table i ms a t d h r p lp,
      base_table j ms b u d h s q lq,
      ap (get_elem? (table ms)) e,
    ))

-- Take members whose identifiers are distinct and whose worker counts add up to an int. For each
-- index below that sum there is an identifier for which a run of the loop ends with a base and
-- with that sum as the total, and the index is one of the identifier's own, counted from the
-- base.
pub indexes_cover :
    (ms : List Member) (k : ℕ)
    → Distinct ms
    → sum_workers ms ≤ int_max
    → k < sum_workers ms
    → (i : Bytes) × (a p : ℕ) × (tally true i (entries ms) (negsuc 0) (pos 0)
        ≡ ok (pos a, pos (sum_workers ms)))
      × (p < workers_of i ms)
      × (a + p ≡ k)
indexes_cover ms k d h lt =
    let l : Line ms k = find-Line ms k lt in
    let near = Distinct-around l.before l.member l.after (subst Distinct l.split d) in
    (
      l.member.id,
      sum_workers l.before,
      l.worker,
      tally_split_zero l.member.id ms l.before l.member l.after l.split near.0 refl near.1 h,
      subst (λ n. l.worker < n)
          (sym (
            ap (workers_of l.member.id) l.split
            ∙ workers_of_split l.before l.member l.after near.0))
          l.below,
      l.position,
    )
