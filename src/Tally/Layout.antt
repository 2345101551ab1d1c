-- ===== src/Tally/Layout.antt =====
-- The layout of a cluster, described apart from the code: the table of README.md, one line for each
-- worker of each member in turn, and what the members' identifiers must satisfy.
use libcluster.Prelude.{
  ℕ, zero, suc, ◌+◌, ◌<◌, true, false, some, List, [], ◌∷◌, ◌++◌, map, ◌≡◌, refl, subst, ◌∙◌,
  dec_lt, ◌-◌, ◌⊎◌, inl, inr, arith, length, length-append, take, drop, take-append, drop-append,
  get_elem?, get_elem?-append_left, get_elem?-append_right, if◌then◌else◌, Bool-cases,
}
use libcluster.Prelude.Int.{ℤ, pos}
use libcluster.Prelude.Bytes.{Bytes, strcmp_eq, strcmp_eq-eq, strcmp_eq_refl, strcmp_eq_comm}
use libcluster.Tally.Member.{Member}

-- The lines of one member: its workers from `first` on.
abbrev pub lines : Bytes → ℕ → ℕ → List (Bytes × ℕ)
lines id first zero = []
lines id first (suc n) = (id, first) ∷ lines id (suc first) n

-- The table: the line at place k is the worker whose index in the cluster is k.
abbrev pub table : List Member → List (Bytes × ℕ)
table [] = []
table (m ∷ ms) = lines m.id 0 m.workers ++ table ms

abbrev pub sum_workers : List Member → ℕ
sum_workers [] = 0
sum_workers (m ∷ ms) = m.workers + sum_workers ms

-- The worker count of the first member of that name, 0 if there is none.
abbrev pub workers_of : Bytes → List Member → ℕ
workers_of i [] = 0
workers_of i (m ∷ ms) = if strcmp_eq m.id i then m.workers else workers_of i ms

abbrev pub Absent : Bytes → List Member → Type 0
Absent i [] = Unit {0}
Absent i (m ∷ ms) = (strcmp_eq m.id i ≡ false) × Absent i ms

abbrev pub Distinct : List Member → Type 0
Distinct [] = Unit {0}
Distinct (m ∷ ms) = Absent m.id ms × Distinct ms

-- The members as the engines' loops meet them.
abbrev pub entries : List Member → List (Bytes × ℤ)
entries = map λ m. (m.id, pos m.workers)

length-lines : (id : Bytes) (first n : ℕ) → length (lines id first n) ≡ n
length-lines id first zero = refl
length-lines id first (suc n) = omega (arith, length-lines id (suc first) n)

get_elem?-lines :
    (id : Bytes) (first n p : ℕ) → p < n → get_elem? (lines id first n) p ≡ some (id, first + p)
get_elem?-lines id first zero p h = absurd (omega arith)
get_elem?-lines id first (suc n) zero h = ground arith
get_elem?-lines id first (suc n) (suc p) h = ground (arith, get_elem?-lines id (suc first) n p)

pub length-table : (ms : List Member) → length (table ms) ≡ sum_workers ms
length-table [] = refl
length-table (m ∷ ms) = omega (
  arith,
  length-append (lines m.id 0 m.workers) (table ms),
  length-lines m.id 0 m.workers,
  length-table ms,
)

-- The line of worker p of the member that stands behind `xs`.
pub get_elem?-table :
    (xs : List Member) (m : Member) (ys : List Member) (p : ℕ)
    → p < m.workers
    → get_elem? (table (xs ++ m ∷ ys)) (sum_workers xs + p) ≡ some (m.id, p)
get_elem?-table [] m ys p h = ground (
  arith,
  get_elem?-append_left (lines m.id 0 m.workers) (table ys) p,
  length-lines m.id 0 m.workers,
  get_elem?-lines m.id 0 m.workers p,
)
get_elem?-table (x ∷ xs) m ys p h = ground (
  arith,
  get_elem?-append_right (lines x.id 0 x.workers) (table (xs ++ m ∷ ys)) (sum_workers xs + p),
  length-lines x.id 0 x.workers,
  get_elem?-table xs m ys p,
)

-- The part of the table behind the members `xs`.
pub drop-table : (xs ys : List Member) → drop (sum_workers xs) (table (xs ++ ys)) ≡ table ys
drop-table [] ys = refl
drop-table (x ∷ xs) ys = ground (
  arith,
  drop-append (lines x.id 0 x.workers) (table (xs ++ ys)) (sum_workers xs),
  length-lines x.id 0 x.workers,
  drop-table xs ys,
)

-- It begins with the lines of the next member.
pub take-drop-table :
    (xs : List Member) (m : Member) (ys : List Member)
    → take m.workers (drop (sum_workers xs) (table (xs ++ m ∷ ys))) ≡ lines m.id 0 m.workers
take-drop-table xs m ys = ground (
  arith,
  drop-table xs (m ∷ ys),
  take-append (lines m.id 0 m.workers) (table ys),
  length-lines m.id 0 m.workers,
)

pub sum_workers-append :
    (xs ys : List Member) → sum_workers (xs ++ ys) ≡ sum_workers xs + sum_workers ys
sum_workers-append [] ys = omega arith
sum_workers-append (x ∷ xs) ys = omega (arith, sum_workers-append xs ys)

-- In a list of distinct members each name is absent, or stands at one place.
pub record Place (i : Bytes) (ms : List Member) : Type 0 where
  pub before : List Member
  pub member : Member
  pub after : List Member
  pub split : ms ≡ before ++ member ∷ after
  pub name : member.id ≡ i
  pub none_before : Absent i before
  pub none_after : Absent i after
  pub count : workers_of i ms ≡ member.workers

Place-cons :
    {i : Bytes} {ms : List Member} (m : Member)
    → strcmp_eq m.id i ≡ false
    → Place i ms
    → Place i (m ∷ ms)
Place-cons m h p = record {
  before = m ∷ p.before;
  member = p.member;
  after = p.after;
  split = ground (arith, p.split);
  name = p.name;
  none_before = (h, p.none_before);
  none_after = p.none_after;
  count = ground (arith, p.count);
}

Place-head :
    {i : Bytes} (m : Member) (ms : List Member)
    → strcmp_eq m.id i ≡ true
    → Absent m.id ms
    → Place i (m ∷ ms)
Place-head {i} m ms h a = record {
  before = [];
  member = m;
  after = ms;
  split = refl;
  name = strcmp_eq-eq m.id i h;
  none_before = tt;
  none_after = subst (λ j. Absent j ms) (strcmp_eq-eq m.id i h) a;
  count = ground arith;
}

pub find-Place : (i : Bytes) (ms : List Member) → Distinct ms → Absent i ms ⊎ Place i ms
find-Place i [] d = inl tt
find-Place i (m ∷ ms) d = elim (Bool-cases (strcmp_eq m.id i)) [
  | inl here ↦ inr (Place-head m ms here d.0)
  | inr other ↦ elim (find-Place i ms d.1) [
    | inl a ↦ inl (other, a)
    | inr p ↦ inr (Place-cons m other p)
  ]
]

Absent-middle :
    (i : Bytes) (xs : List Member) (m : Member) (ys : List Member)
    → Absent i (xs ++ m ∷ ys)
    → strcmp_eq m.id i ≡ false
Absent-middle i [] m ys a = a.0
Absent-middle i (x ∷ xs) m ys a = Absent-middle i xs m ys a.1

-- Of distinct members, none before or behind one has its name.
pub Distinct-around :
    (xs : List Member) (m : Member) (ys : List Member)
    → Distinct (xs ++ m ∷ ys)
    → Absent m.id xs × Absent m.id ys
Distinct-around [] m ys d = (tt, d.0)
Distinct-around (x ∷ xs) m ys d =
    let rest = Distinct-around xs m ys d.1 in
    ((strcmp_eq_comm x.id m.id ∙ Absent-middle x.id xs m ys d.0, rest.0), rest.1)

pub workers_of_split :
    (xs : List Member) (m : Member) (ys : List Member)
    → Absent m.id xs
    → workers_of m.id (xs ++ m ∷ ys) ≡ m.workers
workers_of_split [] m ys a = ground (arith, strcmp_eq_refl m.id)
workers_of_split (x ∷ xs) m ys a = ground (arith, workers_of_split xs m ys)

-- Every index below the total is the line of one worker.
pub record Line (ms : List Member) (k : ℕ) : Type 0 where
  pub before : List Member
  pub member : Member
  pub after : List Member
  pub worker : ℕ
  pub split : ms ≡ before ++ member ∷ after
  pub below : worker < member.workers
  pub position : sum_workers before + worker ≡ k

Line-cons : {ms : List Member} {k : ℕ} (m : Member) → Line ms k → Line (m ∷ ms) (m.workers + k)
Line-cons m l = record {
  before = m ∷ l.before;
  member = l.member;
  after = l.after;
  worker = l.worker;
  split = ground (arith, l.split);
  below = l.below;
  position = omega (arith, l.position);
}

pub find-Line : (ms : List Member) (k : ℕ) → k < sum_workers ms → Line ms k
find-Line [] k h = absurd (omega arith)
find-Line (m ∷ ms) k h = elim (dec_lt k m.workers) [
  | yes here ↦ record {
    before = [];
    member = m;
    after = ms;
    worker = k;
    split = refl;
    below = here;
    position = omega arith;
  }
  | no later ↦
      subst (Line (m ∷ ms)) (omega arith) (Line-cons m (find-Line ms (k - m.workers) (omega arith)))
]
