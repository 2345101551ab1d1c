-- ===== src/Clusters/Store.antt =====
-- The memory that the clusters of a process share: the list with its lock, the block of every
-- cluster, `errno`, and the registry's side.
use libcluster.Prelude.{ℕ, zero, suc, ◌==◌, Option, none, some, List, ◌≡◌, refl, ap, if◌then◌else◌}
use libcluster.Process.{
  Fault, use_after_free, relock, not_locked, Outcome, ok, fault, Lock, free, reading, writing,
  Errno, ClusterState, Cluster, World, M, Returns,
}
use libcluster.Clusters.Links.{Links}

-- The block of a cluster: `struct cluster_struct` but for its links, the lock, and the callbacks.
pub record Body : Type 0 where
  pub cluster : Cluster
  pub lock : Lock
  pub calls : List ClusterState

-- `list_lock` is `cluster_list_lock_`; a cluster that is not allocated has no block.
pub record Store (S : Type 0) : Type 0 where
  pub links : Links
  pub list_lock : Lock
  pub bodies : ℕ → Option Body
  pub errno : Errno
  pub server : S

abbrev pub P : Type 0 → Type 0 → Type 0
P S A = Store S → Outcome (A × Store S)

module _ {S : Type 0} where
  -- One cluster, as its own operations see it.
  abbrev pub world_of : Body → Store S → World S
  world_of b st = record {
    cluster = b.cluster;
    lock = b.lock;
    errno = st.errno;
    calls = b.calls;
    server = st.server;
  }

  abbrev pub body_of : World S → Body
  body_of w = record { cluster = w.cluster; lock = w.lock; calls = w.calls }

  abbrev pub set_body : ℕ → Option Body → Store S → Store S
  set_body p b st = record st { bodies = λ q. if q == p then b else st.bodies q }

  abbrev pub after : ℕ → World S → Store S → Store S
  after p w st = record (set_body p (some (body_of w)) st) { errno = w.errno; server = w.server }

  -- An operation on the cluster at an address.
  abbrev pub at : {A : Type 0} → ℕ → M S A → P S A
  at p m st = elim (st.bodies p) [
    | none ↦ fault use_after_free
    | some b ↦ elim (m (world_of b st)) [ ok (a, w) ↦ ok (a, after p w st) | fault x ↦ fault x ]
  ]

  abbrev pub pure : {A : Type 0} → A → P S A
  pure a st = ok (a, st)

  abbrev pub raise : {A : Type 0} → Fault → P S A
  raise x st = fault x

  infixl 5 ◌>>=◌ ◌>>◌
  abbrev pub ◌>>=◌ : {A B : Type 0} → P S A → (A → P S B) → P S B
  ◌>>=◌ m f st = elim (m st) [ ok (a, st') ↦ f a st' | fault x ↦ fault x ]

  abbrev pub ◌>>◌ : {B : Type 0} → P S (Unit {0}) → P S B → P S B
  m >> k = m >>= λ _. k

  abbrev pub change_links : (Links → Links) → P S (Unit {0})
  change_links f st = ok (tt, record st { links = f st.links })

  abbrev pub get_links : P S Links
  get_links st = ok (st.links, st)

  -- `cluster_list_wrlock_`
  unfoldable pub cluster_list_wrlock : P S (Unit {0})
  cluster_list_wrlock st = elim st.list_lock [
    | free ↦ ok (tt, record st { list_lock = writing })
    | reading n ↦ fault relock
    | writing ↦ fault relock
  ]

  -- `cluster_list_rdlock_`
  unfoldable pub cluster_list_rdlock : P S (Unit {0})
  cluster_list_rdlock st = elim st.list_lock [
    | free ↦ ok (tt, record st { list_lock = reading zero })
    | reading n ↦ ok (tt, record st { list_lock = reading (suc n) })
    | writing ↦ fault relock
  ]

  -- `cluster_list_unlock_`
  unfoldable pub cluster_list_unlock : P S (Unit {0})
  cluster_list_unlock st = elim st.list_lock [
    | free ↦ fault not_locked
    | reading zero ↦ ok (tt, record st { list_lock = free })
    | reading (suc n) ↦ ok (tt, record st { list_lock = reading n })
    | writing ↦ ok (tt, record st { list_lock = free })
  ]

-- What a call that returns gives.
pub Returns-ok :
    {A : Type 0} (r : Outcome A) (Q : A → Type 0) → Returns r Q → (a : A) × (r ≡ ok a) × Q a
Returns-ok (ok a) Q q = (a, refl, q)
Returns-ok (fault x) Q q = absurd q

-- What comes after a call that returns.
pub bind-ok :
    {S A B : Type 0} (m : P S A) (f : A → P S B) (st st' : Store S) (a : A)
    → m st ≡ ok (a, st')
    → (m >>= f) st ≡ f a st'
bind-ok m f st st' a run = ap (λ r. ((λ (s : Store _). r) >>= f) st) run
