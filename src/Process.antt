-- ===== src/Process.antt =====
-- What the C code stands on: faults, heap strings, a read-write lock as one thread sees it,
-- `errno`, and the monad in which the operations of cluster.c and engines/ are written.
use libcluster.Prelude.{ℕ, zero, suc, Bool, true, false, Option, List, if◌then◌else◌}
use libcluster.Prelude.Int.{ℤ, ◌+ℤ◌, fits_int}
use libcluster.Prelude.Bytes.{Bytes}

-- What C leaves undefined, or POSIX does for a lock; and a wait for a thread that does not end.
pub data Fault : Type 0 where
  double_free null_deref use_after_free relock not_locked overflow out_of_bounds never_returns :
      Fault

pub data Outcome {ℓ} (A : Type ℓ) : Type ℓ where
  ok : A → Outcome A
  fault : Fault → Outcome A

-- A `char *`: NULL, a heap block with this text, or a pointer to a block that has been freed.
pub data CStr : Type 0 where
  null : CStr
  live : Bytes → CStr
  freed : CStr

-- `pthread_rwlock_t`, by what the calling thread holds of it.
pub data Lock : Type 0 where
  free : Lock
  reading : ℕ → Lock
  writing : Lock

pub data Errno : Type 0 where
  success eperm einval : Errno

pub data ClusterType : Type 0 where
  ct_static ct_etcd ct_sql : ClusterType

-- `CLUSTERFLAGS`, one field for each bit.
pub record Flags : Type 0 where
  pub joined : Bool
  pub leaving : Bool
  pub verbose : Bool
  pub passive : Bool

-- `CLUSTERFORK`, with the bits of each value.
pub data ClusterFork : Type 0 where
  fork_child fork_parent fork_both : ClusterFork

abbrev pub fork_bits : ClusterFork → ℕ
fork_bits fork_child = 1
fork_bits fork_parent = 2
fork_bits fork_both = 4

-- `struct cluster_state_struct`
pub record ClusterState : Type 0 where
  pub index : ℤ
  pub workers : ℤ
  pub total : ℤ
  pub passive : Bool

-- `struct cluster_struct`. Handles (`ETCD *`, `SQL *`) are addresses, NULL is `none`; of a thread
-- and of a callback the code only asks whether it is there. The links of the list of clusters are in Clusters/Links.
pub record Cluster : Type 0 where
  pub kind : ClusterType
  pub flags : Flags
  pub forkmode : ClusterFork
  pub instid : CStr
  pub key : CStr
  pub env : CStr
  pub registry : CStr
  pub partition : CStr
  pub inst_index : ℤ
  pub inst_threads : ℤ
  pub total_threads : ℤ
  pub logger : Bool
  pub balancer : Bool
  pub ttl : ℤ
  pub refresh : ℤ
  pub etcd_root : Option ℕ
  pub etcd_clusterdir : Option ℕ
  pub etcd_partitiondir : Option ℕ
  pub etcd_envdir : Option ℕ
  pub pingdb : Option ℕ
  pub balancedb : Option ℕ
  pub jobdb : Option ℕ
  pub ping_thread : Bool
  pub balancer_thread : Bool

-- What a call reads and writes: the cluster and its lock, `errno`, the invocations of the balancing
-- callback (newest first), and the registry service behind the engines.
pub record World (S : Type 0) : Type 0 where
  pub cluster : Cluster
  pub lock : Lock
  pub errno : Errno
  pub calls : List ClusterState
  pub server : S

abbrev pub M : Type 0 → Type 0 → Type 0
M S A = World S → Outcome (A × World S)

module _ {S : Type 0} where
  abbrev pub pure : {A : Type 0} → A → M S A
  pure a w = ok (a, w)

  infixl 5 ◌>>=◌ ◌>>◌
  abbrev pub ◌>>=◌ : {A B : Type 0} → M S A → (A → M S B) → M S B
  ◌>>=◌ m f w = elim (m w) [ ok (a, w') ↦ f a w' | fault x ↦ fault x ]

  abbrev pub ◌>>◌ : {B : Type 0} → M S (Unit {0}) → M S B → M S B
  m >> k = m >>= λ _. k

  abbrev pub raise : {A : Type 0} → Fault → M S A
  raise x w = fault x

  abbrev pub get_cluster : M S Cluster
  get_cluster w = ok (w.cluster, w)

  abbrev pub put_cluster : Cluster → M S (Unit {0})
  put_cluster c w = ok (tt, record w { cluster = c })

  abbrev pub set_errno : Errno → M S (Unit {0})
  set_errno e w = ok (tt, record w { errno = e })

  -- `cluster_rdlock_`: undefined for a thread that holds the write lock.
  unfoldable pub cluster_rdlock : M S (Unit {0})
  cluster_rdlock w = elim w.lock [
    | free ↦ ok (tt, record w { lock = reading zero })
    | reading n ↦ ok (tt, record w { lock = reading (suc n) })
    | writing ↦ fault relock
  ]

  -- `cluster_wrlock_`: undefined for a thread that holds the lock at all.
  unfoldable pub cluster_wrlock : M S (Unit {0})
  cluster_wrlock w = elim w.lock [
    | free ↦ ok (tt, record w { lock = writing })
    | reading n ↦ fault relock
    | writing ↦ fault relock
  ]

  -- `cluster_unlock_`; `reading n` is n + 1 read locks.
  unfoldable pub cluster_unlock : M S (Unit {0})
  cluster_unlock w = elim w.lock [
    | free ↦ fault not_locked
    | reading zero ↦ ok (tt, record w { lock = free })
    | reading (suc n) ↦ ok (tt, record w { lock = reading n })
    | writing ↦ ok (tt, record w { lock = free })
  ]

  -- The text behind a pointer that is dereferenced.
  abbrev pub read_str : CStr → M S Bytes
  read_str null = raise null_deref
  read_str (live s) = pure s
  read_str freed = raise use_after_free

  -- `free(p)`: what the pointer is afterwards.
  abbrev pub release : CStr → M S CStr
  release null = pure null
  release (live s) = pure freed
  release freed = raise double_free

  -- `a + b` on `int`
  abbrev pub add_int : ℤ → ℤ → M S ℤ
  add_int a b = if fits_int (a +ℤ b) then pure (a +ℤ b) else raise overflow

-- `strdup`, told whether the allocation succeeds.
abbrev pub strdup : Bool → Bytes → CStr
strdup true s = live s
strdup false s = null

abbrev pub is_null : CStr → Bool
is_null null = true
is_null _ = false

-- A postcondition that a fault does not meet.
abbrev pub Returns {ℓ} : {A : Type ℓ} → Outcome A → (A → Type 0) → Type 0
Returns (ok a) P = P a
Returns (fault x) P = ⊥
