-- ===== src/Cluster/Settings.antt =====
-- cluster.c: the operations that configure a cluster connection, but for its registry.
-- `strdup_ok` and `malloc_ok` say whether the call's allocation succeeds. Log lines are left out:
-- they read the cluster and write no field of it, and have a module of their own, Logging.
pub mod Exits
use Exits.{unlock_return, refuse}
use libcluster.Prelude.{
  ℕ, zero, suc, ◌+◌, Bool, true, false, ◌&&◌, ◌||◌, Option, none, some, List, [], ◌∷◌, leb,
  if◌then◌else◌,
}
use libcluster.Prelude.Int.{ℤ, pos, negsuc, eq_ℤ}
use libcluster.Prelude.Bytes.{Bytes}
use libcluster.Process.{
  CStr, live, Errno, eperm, einval, null_deref, out_of_bounds, relock, M, pure, ◌>>=◌, ◌>>◌, raise,
  get_cluster, put_cluster, cluster_wrlock, cluster_unlock, cluster_rdlock, release, strdup,
  is_null,
}

-- CLUSTER_DEFAULT_ENV
abbrev pub default_env : Bytes
default_env = b'p' ∷ b'r' ∷ b'o' ∷ b'd' ∷ b'u' ∷ b'c' ∷ b't' ∷ b'i' ∷ b'o' ∷ b'n' ∷ []

abbrev pub or_default : Option Bytes → Bytes
or_default none = default_env
or_default (some s) = s

-- `isalnum` in the C locale
unfoldable pub isalnum : ℕ → Bool
isalnum c = (leb b'0' c && leb c b'9') || (leb b'A' c && leb c b'Z') || (leb b'a' c && leb c b'z')

-- The loop that copies the letters and digits of a UUID's text into a buffer with `room` bytes
-- left, the NUL included; `none` is a write behind the buffer.
unfoldable pub copy_alnum : ℕ → Bytes → Option Bytes
copy_alnum zero [] = none
copy_alnum (suc room) [] = some []
copy_alnum room (c ∷ cs) = elim (isalnum c) [
  | true ↦ elim room [
    | zero ↦ none
    | suc left ↦ elim (copy_alnum left cs) [ none ↦ none | some t ↦ some (c ∷ t) ]
  ]
  | false ↦ copy_alnum room cs
]

module _ {S : Type 0} where
  unfoldable pub cluster_set_env : Bool → Option Bytes → M S ℤ
  unfolding cluster_wrlock cluster_unlock
  cluster_set_env strdup_ok env = do
    cluster_wrlock
    c ← get_cluster
    if c.flags.joined
        then refuse eperm
        else if is_null (strdup strdup_ok (or_default env))
        then unlock_return (negsuc 0)
        else (do
          _ ← release c.env
          put_cluster (record c { env = strdup strdup_ok (or_default env) })
          unlock_return (pos 0))

  unfoldable pub cluster_set_instance : Bool → Option Bytes → M S ℤ
  unfolding cluster_wrlock cluster_unlock
  cluster_set_instance strdup_ok name = do
    cluster_wrlock
    c ← get_cluster
    if c.flags.joined then refuse eperm else elim name [
      | none ↦ refuse einval
      | some s ↦ if is_null (strdup strdup_ok s) then unlock_return (negsuc 0) else (do
        _ ← release c.instid
        put_cluster (record c { instid = strdup strdup_ok s })
        unlock_return (pos 0))
    ]

  -- The test is on the old identifier, not on the new block: a failed `malloc` is written through,
  -- and the message for a missing identifier takes the lock that the caller holds.
  unfoldable pub cluster_reset_instance_locked : Bool → Bytes → M S ℤ
  unfolding cluster_rdlock cluster_unlock
  cluster_reset_instance_locked malloc_ok uuid = do
    c ← get_cluster
    if is_null c.instid
        then (do cluster_rdlock; unlock_return (negsuc 0))
        else if malloc_ok
        then elim (copy_alnum 33 uuid) [
          | none ↦ raise out_of_bounds
          | some s ↦ (do
            _ ← release c.instid
            put_cluster (record c { instid = live s })
            pure (pos 0))
        ]
        else raise null_deref

  unfoldable pub cluster_reset_instance : Bool → Bytes → M S ℤ
  unfolding cluster_wrlock cluster_unlock cluster_reset_instance_locked
  cluster_reset_instance malloc_ok uuid = do
    cluster_wrlock
    r ← cluster_reset_instance_locked malloc_ok uuid
    unlock_return r

  unfoldable pub cluster_set_partition : Bool → Option Bytes → M S ℤ
  unfolding cluster_wrlock cluster_unlock
  cluster_set_partition strdup_ok partition = do
    cluster_wrlock
    c ← get_cluster
    if c.flags.joined then refuse eperm else elim partition [
      | none ↦ (do
        _ ← release c.partition
        put_cluster (record c { partition = CStr.null })
        unlock_return (pos 0))
      | some s ↦ if is_null (strdup strdup_ok s) then unlock_return (negsuc 0) else (do
        _ ← release c.partition
        put_cluster (record c { partition = strdup strdup_ok s })
        unlock_return (pos 0))
    ]

  unfoldable pub cluster_set_workers : ℤ → M S ℤ
  unfolding cluster_wrlock cluster_unlock
  cluster_set_workers nworkers = do
    cluster_wrlock
    c ← get_cluster
    put_cluster (record c { inst_threads = nworkers })
    unlock_return (pos 0)

  unfoldable pub cluster_set_threads : ℤ → M S ℤ
  unfolding cluster_set_workers
  cluster_set_threads nthreads = cluster_set_workers nthreads

  unfoldable pub cluster_set_verbose : ℤ → M S ℤ
  unfolding cluster_wrlock cluster_unlock
  cluster_set_verbose verbose = do
    cluster_wrlock
    c ← get_cluster
    put_cluster (record c {
      flags = record (c.flags) { verbose = if eq_ℤ verbose (pos 0) then false else true };
    })
    unlock_return (pos 0)

  -- `callback` says whether the pointer that is set is not NULL.
  unfoldable pub cluster_set_balancer : Bool → M S ℤ
  unfolding cluster_wrlock cluster_unlock
  cluster_set_balancer callback = do
    cluster_wrlock
    c ← get_cluster
    put_cluster (record c { balancer = callback })
    unlock_return (pos 0)

  unfoldable pub cluster_set_logger : Bool → M S ℤ
  unfolding cluster_wrlock cluster_unlock
  cluster_set_logger callback = do
    cluster_wrlock
    c ← get_cluster
    put_cluster (record c { logger = callback })
    unlock_return (pos 0)
