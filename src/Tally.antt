-- ===== src/Tally.antt =====
-- The loop that both engines run over the members of a cluster: cluster_etcd_balance_ over the
-- sorted keys of a JSON object, cluster_sql_balance_ over the rows of a query. Here over the pairs
-- of identifier and worker count that either meets; the engines' own loops are proved equal to it.
pub mod Member
pub mod Layout
pub mod Partition
use libcluster.Prelude.{
  ℕ, ◌+◌, ◌≤◌, Bool, true, false, ◌&&◌, not, Option, none, some, List, [], ◌∷◌, ◌≡◌, arith,
  if◌then◌else◌, ltb, ◌%◌, ◌^◌, ◌-◌,
}
use libcluster.Prelude.Int.{ℤ, pos, negsuc, ◌+ℤ◌, fits_int, int_max}
use libcluster.Prelude.Bytes.{Bytes, strcmp_eq}
use libcluster.Process.{Fault, overflow, Outcome, ok, fault}

-- The `int` that an integer of another width converts to: its value modulo 2^32.
abbrev signed32 : ℕ → ℤ
signed32 w = if ltb w (2 ^ 31) then pos w else negsuc (2 ^ 32 - w - 1)

unfoldable pub to_int : ℤ → ℤ
to_int (pos n) = signed32 (n % 2 ^ 32)
to_int (negsuc n) = signed32 (2 ^ 32 - 1 - n % 2 ^ 32)

-- `total += val`
unfoldable pub add_total : ℤ → ℤ → Outcome ℤ
add_total total val = if fits_int (total +ℤ val) then ok (total +ℤ val) else fault overflow

-- What one pass over the members leaves in `base` and `total`. `counts` is false for a passive
-- instance of an SQL cluster, which is not looked for.
unfoldable pub tally : Bool → Bytes → List (Bytes × ℤ) → ℤ → ℤ → Outcome (ℤ × ℤ)
unfolding add_total
tally counts instid [] base total = ok (base, total)
tally counts instid ((id, val) ∷ ms) base total = elim (add_total total val) [
  | fault x ↦ fault x
  | ok sum ↦ tally counts instid ms (if strcmp_eq id instid && counts then total else base) sum
]
