-- ===== src/Membership/Frozen.antt =====
-- The parameters of a connection that is joined cannot be altered.
use libcluster.Prelude.{Bool, Option}
use libcluster.Prelude.Int.{ℤ}
use libcluster.Prelude.Bytes.{Bytes}
use libcluster.Membership.Requests.{
  Request, set_env, set_instance, set_partition, set_registry, static_set_index, static_set_total,
}

-- The calls that alter a parameter of the membership.
pub data IsParameter : Request → Type 0 where
  of_env : (a : Bool) (s : Option Bytes) → IsParameter (set_env a s)
  of_instance : (a : Bool) (s : Option Bytes) → IsParameter (set_instance a s)
  of_partition : (a : Bool) (s : Option Bytes) → IsParameter (set_partition a s)
  of_registry : (a : Bool) (s : Option Bytes) → IsParameter (set_registry a s)
  of_index : (n : ℤ) → IsParameter (static_set_index n)
  of_total : (n : ℤ) → IsParameter (static_set_total n)
