-- ===== src/Tally/Member.antt =====
-- A member of a cluster: its instance identifier and how many workers it has.
use libcluster.Prelude.{ℕ}
use libcluster.Prelude.Bytes.{Bytes}

pub record Member : Type 0 where
  pub id : Bytes
  pub workers : ℕ
