-- ===== src/Cluster/Settings/Exits.antt =====
-- How the setters of cluster.c return: with the lock released, and `errno` set on a refusal.
use libcluster.Prelude.Int.{ℤ, negsuc}
use libcluster.Process.{Errno, M, pure, ◌>>◌, set_errno, cluster_unlock}

module _ {S : Type 0} where
  abbrev pub unlock_return : ℤ → M S ℤ
  unlock_return r = do cluster_unlock; pure r

  abbrev pub refuse : Errno → M S ℤ
  refuse e = do cluster_unlock; set_errno e; pure (negsuc 0)
