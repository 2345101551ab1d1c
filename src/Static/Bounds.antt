-- ===== src/Static/Bounds.antt =====
-- What joining a static cluster establishes.
use libcluster.Prelude.{false, zero, true, ◌∷◌, ◌≡◌, ◌⊎◌, arith, if◌then◌else◌}
use libcluster.Prelude.Int.{ℤ, pos, negsuc, ◌+ℤ◌, ◌≤ℤ◌, fits_int}
use libcluster.Process.{free, einval, World, Returns}
use libcluster.Static.{cluster_static_join}

-- The total that a configuration stands for: 1 for 0.
abbrev pub full_total : ℤ → ℤ
full_total (pos zero) = pos 1
full_total n = n

-- A member whose workers' indices lie in the cluster, and whose application has been told.
pub record IsPlaced {S : Type 0} (before after : World S) : Type 0 where
  pub below : pos 1 +ℤ before.cluster.inst_index ≤ℤ full_total before.cluster.total_threads
  pub fits :
      before.cluster.inst_index +ℤ before.cluster.inst_threads
      ≤ℤ full_total before.cluster.total_threads
  pub placed : after ≡ record before {
    cluster = record (before.cluster) {
      total_threads = full_total before.cluster.total_threads;
      flags = record (before.cluster.flags) { joined = true };
    };
    calls =
        if before.cluster.balancer
        then record {
          index = before.cluster.inst_index;
          workers = before.cluster.inst_threads;
          total = full_total before.cluster.total_threads;
          passive = false;
        }
          ∷ before.calls
        else before.calls;
  }

-- A configuration that is refused: the index or the last worker does not lie below the total.
pub record IsMisplaced {S : Type 0} (before after : World S) : Type 0 where
  pub refused : after ≡ record before {
    cluster = record (before.cluster) { total_threads = full_total before.cluster.total_threads };
    errno = einval;
  }
  pub reason :
      (full_total before.cluster.total_threads ≤ℤ before.cluster.inst_index)
      ⊎ (pos 1 +ℤ full_total before.cluster.total_threads
          ≤ℤ before.cluster.inst_index +ℤ before.cluster.inst_threads)

module _ {S : Type 0} where
  -- cluster_static_join_ on an unlocked connection whose index and workers add up to an int
  -- returns, with the total that it had, or 1 where it was 0. Either it returns 0, the index
  -- lies below that total, index and workers together do not pass it, and nothing but the total
  -- has changed but that the connection is joined and the callback, if there is one, is noted
  -- once with the index, the workers, that total and passive unset; or it returns -1, the index
  -- is not below that total or the sum passes it, and nothing but the total has changed but that
  -- errno is EINVAL.
  pub static_join-IsPlaced :
      (w : World S)
      → w.lock ≡ free
      → fits_int (w.cluster.inst_index +ℤ w.cluster.inst_threads) ≡ true
      → Returns
          (cluster_static_join w)
          (λ r. ((r.0 ≡ pos 0) × IsPlaced w r.1) ⊎ ((r.0 ≡ negsuc 0) × IsMisplaced w r.1))
  unfolding cluster_static_join
  static_join-IsPlaced w unlocked fits = ground arith
