-- ===== src/Threads/Period.antt =====
-- How often the ping thread renews the entry.
use libcluster.Prelude.{ℕ, zero, suc, ◌+◌, ◌≤◌, false, ◌≡◌, arith}
use libcluster.Prelude.Int.{ℤ, pos, int_max}
use libcluster.Process.{World, M, ok, pure, ◌>>=◌, free, reading, cluster_rdlock, cluster_unlock}
use libcluster.Threads.{Loops, broken, again, ping_pass}

module _ {S L : Type 0} (loops : Loops S L) where
  -- A number of passes in a row: the seconds that they slept in all, and the last count.
  pub ping_passes : ℕ → ℤ → ℤ → M S (ℕ × ℤ)
  unfolding ping_pass
  ping_passes zero refresh count = pure (0, count)
  ping_passes (suc n) refresh count = do
    p ← ping_pass loops refresh count
    elim p [
      | broken ↦ pure (0, count)
      | again seconds count' ↦ (do
        (total, last) ← ping_passes n refresh count'
        pure (seconds + total, last))
    ]

  ping_passes_early :
      (n r k : ℕ) (w : World S)
      → w.lock ≡ free
      → w.cluster.flags.leaving ≡ false
      → k + n ≤ suc r
      → suc r ≤ int_max
      → ping_passes n (pos r) (pos k) w ≡ ok ((n, pos (k + n)), w)
  unfolding ping_passes ping_pass cluster_rdlock cluster_unlock
  ping_passes_early zero r k w unlocked staying bound small = ground arith
  ping_passes_early (suc n) r k w unlocked staying bound small =
      let rest : ping_passes n (pos r) (pos (suc k)) w ≡ ok ((n, pos (suc k + n)), w) =
        ping_passes_early n r (suc k) w unlocked staying (omega arith) small in
      ground (arith, rest)

  ping_pass_due :
      (r : ℕ) (w v : World S)
      → w.lock ≡ free
      → w.cluster.flags.leaving ≡ false
      → loops.ping (record w { lock = reading 0 }) ≡ ok (pos 0, v)
      → v.lock ≡ reading 0
      → ping_pass loops (pos r) (pos (suc r)) w ≡ ok (again 0 (pos 0), record v { lock = free })
  unfolding ping_pass cluster_rdlock cluster_unlock
  ping_pass_due r w v unlocked staying ping kept = ground (arith, ping)

  -- On an unlocked connection that is not told to leave, with the count at 0 and a refresh from
  -- 0 to below INT_MAX: refresh + 1 passes of the ping thread's loop sleep refresh + 1 seconds
  -- in all and change nothing, and the pass after them pings, without sleeping, and sets the
  -- count to 0 if the ping answers 0 and keeps the read lock.
  pub ping_passes-period :
      (r : ℕ) (w v : World S)
      → w.lock ≡ free
      → w.cluster.flags.leaving ≡ false
      → loops.ping (record w { lock = reading 0 }) ≡ ok (pos 0, v)
      → v.lock ≡ reading 0
      → suc r ≤ int_max
      → (ping_passes (suc r) (pos r) (pos 0) w ≡ ok ((suc r, pos (suc r)), w))
        × (ping_pass loops (pos r) (pos (suc r)) w ≡ ok (again 0 (pos 0), record v { lock = free }))
  ping_passes-period r w v unlocked staying ping kept small = (
    ground (arith, ping_passes_early (suc r) r 0 w unlocked staying),
    ping_pass_due r w v unlocked staying ping kept,
  )
