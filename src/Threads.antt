-- ===== src/Threads.antt =====
-- The two threads of a member: the loops of cluster_etcd_ping_thread_, cluster_etcd_balancer_thread_
-- (engines/etcd.c), cluster_sql_ping_thread_ and cluster_sql_balancer_thread_ (engines/sql.c), over
-- what each engine calls in them. A pass is cut where the thread holds no lock, so that between two
-- steps of the system any of the threads may be the next to run. Sleeping is a number of seconds.
pub mod Steps
pub mod Ending
pub mod Period
use libcluster.Prelude.{ℕ, suc, ◌≡◌, Bool, true, false, if◌then◌else◌}
use libcluster.Prelude.Int.{ℤ, pos, ◌+ℤ◌, eq_ℤ, leb_ℤ}
use libcluster.Process.{
  World, M, ok, pure, ◌>>=◌, ◌>>◌, get_cluster, cluster_rdlock, cluster_wrlock, cluster_unlock,
  add_int,
}

-- What an engine's loops call. `L` is what the balancing thread keeps in its own variables: `start`
-- gives it, `wait` says whether to re-balance now, `stop` ends it.
pub record Loops (S L : Type 0) : Type 0 where
  pub ping : M S ℤ
  pub unping : M S ℤ
  pub start : M S L
  pub wait : L → M S (Bool × L)
  pub balance : M S ℤ
  pub stop : L → M S (Unit {0})

-- What a pass of the ping thread ends with: `break`, or the seconds that it slept and the new count.
pub data Pass : Type 0 where
  broken : Pass
  again : (seconds : ℕ) (count : ℤ) → Pass

module _ {S L : Type 0} (loops : Loops S L) where
  -- Before the loop: `refresh` is read once, and `count` starts with it.
  unfoldable pub ping_start : M S ℤ
  unfolding cluster_rdlock cluster_unlock
  ping_start = do cluster_rdlock; c ← get_cluster; cluster_unlock; pure c.refresh

  -- One pass of the loop of the ping thread.
  unfoldable pub ping_pass : ℤ → ℤ → M S Pass
  unfolding cluster_rdlock cluster_unlock
  ping_pass refresh count = do
    cluster_rdlock
    c ← get_cluster
    if c.flags.leaving
        then (do cluster_unlock; pure broken)
        else if leb_ℤ count refresh
        then (do cluster_unlock; next ← add_int count (pos 1); pure (again 1 next))
        else (do
          r ← loops.ping
          cluster_unlock
          pure (if eq_ℤ r (pos 0) then again 0 (pos 0) else again 5 count))

  -- Behind the loop of the ping thread.
  unfoldable pub ping_finish : M S (Unit {0})
  unfolding cluster_rdlock cluster_unlock
  ping_finish = do cluster_rdlock; _ ← loops.unping; cluster_unlock

  -- Before the loop of the balancing thread.
  unfoldable pub balancer_start : M S L
  unfolding cluster_rdlock cluster_unlock
  balancer_start = do cluster_rdlock; l ← loops.start; cluster_unlock; pure l

  -- The test at the top of its loop: is the thread to end?
  unfoldable pub balancer_test : M S Bool
  unfolding cluster_rdlock cluster_unlock
  balancer_test = do cluster_rdlock; c ← get_cluster; cluster_unlock; pure c.flags.leaving

  -- What it does with the write lock, once it has waited.
  unfoldable pub balancer_balance : M S (Unit {0})
  unfolding cluster_wrlock cluster_unlock
  balancer_balance = do cluster_wrlock; _ ← loops.balance; cluster_unlock

-- Where a thread stands; `absent` if it has not been created or has been waited for.
pub data PingThread : Type 0 where
  ping_absent ping_new : PingThread
  ping_loop : (refresh count : ℤ) → PingThread
  ping_leaving ping_ended : PingThread

pub data BalancerThread (L : Type 0) : Type 0 where
  balancer_absent balancer_new : BalancerThread L
  balancer_loop balancer_waiting balancer_woken balancer_leaving : L → BalancerThread L
  balancer_ended : BalancerThread L

pub record System (S L : Type 0) : Type 0 where
  pub world : World S
  pub ping : PingThread
  pub balancer : BalancerThread L

module _ {S L : Type 0} (loops : Loops S L) where
  -- One step of one of the threads.
  pub data Step : System S L → System S L → Type 0 where
    ping_starts :
        {w w' : World S} {b : BalancerThread L} (refresh : ℤ)
        → ping_start loops w ≡ ok (refresh, w')
        → Step
            (record { world = w; ping = ping_new; balancer = b })
            (record { world = w'; ping = ping_loop refresh refresh; balancer = b })
    ping_passes :
        {w w' : World S} {b : BalancerThread L} {refresh count : ℤ} (seconds : ℕ) (count' : ℤ)
        → ping_pass loops refresh count w ≡ ok (again seconds count', w')
        → Step
            (record { world = w; ping = ping_loop refresh count; balancer = b })
            (record { world = w'; ping = ping_loop refresh count'; balancer = b })
    ping_breaks :
        {w w' : World S} {b : BalancerThread L} {refresh count : ℤ}
        → ping_pass loops refresh count w ≡ ok (broken, w')
        → Step
            (record { world = w; ping = ping_loop refresh count; balancer = b })
            (record { world = w'; ping = ping_leaving; balancer = b })
    ping_finishes :
        {w w' : World S} {b : BalancerThread L}
        → ping_finish loops w ≡ ok (tt, w')
        → Step
            (record { world = w; ping = ping_leaving; balancer = b })
            (record { world = w'; ping = ping_ended; balancer = b })
    balancer_starts :
        {w w' : World S} {p : PingThread} (l : L)
        → balancer_start loops w ≡ ok (l, w')
        → Step
            (record { world = w; ping = p; balancer = balancer_new })
            (record { world = w'; ping = p; balancer = balancer_loop l })
    balancer_tests :
        {w w' : World S} {p : PingThread} {l : L}
        → balancer_test loops w ≡ ok (false, w')
        → Step
            (record { world = w; ping = p; balancer = balancer_loop l })
            (record { world = w'; ping = p; balancer = balancer_waiting l })
    balancer_breaks :
        {w w' : World S} {p : PingThread} {l : L}
        → balancer_test loops w ≡ ok (true, w')
        → Step
            (record { world = w; ping = p; balancer = balancer_loop l })
            (record { world = w'; ping = p; balancer = balancer_leaving l })
    balancer_continues :
        {w w' : World S} {p : PingThread} {l : L} (l' : L)
        → loops.wait l w ≡ ok ((false, l'), w')
        → Step
            (record { world = w; ping = p; balancer = balancer_waiting l })
            (record { world = w'; ping = p; balancer = balancer_loop l' })
    balancer_wakes :
        {w w' : World S} {p : PingThread} {l : L} (l' : L)
        → loops.wait l w ≡ ok ((true, l'), w')
        → Step
            (record { world = w; ping = p; balancer = balancer_waiting l })
            (record { world = w'; ping = p; balancer = balancer_woken l' })
    balancer_balances :
        {w w' : World S} {p : PingThread} {l : L}
        → balancer_balance loops w ≡ ok (tt, w')
        → Step
            (record { world = w; ping = p; balancer = balancer_woken l })
            (record { world = w'; ping = p; balancer = balancer_loop l })
    balancer_finishes :
        {w w' : World S} {p : PingThread} {l : L}
        → loops.stop l w ≡ ok (tt, w')
        → Step
            (record { world = w; ping = p; balancer = balancer_leaving l })
            (record { world = w'; ping = p; balancer = balancer_ended })

  -- A run: steps of the threads, which are counted, and changes of the registry by other instances.
  pub data Run (x : System S L) : ℕ → System S L → Type 0 where
    here : Run x 0 x
    stepped : {n : ℕ} {y z : System S L} → Run x n y → Step y z → Run x (suc n) z
    meanwhile :
        {n : ℕ} {y : System S L}
        → Run x n y
        → (s : S) → Run x n (record y { world = record (y.world) { server = s } })
