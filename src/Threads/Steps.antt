-- ===== src/Threads/Steps.antt =====
-- What every step of the threads keeps.
use libcluster.Prelude.{
  ℕ, Bool, true, ◌≡◌, ◌⊎◌, refl, inl, inr, arith, Bool-cases, ◌∙◌, subst, ap, if◌then◌else◌,
}
use libcluster.Prelude.Int.{ℤ, pos, leb_ℤ, eq_ℤ, ◌+ℤ◌, fits_int}
use libcluster.Process.{
  Cluster, World, Outcome, ok, fault, overflow, free, writing, reading, cluster_rdlock,
  cluster_wrlock, cluster_unlock,
}
use libcluster.Threads.{
  Loops, Pass, broken, again, ping_start, ping_pass, ping_finish, balancer_start, balancer_test,
  balancer_balance, System, Step, Run,
}
use libcluster.Threads.Step.{
  ping_starts, ping_passes, ping_breaks, ping_finishes, balancer_starts, balancer_tests,
  balancer_breaks, balancer_continues, balancer_wakes, balancer_balances, balancer_finishes,
}
use libcluster.Threads.Run.{here, stepped, meanwhile}

module _ {S L : Type 0} (loops : Loops S L) (Held : Cluster → Type 0) where
  -- What the loops may rely on of their engine, for a cluster of which `Held` holds: no call in them
  -- faults, and of the cluster only a re-balancing changes anything.
  pub record IsQuiet : Type 0 where
    pub ping_runs :
        (w : World S)
        → Held w.cluster
        → (r : ℤ) × (s : S) × (loops.ping w ≡ ok (r, record w { server = s }))
    pub unping_runs :
        (w : World S)
        → Held w.cluster
        → (r : ℤ) × (s : S) × (loops.unping w ≡ ok (r, record w { server = s }))
    pub start_runs :
        (w : World S)
        → Held w.cluster
        → (l : L) × (s : S) × (loops.start w ≡ ok (l, record w { server = s }))
    pub wait_runs :
        (l : L) (w : World S)
        → Held w.cluster
        → (go : Bool) × (l' : L) × (s : S) × (loops.wait l w
            ≡ ok ((go, l'), record w { server = s }))
    pub stop_runs :
        (l : L) (w : World S) → (s : S) × (loops.stop l w ≡ ok (tt, record w { server = s }))
    pub balance_runs :
        (w : World S)
        → Held w.cluster
        → w.lock ≡ writing
        → (r : ℤ) × (w' : World S) × (loops.balance w ≡ ok (r, w'))
          × (w'.lock ≡ writing)
          × (w'.cluster.flags ≡ w.cluster.flags)
          × Held w'.cluster

  -- Between two steps nobody holds the lock.
  pub record IsSteady (w : World S) : Type 0 where
    pub unlocked : w.lock ≡ free
    pub held : Held w.cluster

  -- What a step leaves as it was.
  pub record Keeps (w w' : World S) : Type 0 where
    pub steady : IsSteady w'
    pub flags_kept : w'.cluster.flags ≡ w.cluster.flags

  module _ (quiet : IsQuiet) (w : World S) (steady : IsSteady w) where
    ping_pass-ends :
        (refresh count : ℤ)
        → ((p : Pass) × (s : S) × (ping_pass loops refresh count w
              ≡ ok (p, record w { server = s })))
          ⊎ (ping_pass loops refresh count w ≡ fault overflow)
    unfolding ping_pass cluster_rdlock cluster_unlock
    ping_pass-ends refresh count =
        let (r, s, run) = quiet.ping_runs (record w { lock = reading 0 }) steady.held in
        elim (Bool-cases w.cluster.flags.leaving) [
          | inl leaving ↦ inl (broken, w.server, ground (arith, steady.unlocked))
          | inr staying ↦ elim (Bool-cases (leb_ℤ count refresh)) [
            | inl early ↦ elim (Bool-cases (fits_int (count +ℤ pos 1))) [
              | inl fits ↦ inl (again 1 (count +ℤ pos 1), w.server, ground (arith, steady.unlocked))
              | inr wide ↦ inr (ground (arith, steady.unlocked))
            ]
            | inr due ↦ inl (
              if eq_ℤ r (pos 0) then again 0 (pos 0) else again 5 count,
              s,
              ground (arith, steady.unlocked, run),
            )
          ]
        ]

    pub ping_finish-ends : (s : S) × (ping_finish loops w ≡ ok (tt, record w { server = s }))
    unfolding ping_finish cluster_rdlock cluster_unlock
    ping_finish-ends =
        let (r, s, run) = quiet.unping_runs (record w { lock = reading 0 }) steady.held in
        (s, ground (arith, steady.unlocked, run))

    pub balancer_start-ends :
        (l : L) × (s : S) × (balancer_start loops w ≡ ok (l, record w { server = s }))
    unfolding balancer_start cluster_rdlock cluster_unlock
    balancer_start-ends =
        let (l, s, run) = quiet.start_runs (record w { lock = reading 0 }) steady.held in
        (l, s, ground (arith, steady.unlocked, run))

    pub balancer_balance-ends :
        (w' : World S) × (balancer_balance loops w ≡ ok (tt, w')) × Keeps w w'
    unfolding balancer_balance cluster_wrlock cluster_unlock
    balancer_balance-ends =
        let (r, v, run, locked, flags, held) =
          quiet.balance_runs (record w { lock = writing }) steady.held refl in
        (
          record v { lock = free },
          ground (arith, steady.unlocked, run, locked),
          record { steady = record { unlocked = refl; held = held }; flags_kept = flags },
        )

  served-Keeps :
      {A : Type 0} {a b : A} {o : Outcome (A × World S)} {w w' : World S} (s : S)
      → o ≡ ok (a, record w { server = s })
      → o ≡ ok (b, w')
      → IsSteady w
      → Keeps w w'
  served-Keeps {w} {w'} s run ended steady =
      let same : record w { server = s } ≡ w' = ground (arith, run, ended) in
      subst (Keeps w) same (record {
        steady = record { unlocked = steady.unlocked; held = steady.held };
        flags_kept = refl;
      })

  balancer_test-eq :
      (w : World S) → IsSteady w → balancer_test loops w ≡ ok (w.cluster.flags.leaving, w)
  unfolding balancer_test cluster_rdlock cluster_unlock
  balancer_test-eq w steady = ground (arith, steady.unlocked)

  pub ping_start-eq : (w : World S) → IsSteady w → ping_start loops w ≡ ok (w.cluster.refresh, w)
  unfolding ping_start cluster_rdlock cluster_unlock
  ping_start-eq w steady = ground (arith, steady.unlocked)

  pub ping_pass_leaving :
      (w : World S) (refresh count : ℤ)
      → IsSteady w
      → w.cluster.flags.leaving ≡ true
      → ping_pass loops refresh count w ≡ ok (broken, w)
  unfolding ping_pass cluster_rdlock cluster_unlock
  ping_pass_leaving w refresh count steady f = ground (arith, steady.unlocked)

  pub balancer_test_leaving :
      (w : World S)
      → IsSteady w
      → w.cluster.flags.leaving ≡ true
      → balancer_test loops w ≡ ok (true, w)
  balancer_test_leaving w steady f = balancer_test-eq w steady ∙ ap (λ b. ok (b, w)) f

  pub Step-Keeps :
      IsQuiet → {x y : System S L} → Step loops x y → IsSteady x.world → Keeps x.world y.world
  Step-Keeps quiet (ping_starts {w} refresh e) h = served-Keeps w.server (ping_start-eq w h) e h
  Step-Keeps quiet (ping_passes {w} {refresh} {count} seconds count' e) h =
      elim (ping_pass-ends quiet w h refresh count) [
        | inl (p, s, run) ↦ served-Keeps s run e h
        | inr broke ↦ absurd (ground (arith, broke, e))
      ]
  Step-Keeps quiet (ping_breaks {w} {refresh} {count} e) h =
      elim (ping_pass-ends quiet w h refresh count) [
        | inl (p, s, run) ↦ served-Keeps s run e h
        | inr broke ↦ absurd (ground (arith, broke, e))
      ]
  Step-Keeps quiet (ping_finishes {w} e) h =
      let (s, run) = ping_finish-ends quiet w h in served-Keeps s run e h
  Step-Keeps quiet (balancer_starts {w} l e) h =
      let (l', s, run) = balancer_start-ends quiet w h in served-Keeps s run e h
  Step-Keeps quiet (balancer_tests {w} e) h = served-Keeps w.server (balancer_test-eq w h) e h
  Step-Keeps quiet (balancer_breaks {w} e) h = served-Keeps w.server (balancer_test-eq w h) e h
  Step-Keeps quiet (balancer_continues {w} {l} l' e) h =
      let (go, k, s, run) = quiet.wait_runs l w h.held in served-Keeps s run e h
  Step-Keeps quiet (balancer_wakes {w} {l} l' e) h =
      let (go, k, s, run) = quiet.wait_runs l w h.held in served-Keeps s run e h
  Step-Keeps quiet (balancer_balances {w} {w'} e) h =
      let (v, run, kept) = balancer_balance-ends quiet w h in
      let same : v ≡ w' = ground (arith, run, e) in subst (Keeps w) same kept
  Step-Keeps quiet (balancer_finishes {w} {l} e) h =
      let (s, run) = quiet.stop_runs l w in served-Keeps s run e h

  pub Run-Keeps :
      IsQuiet
      → {x y : System S L} {n : ℕ} → Run loops x n y
      → IsSteady x.world
      → Keeps x.world y.world
  Run-Keeps quiet here h = record { steady = h; flags_kept = refl }
  Run-Keeps quiet (stepped {y} {z} r st) h =
      let before = Run-Keeps quiet r h in
      let after = Step-Keeps quiet st before.steady in
      record { steady = after.steady; flags_kept = after.flags_kept ∙ before.flags_kept }
  Run-Keeps quiet (meanwhile {y} r s) h =
      let before = Run-Keeps quiet r h in
      record {
        steady = record { unlocked = before.steady.unlocked; held = before.steady.held };
        flags_kept = before.flags_kept;
      }
