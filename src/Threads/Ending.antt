-- ===== src/Threads/Ending.antt =====
-- Once CF_LEAVING is set, both threads end.
use libcluster.Prelude.{
  ℕ, zero, suc, ◌+◌, ◌≤◌, ◌<◌, true, ◌≡◌, ◌∙◌, ap, arith, inl, inr, dec_lt, Bool-cases,
}
use libcluster.Process.{Flags, Cluster, World, ok, cluster_rdlock, cluster_unlock}
use libcluster.Threads.{
  Loops, PingThread, ping_absent, ping_new, ping_loop, ping_leaving, ping_ended, BalancerThread,
  balancer_absent, balancer_new, balancer_loop, balancer_waiting, balancer_woken, balancer_leaving,
  balancer_ended, ping_pass, balancer_test, System, Step, Run,
}
use libcluster.Threads.Steps.{
  IsQuiet, IsSteady, Step-Keeps, Run-Keeps, ping_start-eq, ping_pass_leaving, ping_finish-ends,
  balancer_start-ends, balancer_test_leaving, balancer_balance-ends,
}
use libcluster.Threads.Step.{
  ping_starts, ping_passes, ping_breaks, ping_finishes, balancer_starts, balancer_tests,
  balancer_breaks, balancer_continues, balancer_wakes, balancer_balances, balancer_finishes,
}
use libcluster.Threads.Run.{here, stepped, meanwhile}

-- The steps that a thread still makes at most, once the flag is set.
abbrev pub ping_left : PingThread → ℕ
ping_left ping_absent = 0
ping_left ping_new = 3
ping_left (ping_loop refresh count) = 2
ping_left ping_leaving = 1
ping_left ping_ended = 0

abbrev pub balancer_left : {L : Type 0} → BalancerThread L → ℕ
balancer_left balancer_absent = 0
balancer_left balancer_new = 5
balancer_left (balancer_waiting l) = 4
balancer_left (balancer_woken l) = 3
balancer_left (balancer_loop l) = 2
balancer_left (balancer_leaving l) = 1
balancer_left balancer_ended = 0

ping_left_le : (p : PingThread) → ping_left p ≤ 3
ping_left_le p = ground arith

balancer_left_le : {L : Type 0} (b : BalancerThread L) → balancer_left b ≤ 5
balancer_left_le b = ground arith

module _ {S L : Type 0} where
  abbrev pub steps_left : System S L → ℕ
  steps_left x = ping_left x.ping + balancer_left x.balancer

  -- Both threads have ended, if they were there: what the two calls of `pthread_join` wait for.
  abbrev pub IsFinished : System S L → Type 0
  IsFinished y = steps_left y ≡ 0

  pub steps_left_le : (x : System S L) → steps_left x ≤ 8
  steps_left_le x = omega (arith, ping_left_le x.ping, balancer_left_le x.balancer)

module _ {S L : Type 0} (loops : Loops S L) (Held : Cluster → Type 0) where
  Step-steps_left :
      {x y : System S L}
      → Step loops x y
      → IsSteady loops Held x.world
      → x.world.cluster.flags.leaving ≡ true
      → steps_left y < steps_left x
  unfolding ping_pass balancer_test cluster_rdlock cluster_unlock
  Step-steps_left (ping_starts refresh e) h f = omega arith
  Step-steps_left (ping_passes seconds count' e) h f = ground (arith, e, h.unlocked)
  Step-steps_left (ping_breaks e) h f = omega arith
  Step-steps_left (ping_finishes e) h f = omega arith
  Step-steps_left (balancer_starts l e) h f = omega arith
  Step-steps_left (balancer_tests e) h f = ground (arith, e, h.unlocked)
  Step-steps_left (balancer_breaks e) h f = omega arith
  Step-steps_left (balancer_continues l' e) h f = omega arith
  Step-steps_left (balancer_wakes l' e) h f = omega arith
  Step-steps_left (balancer_balances e) h f = omega arith
  Step-steps_left (balancer_finishes e) h f = omega arith

  -- So a run has no more steps of the threads than were left.
  pub Run-steps_left :
      IsQuiet loops Held
      → {x y : System S L} {n : ℕ} → Run loops x n y
      → IsSteady loops Held x.world
      → x.world.cluster.flags.leaving ≡ true
      → n + steps_left y ≤ steps_left x
  Run-steps_left quiet here h f = omega arith
  Run-steps_left quiet (stepped {n} r st) h f =
      let kept = Run-Keeps loops Held quiet r h in
      omega (
        arith,
        Run-steps_left quiet r h f,
        Step-steps_left st kept.steady (ap (λ (g : Flags). g.leaving) kept.flags_kept ∙ f),
      )
  Run-steps_left quiet (meanwhile r s) h f = Run-steps_left quiet r h f

  -- As long as steps are left, one of the threads can make one: none of them waits for another.
  Step-next :
      IsQuiet loops Held
      → (w : World S) (p : PingThread) (b : BalancerThread L) → IsSteady loops Held w
      → w.cluster.flags.leaving ≡ true
      → 0 < ping_left p + balancer_left b
      → (y : System S L) × Step loops (record { world = w; ping = p; balancer = b }) y
  Step-next quiet w ping_new b h f m =
      (_, ping_starts w.cluster.refresh (ping_start-eq loops Held w h))
  Step-next quiet w (ping_loop refresh count) b h f m =
      (_, ping_breaks (ping_pass_leaving loops Held w refresh count h f))
  Step-next quiet w ping_leaving b h f m =
      let (s, run) = ping_finish-ends loops Held quiet w h in (_, ping_finishes run)
  Step-next quiet w p balancer_new h f m =
      let (l, s, run) = balancer_start-ends loops Held quiet w h in (_, balancer_starts l run)
  Step-next quiet w p (balancer_loop l) h f m =
      (_, balancer_breaks (balancer_test_leaving loops Held w h f))
  Step-next quiet w p (balancer_waiting l) h f m =
      let (go, k, s, run) = quiet.wait_runs l w h.held in
      elim (Bool-cases go) [
        | inl wakes ↦
            (_, balancer_wakes k (run ∙ ap (λ g. ok ((g, k), record w { server = s })) wakes))
        | inr sleeps ↦
            (_, balancer_continues k (run ∙ ap (λ g. ok ((g, k), record w { server = s })) sleeps))
      ]
  Step-next quiet w p (balancer_woken l) h f m =
      let (v, run, kept) = balancer_balance-ends loops Held quiet w h in (_, balancer_balances run)
  Step-next quiet w p (balancer_leaving l) h f m =
      let (s, run) = quiet.stop_runs l w in (_, balancer_finishes run)
  Step-next quiet w ping_absent balancer_absent h f m = absurd (omega arith)
  Step-next quiet w ping_absent balancer_ended h f m = absurd (omega arith)
  Step-next quiet w ping_ended balancer_absent h f m = absurd (omega arith)
  Step-next quiet w ping_ended balancer_ended h f m = absurd (omega arith)

  finish_within :
      IsQuiet loops Held
      → (k : ℕ) {x y : System S L} {n : ℕ} → Run loops x n y
      → IsSteady loops Held y.world
      → y.world.cluster.flags.leaving ≡ true
      → steps_left y ≤ k
      → (m : ℕ) × (z : System S L) × Run loops x m z × IsFinished z
  finish_within quiet zero {x} {y} {n} r h f bound = (n, y, r, omega arith)
  finish_within quiet (suc k) {x} {y} {n} r h f bound = elim (dec_lt 0 (steps_left y)) [
    | no none_left ↦ (n, y, r, omega arith)
    | yes left ↦
        let (z, st) = Step-next quiet y.world y.ping y.balancer h f left in
        let kept = Step-Keeps loops Held quiet st h in
        finish_within quiet k (stepped r st) kept.steady
          (ap (λ (g : Flags). g.leaving) kept.flags_kept ∙ f)
          (omega (arith, Step-steps_left st h f))
  ]

  -- From wherever the threads stand when the flag is set, every run is short and goes on to their end.
  pub Run-finishes :
      IsQuiet loops Held
      → {x y : System S L} {n : ℕ} → Run loops x n y
      → IsSteady loops Held x.world
      → x.world.cluster.flags.leaving ≡ true
      → (n ≤ 8) × ((m : ℕ) × (z : System S L) × Run loops y m z × IsFinished z)
  Run-finishes quiet {x} {y} r h f =
      let kept = Run-Keeps loops Held quiet r h in
      (
        omega (arith, Run-steps_left quiet r h f, steps_left_le x),
        finish_within quiet (steps_left y) here kept.steady
            (ap (λ (g : Flags). g.leaving) kept.flags_kept ∙ f) (omega arith),
      )
