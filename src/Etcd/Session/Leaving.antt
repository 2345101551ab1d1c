-- ===== src/Etcd/Session/Leaving.antt =====
-- Leaving an etcd cluster: both threads run to their end, and everything is closed.
use libcluster.Prelude.{ℕ, Bool, true, false, some, ◌≡◌, refl, inl, inr, arith, if◌then◌else◌}
use libcluster.Prelude.Int.{ℤ, pos}
use libcluster.Prelude.Bytes.{Bytes}
use libcluster.Process.{
  live, free, writing, Flags, Cluster, World, ok, M, Returns, cluster_rdlock, cluster_wrlock,
  cluster_unlock,
}
use libcluster.Jansson.{Jansson}
use libcluster.Etcd.Client.{Reply, reply, status, EtcdClient}
use libcluster.Etcd.Balance.{cluster_etcd_unping}
use libcluster.Etcd.Balance.Result.{adopted, etcd_balance_adopts, etcd_balance_unread}
use libcluster.Etcd.Session.{
  Late, late_pass, is_before, is_after, ping_thread_exit, balancer_pass, join_threads,
  cluster_etcd_leave,
}
use libcluster.Etcd.Session.Whole.{IsCalm, IsApart, IsMember, closed, close_all-eq, closed-IsApart}

-- A property of the connection and of the registry's side that the last steps of the threads keep,
-- with `h` as the environment directory.
pub record IsKept {S : Type 0} (J : Jansson) (client : EtcdClient J S) (h : ℕ)
    (Φ : Cluster → S → Type 0) : Type 0 where
  pub flagging : (c : Cluster) (f : Flags) (s : S) → Φ c s → Φ (record c { flags = f }) s
  pub adopting :
      (c : Cluster) (base total : ℤ) (s : S)
      → Φ c s
      → Φ (record c { inst_index = base; total_threads = total }) s
  pub reading :
      (c : Cluster) (s s' : S) (r : Reply (J.Json))
      → c.etcd_envdir ≡ some h
      → client.etcd_dir_get h s ≡ ok (r, s')
      → Φ c s
      → Φ c s'
  pub deleting :
      (c : Cluster) (i : Bytes) (s : S)
      → c.etcd_envdir ≡ some h
      → Φ c s
      → Φ c (client.etcd_key_delete h i s).1

module _ {S : Type 0} (J : Jansson) (client : EtcdClient J S) (h : ℕ) (Φ : Cluster → S → Type 0)
    (keeps : IsKept J client h Φ) where
  -- What the threads need while they run, and leave as it was.
  pub record IsHeld (i : Bytes) (w : World S) : Type 0 where
    pub unlocked : w.lock ≡ free
    pub dir : w.cluster.etcd_envdir ≡ some h
    pub name : w.cluster.instid ≡ live i
    pub kept : Φ w.cluster w.server

  -- A part of a thread's run that ends, and keeps what the threads need.
  abbrev pub Runs : Bytes → M S (Unit {0}) → World S → Type 0
  Runs i m w = (w' : World S) × (m w ≡ ok (tt, w')) × IsHeld i w'

  ping_thread_exit-Runs :
      (i : Bytes) (w : World S) → IsHeld i w → Runs i (ping_thread_exit J client) w
  unfolding ping_thread_exit cluster_rdlock cluster_unlock cluster_etcd_unping
  ping_thread_exit-Runs i w held = (
    record w { server = (client.etcd_key_delete h i w.server).1 },
    ground arith,
    record {
      unlocked = held.unlocked;
      dir = held.dir;
      name = held.name;
      kept = keeps.deleting w.cluster i w.server held.dir held.kept;
    },
  )

  balancer_pass-Runs :
      IsCalm J client
      → (i : Bytes) (w : World S) → IsHeld i w
      → Runs i (balancer_pass J client true) w
  unfolding balancer_pass cluster_wrlock cluster_unlock
  balancer_pass-Runs calm i w held = elim (calm.answers h i w.server) [
    | inl (d, s, base, total, got, pass) ↦ (
      record (adopted (record w { server = s }) base total) { lock = free },
      ground (
        arith,
        etcd_balance_adopts J client (record w { lock = writing }) h i d s base total refl held.dir
            held.name got pass,
      ),
      record {
        unlocked = refl;
        dir = held.dir;
        name = held.name;
        kept =
            keeps.adopting w.cluster base total s
              (keeps.reading w.cluster w.server s (reply d) held.dir got held.kept);
      },
    )
    | inr (code, s, got) ↦ (
      record w { server = s },
      ground (
        arith,
        etcd_balance_unread J client true (record w { lock = writing }) h code s held.dir got,
      ),
      record {
        unlocked = held.unlocked;
        dir = held.dir;
        name = held.name;
        kept = keeps.reading w.cluster w.server s (status code) held.dir got held.kept;
      },
    )
  ]

  optional-Runs :
      (i : Bytes) (b : Bool) (m : M S (Unit {0}))
      → ((w : World S) → IsHeld i w → Runs i m w)
      → (w : World S) → IsHeld i w
      → Runs i (if b then m else (λ w. ok (tt, w))) w
  optional-Runs i true m run w held = run w held
  optional-Runs i false m run w held = (w, refl, held)

  late_pass-Runs :
      IsCalm J client
      → (i : Bytes) (b : Bool) (w : World S) → IsHeld i w
      → Runs i (late_pass J client b true) w
  late_pass-Runs calm i true w held = balancer_pass-Runs calm i w held
  late_pass-Runs calm i false w held = (w, refl, held)

  pub join_threads-Runs :
      IsCalm J client
      → (i : Bytes) (late : Late) (pt bt : Bool) (w : World S) → w.cluster.flags.leaving ≡ true
      → IsHeld i w
      → Runs i (join_threads J client late true pt bt) w
  unfolding join_threads
  join_threads-Runs calm i late pt bt w told held =
      let (a, run_a, held_a) =
        optional-Runs i bt (late_pass J client (is_before late) true)
          (late_pass-Runs calm i (is_before late)) w held in
      let (b, run_b, held_b) =
        optional-Runs i pt (ping_thread_exit J client) (ping_thread_exit-Runs i) a held_a in
      let (c, run_c, held_c) =
        optional-Runs i bt (late_pass J client (is_after late) true)
          (late_pass-Runs calm i (is_after late)) b held_b in
      (c, ground (arith, run_a, run_b, run_c), held_c)

  abbrev leaving : World S → World S
  leaving w = record w {
    cluster = record (w.cluster) { flags = record (w.cluster.flags) { leaving = true } };
  }

  -- Everything is closed from a world that is like the one before but for what the threads did.
  pub etcd_leave-closes :
      IsCalm J client
      → (i : Bytes) (late : Late) (w : World S) → IsMember w
      → w.cluster.etcd_envdir ≡ some h
      → w.cluster.instid ≡ live i
      → Φ w.cluster w.server
      → (v : World S) × Φ v.cluster v.server
        × (cluster_etcd_leave J client late true w ≡ ok (pos 0, closed J client v))
  unfolding cluster_etcd_leave cluster_wrlock cluster_unlock
  etcd_leave-closes calm i late w member dir name kept =
      let (v, run, held) =
        join_threads-Runs calm i late w.cluster.ping_thread w.cluster.balancer_thread
          (record (leaving w) { lock = free }) refl
          (record {
            unlocked = refl;
            dir = dir;
            name = name;
            kept =
                keeps.flagging w.cluster (record (w.cluster.flags) { leaving = true }) w.server
                  kept;
          }) in
      (
        record v { lock = writing },
        held.kept,
        ground (
          arith,
          run,
          held.unlocked,
          member.unlocked,
          member.joined,
          close_all-eq J client (record v { lock = writing }) refl,
        ),
      )

module _ {S : Type 0} (J : Jansson) (client : EtcdClient J S) where
  -- Every client keeps what is always so.
  pub always-IsKept : (h : ℕ) → IsKept J client h (λ c s. Unit {0})
  always-IsKept h = record {
    flagging = λ c f s k. tt;
    adopting = λ c base total s k. tt;
    reading = λ c s s' r dir got k. tt;
    deleting = λ c i s dir k. tt;
  }

  -- cluster_etcd_leave_ on a member, for a registry whose directory reads answer with a status
  -- or with a directory over which a pass ends, the keys' allocation succeeding: whether the
  -- balancing thread runs no last pass, one before or one after the entry is removed, the call
  -- returns 0 and the connection is apart: unlocked, not joined, not leaving, no thread, no
  -- handle.
  pub etcd_leave-IsApart :
      IsCalm J client
      → (late : Late) (w : World S) → IsMember w
      → Returns (cluster_etcd_leave J client late true w) (λ r. (r.0 ≡ pos 0) × IsApart r.1)
  etcd_leave-IsApart calm late w member =
      let (h, dir) = member.has_envdir in
      let (i, name) = member.has_name in
      let (v, kept, step) =
        etcd_leave-closes J client h (λ c s. Unit {0}) (always-IsKept h) calm i late w member dir
          name tt in
      rw step (refl, closed-IsApart J client v)
