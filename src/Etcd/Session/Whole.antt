-- ===== src/Etcd/Session/Whole.antt =====
-- Joining an etcd cluster is all or nothing, and leaving undoes it.
use libcluster.Prelude.{
  ℕ, Bool, true, false, Option, none, some, ◌≡◌, refl, ◌⊎◌, inl, inr, arith, Bool-cases,
  if◌then◌else◌,
}
use libcluster.Prelude.Int.{ℤ, pos, negsuc, eq_ℤ}
use libcluster.Prelude.Bytes.{Bytes}
use libcluster.Prelude.Decimal.{print_int}
use libcluster.Process.{
  live, free, writing, Cluster, World, Outcome, ok, Returns, cluster_wrlock, cluster_unlock,
}
use libcluster.Jansson.{Jansson}
use libcluster.Etcd.Client.{reply, status, EtcdClient}
use libcluster.Etcd.Directory.{etcd_pass}
use libcluster.Etcd.Balance.{cluster_etcd_ping}
use libcluster.Etcd.Balance.Result.{adopted, etcd_balance_adopts, etcd_balance_unread}
use libcluster.Etcd.Session.{close_all, cluster_etcd_leave, give_up, join_start}

-- The connection holds nothing of the registry: no handle, no thread, not joined, not locked.
pub record IsApart {S : Type 0} (w : World S) : Type 0 where
  pub unlocked : w.lock ≡ free
  pub not_joined : w.cluster.flags.joined ≡ false
  pub not_leaving : w.cluster.flags.leaving ≡ false
  pub no_ping : w.cluster.ping_thread ≡ false
  pub no_balancer : w.cluster.balancer_thread ≡ false
  pub no_root : w.cluster.etcd_root ≡ none
  pub no_clusterdir : w.cluster.etcd_clusterdir ≡ none
  pub no_partitiondir : w.cluster.etcd_partitiondir ≡ none
  pub no_envdir : w.cluster.etcd_envdir ≡ none

-- A member: every handle that it needs, joined, not locked.
pub record IsMember {S : Type 0} (w : World S) : Type 0 where
  pub unlocked : w.lock ≡ free
  pub joined : w.cluster.flags.joined ≡ true
  pub has_envdir : (h : ℕ) × (w.cluster.etcd_envdir ≡ some h)
  pub has_name : (i : Bytes) × (w.cluster.instid ≡ live i)

module _ {S : Type 0} where
  abbrev pub closing : (ℕ → S → S) → Option ℕ → S → S
  closing close none s = s
  closing close (some h) s = close h s

module _ {S : Type 0} (J : Jansson) (client : EtcdClient J S) where
  -- The registry after every handle has been closed, the directories first.
  abbrev pub closed_server : Cluster → S → S
  closed_server c s = closing client.etcd_disconnect c.etcd_root (
      closing client.etcd_dir_close c.etcd_clusterdir (
        closing client.etcd_dir_close c.etcd_partitiondir
          (closing client.etcd_dir_close c.etcd_envdir s)))

  abbrev pub closed : World S → World S
  closed w = record w {
    cluster = record (w.cluster) {
      flags = record (w.cluster.flags) { joined = false; leaving = false };
      ping_thread = false;
      balancer_thread = false;
      etcd_envdir = none;
      etcd_partitiondir = none;
      etcd_clusterdir = none;
      etcd_root = none;
    };
    lock = free;
    server = closed_server w.cluster w.server;
  }

  pub close_all-eq : (w : World S) → w.lock ≡ writing → close_all J client w ≡ ok (pos 0, closed w)
  unfolding close_all cluster_unlock
  close_all-eq w h = ground arith

  pub closed-IsApart : (w : World S) → IsApart (closed w)
  closed-IsApart w = record {
    unlocked = refl;
    not_joined = refl;
    not_leaving = refl;
    no_ping = refl;
    no_balancer = refl;
    no_root = refl;
    no_clusterdir = refl;
    no_partitiondir = refl;
    no_envdir = refl;
  }

  pub give_up-eq :
      (alloc : Bool) (w : World S)
      → w.lock ≡ writing
      → w.cluster.flags.joined ≡ false
      → give_up J client alloc w ≡ ok (negsuc 0, closed w)
  unfolding give_up cluster_unlock cluster_etcd_leave cluster_wrlock
  give_up-eq alloc w h n = ground (arith, close_all-eq (record w { lock = writing }) refl)

  -- What is asked of the registry and of the sums: a directory is read or reported as unread, and a
  -- pass over one that is read ends with a place.
  pub record IsCalm : Type 0 where
    pub answers :
        (h : ℕ) (i : Bytes) (s : S)
        → ((d : J.Json) × (s' : S) × (base total : ℤ) × (client.etcd_dir_get h s ≡ ok (reply d, s'))
            × (etcd_pass J d i ≡ ok (base, total)))
          ⊎ ((code : ℤ) × (s' : S) × (client.etcd_dir_get h s ≡ ok (status code, s')))

  -- Each of the threads is there, or the system has refused to create it: `s` is where the first was
  -- asked for, and nothing has been asked for after the second.
  abbrev pub IsStarted : World S → Type 0
  IsStarted w =
      (s : S) × (w.server ≡ (client.pthread_create (client.pthread_create s).1).1)
      × ((w.cluster.ping_thread ≡ true) ⊎ ((client.pthread_create s).0 ≡ false))
      × ((w.cluster.balancer_thread ≡ true)
          ⊎ ((client.pthread_create (client.pthread_create s).1).0 ≡ false))

  -- All or nothing.
  abbrev pub Whole : Outcome (ℤ × World S) → Type 0
  Whole o =
      Returns o
        λ r. ((r.0 ≡ pos 0) × IsMember r.1 × IsStarted r.1) ⊎ ((r.0 ≡ negsuc 0) × IsApart r.1)

  pub give_up-Whole :
      (alloc : Bool) (w : World S)
      → w.lock ≡ writing
      → w.cluster.flags.joined ≡ false
      → Whole (give_up J client alloc w)
  give_up-Whole alloc w h n = rw (give_up-eq alloc w h n) (inr (refl, closed-IsApart w))

  abbrev pub pinged : World S → ℕ → Bytes → ℤ × S
  pinged w h i =
      client.etcd_key_set_ttl h i (print_int w.cluster.inst_threads) w.cluster.ttl false w.server

  ping-eq :
      (w : World S) (h : ℕ) (i : Bytes)
      → w.cluster.etcd_envdir ≡ some h
      → w.cluster.instid ≡ live i
      → cluster_etcd_ping J client false w
        ≡ ok ((pinged w h i).0, record w { server = (pinged w h i).1 })
  unfolding cluster_etcd_ping
  ping-eq w h i dir name = ground arith

  -- The world after the first ping, after a pass that was adopted, and after a join.
  abbrev pub after_ping : World S → ℕ → Bytes → World S
  after_ping w h i = record w { server = (pinged w h i).1 }

  abbrev pub as_member : World S → World S
  as_member w = record w {
    cluster = record (w.cluster) {
      ping_thread = if (client.pthread_create w.server).0 then true else w.cluster.ping_thread;
      balancer_thread =
          if (client.pthread_create (client.pthread_create w.server).1).0
          then true
          else w.cluster.balancer_thread;
      flags = record (w.cluster.flags) { joined = true };
    };
    lock = free;
    server = (client.pthread_create (client.pthread_create w.server).1).1;
  }

  chosen : (b old : Bool) → ((if b then true else old) ≡ true) ⊎ (b ≡ false)
  chosen true old = inl refl
  chosen false old = inr refl

  as_member-IsStarted : (w : World S) → IsStarted (as_member w)
  as_member-IsStarted w = (
    w.server,
    refl,
    chosen (client.pthread_create w.server).0 w.cluster.ping_thread,
    chosen (client.pthread_create (client.pthread_create w.server).1).0 w.cluster.balancer_thread,
  )

  module _ (w : World S) (h : ℕ) (i : Bytes) (locked : w.lock ≡ writing)
      (dir : w.cluster.etcd_envdir ≡ some h) (name : w.cluster.instid ≡ live i) where
    pub join_start_unpinged :
        eq_ℤ (pinged w h i).0 (pos 0) ≡ false
        → join_start J client true w ≡ give_up J client true (after_ping w h i)
    unfolding join_start
    join_start_unpinged failed = ground (arith, ping-eq w h i dir name)

    pub join_start_unread :
        (code : ℤ) (s : S)
        → eq_ℤ (pinged w h i).0 (pos 0) ≡ true
        → client.etcd_dir_get h (pinged w h i).1 ≡ ok (status code, s)
        → join_start J client true w ≡ give_up J client true (record w { server = s })
    unfolding join_start
    join_start_unread code s done got = ground (
      arith,
      ping-eq w h i dir name,
      etcd_balance_unread J client true (after_ping w h i) h code s dir got,
    )

    pub join_start-adopted :
        (d : J.Json) (s : S) (base total : ℤ)
        → eq_ℤ (pinged w h i).0 (pos 0) ≡ true
        → client.etcd_dir_get h (pinged w h i).1 ≡ ok (reply d, s)
        → etcd_pass J d i ≡ ok (base, total)
        → join_start J client true w
          ≡ ok (pos 0, as_member (adopted (record w { server = s }) base total))
    unfolding join_start cluster_unlock
    join_start-adopted d s base total done got pass = ground (
      arith,
      ping-eq w h i dir name,
      etcd_balance_adopts J client (after_ping w h i) h i d s base total locked dir name got pass,
    )

    pub join_start-Whole :
        IsCalm → w.cluster.flags.joined ≡ false → Whole (join_start J client true w)
    join_start-Whole calm apart = elim (Bool-cases (eq_ℤ (pinged w h i).0 (pos 0))) [
      | inr failed ↦
          rw (join_start_unpinged failed) (give_up-Whole true (after_ping w h i) locked apart)
      | inl done ↦ elim (calm.answers h i (pinged w h i).1) [
        | inr (code, s, got) ↦
            rw (join_start_unread code s done got)
              (give_up-Whole true (record w { server = s }) locked apart)
        | inl (d, s, base, total, got, pass) ↦
            rw (join_start-adopted d s base total done got pass) (
              inl (
                refl,
                record {
                  unlocked = refl;
                  joined = refl;
                  has_envdir = (h, dir);
                  has_name = (i, name);
                },
                as_member-IsStarted (adopted (record w { server = s }) base total),
              ))
      ]
    ]
