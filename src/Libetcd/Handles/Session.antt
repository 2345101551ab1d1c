-- ===== src/Libetcd/Handles/Session.antt =====
-- The etcd engine over libetcd: what becomes of the handles of a session.
use libcluster.Prelude.{
  ℕ, Bool, true, false, none, some, List, ◌≡◌, refl, ap, ◌∙◌, arith, ◌⊎◌, inl, inr, Option-cases,
}
use libcluster.Prelude.Int.{ℤ, pos, negsuc}
use libcluster.Prelude.Bytes.{Bytes}
use libcluster.Process.{live, free, World, Outcome, ok, fault, Returns}
use libcluster.Jansson.{Jansson}
use libcluster.Etcd.Accounts.{handles}
use libcluster.Etcd.Accounts.Leaving.{etcd_leave-IsClosed}
use libcluster.Etcd.Accounts.Joining.{etcd_join-Balanced}
use libcluster.Etcd.Session.{Late, cluster_etcd_join, cluster_etcd_leave}
use libcluster.Etcd.Session.Whole.{IsCalm, IsApart, IsMember, IsStarted}
use libcluster.Etcd.Session.Steps.{IsReady}
use libcluster.Etcd.Session.Joining.{etcd_join-Whole}
use libcluster.Libetcd.Requests.{Net, Etcd}
use libcluster.Etcd.Client.{Reply, reply, status}
use libcluster.Etcd.Directory.{etcd_pass}
use libcluster.Libetcd.Calls.{etcd_dir_get}
use libcluster.Libetcd.Handles.{Handles, find, on_net, with_state, libetcd}
use libcluster.Libetcd.Handles.Accounts.{
  addresses, table, with_handle-none, with_handle-some, libetcd-IsAccounted,
}

-- Two things that are so of the same result, and what follows from them.
Returns-both :
    {A : Type 0} (o : Outcome A) (P Q R : A → Type 0)
    → Returns o P
    → Returns o Q
    → ((a : A) → P a → Q a → R a)
    → Returns o R
Returns-both (ok a) P Q R p q f = f a p q
Returns-both (fault x) P Q R p q f = elim p [ ]

Returns-map :
    {A : Type 0} (o : Outcome A) (P Q : A → Type 0)
    → Returns o P
    → ((a : A) → P a → Q a)
    → Returns o Q
Returns-map (ok a) P Q p f = f a p
Returns-map (fault x) P Q p f = elim p [ ]

-- No address has been used that was not allocated, and these are allocated.
abbrev pub HasOpen : {U W : Type 0} → List ℕ → Handles U W → Type 0
HasOpen hs s = (s.misused ≡ false) × (addresses s.blocks ≡ hs)

pub HasOpen-table :
    {U W : Type 0} (hs : List ℕ) (s : Handles U W) → table s ≡ some hs → HasOpen hs s
HasOpen-table hs s kept = ground arith

handles-IsApart : {S : Type 0} (w : World S) (hs : List ℕ) → IsApart w → handles w.cluster hs ≡ hs
handles-IsApart w hs apart =
    rw (apart.no_envdir, apart.no_partitiondir, apart.no_clusterdir, apart.no_root) refl

-- A connection without a handle.
pub record IsFresh {S : Type 0} (w : World S) : Type 0 where
  pub unlocked : w.lock ≡ free
  pub has_registry : (uri : Bytes) × (w.cluster.registry ≡ live uri)
  pub ready : IsReady w
  pub no_clusterdir : w.cluster.etcd_clusterdir ≡ none
  pub no_partitiondir : w.cluster.etcd_partitiondir ≡ none
  pub no_envdir : w.cluster.etcd_envdir ≡ none

module _ {U W : Type 0} (net : Net U W) (J : Jansson) (realloc_ok : Bool) where
  -- What a read of a directory comes to: a status, or a directory over which a pass ends.
  pub record IsResponsive : Type 0 where
    pub answers :
        (e : Etcd U) (i : Bytes) (s : W)
        → ((d : J.Json) × (base total : ℤ) × ((etcd_dir_get net J realloc_ok e s).0 ≡ ok (reply d))
            × (etcd_pass J d i ≡ ok (base, total)))
          ⊎ ((code : ℤ) × ((etcd_dir_get net J realloc_ok e s).0 ≡ ok (status code)))

  -- The read of an open directory.
  read-found :
      (h : ℕ) (e : Etcd U) (s : Handles U W) (r : Reply (J.Json))
      → find h s.blocks ≡ some e
      → (etcd_dir_get net J realloc_ok e s.net).0 ≡ ok r
      → (libetcd net J realloc_ok).etcd_dir_get h s
        ≡ ok (r, record s { net = (etcd_dir_get net J realloc_ok e s.net).1 })
  unfolding libetcd
  read-found h e s r found got = ap with_state (
      with_handle-some (ok (status (negsuc 0))) h (λ d. on_net (etcd_dir_get net J realloc_ok d)) s
        e found
      ∙ ap (λ o. (o, record s { net = (etcd_dir_get net J realloc_ok e s.net).1 })) got)

  pub libetcd-IsCalm : IsResponsive → IsCalm J (libetcd net J realloc_ok)
  unfolding libetcd
  libetcd-IsCalm responsive = record {
    answers = λ h i s. elim (Option-cases (find h s.blocks)) [
      | inl absent ↦ inr (
        negsuc 0,
        record s { misused = true },
        ap with_state (
            with_handle-none (ok (status (negsuc 0))) h
              (λ e. on_net (etcd_dir_get net J realloc_ok e)) s absent),
      )
      | inr (e, found) ↦
          let s' = record s { net = (etcd_dir_get net J realloc_ok e s.net).1 } in
          elim (responsive.answers e i s.net) [
            | inl (d, base, total, got, pass) ↦
                inl (d, s', base, total, read-found h e s (reply d) found got, pass)
            | inr (code, got) ↦ inr (code, s', read-found h e s (status code) found got)
          ]
    ];
  }

  -- What a session has come to after joining, with `hs` the addresses from before it.
  abbrev pub IsSettled : Late → List ℕ → ℤ × World (Handles U W) → Type 0
  IsSettled late hs (r, w) =
      ((r ≡ pos 0)
        × IsMember w
        × IsStarted J (libetcd net J realloc_ok) w
        × HasOpen (handles w.cluster hs) w.server
        × Returns (cluster_etcd_leave J (libetcd net J realloc_ok) late true w)
            (λ q. (q.0 ≡ pos 0) × IsApart q.1 × HasOpen hs q.1.server))
      ⊎ ((r ≡ negsuc 0) × IsApart w × HasOpen hs w.server)

  -- What joining came to, with the account of the handles.
  settled :
      IsCalm J (libetcd net J realloc_ok)
      → (late : Late) (hs : List ℕ) (r : ℤ × World (Handles U W))
      → ((r.0 ≡ pos 0) × IsMember r.1 × IsStarted J (libetcd net J realloc_ok) r.1)
        ⊎ ((r.0 ≡ negsuc 0) × IsApart r.1)
      → table r.1.server ≡ some (handles r.1.cluster hs)
      → IsSettled late hs r
  settled calm late hs (r, w) (inl (zero_result, member, started)) kept =
      let client = libetcd net J realloc_ok in
      let left =
        etcd_leave-IsClosed J client table (libetcd-IsAccounted net J realloc_ok) hs calm late w
          member kept in
      inl (
        zero_result,
        member,
        started,
        HasOpen-table _ w.server kept,
        Returns-map (cluster_etcd_leave J client late true w) _ _ left
            (λ q (z, apart, closed). (z, apart, HasOpen-table hs q.1.server closed)),
      )
  settled calm late hs (r, w) (inr (failed, apart)) kept =
      inr (failed, apart, HasOpen-table hs w.server (kept ∙ ap some (handles-IsApart w hs apart)))

  -- The etcd engine over libetcd, where a handle is an address in a table of those that are
  -- allocated. Take an unlocked connection that is not joined, has its strings in place and no
  -- directory open, in a process that has used no address which was not allocated; a network and
  -- a JSON library for which reading a directory gives a status or a directory over which a pass
  -- ends; and the keys' allocation succeeding. Then cluster_etcd_join_ returns. If with 0, the
  -- connection is a member, each of its two threads is there unless pthread_create has refused
  -- it, and its handles are allocated besides those from before, and nothing else; and
  -- cluster_etcd_leave_ after it, whether the balancing thread runs no last pass, one before or
  -- one after the entry is removed, returns 0 with the connection apart and just the handles
  -- from before allocated. If it returns -1, the connection is apart, and just those are
  -- allocated. No address is used in these calls which is not allocated.
  pub etcd_session-IsSettled :
      IsResponsive
      → (late : Late) (w : World (Handles U W)) → IsFresh w
      → w.server.misused ≡ false
      → Returns
          (cluster_etcd_join J (libetcd net J realloc_ok) true w)
          (IsSettled late (addresses w.server.blocks))
  etcd_session-IsSettled responsive late w fresh sound =
      let calm = libetcd-IsCalm responsive in
      let client = libetcd net J realloc_ok in
      let accounts = libetcd-IsAccounted net J realloc_ok in
      let hs = addresses w.server.blocks in
      let (uri, registry) = fresh.has_registry in
      let whole = etcd_join-Whole J client calm w uri fresh.unlocked registry fresh.ready in
      let balanced =
        etcd_join-Balanced J client table accounts hs calm w uri fresh.unlocked registry fresh.ready
          fresh.no_clusterdir (fresh.no_partitiondir, fresh.no_envdir) (rw sound refl) in
      Returns-both (cluster_etcd_join J client true w) _ _ _ whole balanced (settled calm late hs)
