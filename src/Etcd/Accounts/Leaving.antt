-- ===== src/Etcd/Accounts/Leaving.antt =====
-- Leaving closes every handle of the member, and no other.
use libcluster.Prelude.{ℕ, true, Option, none, some, List, ◌∷◌, ◌≡◌, refl, arith}
use libcluster.Prelude.Int.{pos}
use libcluster.Process.{Cluster, World, Returns}
use libcluster.Jansson.{Jansson}
use libcluster.Etcd.Client.{EtcdClient}
use libcluster.Etcd.Accounts.{is_in, opened, handles, IsAccounted}
use libcluster.Etcd.Session.{Late, cluster_etcd_leave}
use libcluster.Etcd.Session.Whole.{
  IsCalm, IsApart, IsMember, closing, closed_server, closed-IsApart,
}
use libcluster.Etcd.Session.Leaving.{IsKept, etcd_leave-closes}

pub newest-is_in : (h : ℕ) (hs : List ℕ) → is_in h (h ∷ hs) ≡ true
newest-is_in h hs = ground arith

-- The environment directory is open.
pub envdir-is_in :
    (c : Cluster) (h : ℕ) (hs : List ℕ) → c.etcd_envdir ≡ some h → is_in h (handles c hs) ≡ true
envdir-is_in c h hs dir = rw dir (newest-is_in h _)

module _ {S : Type 0} (J : Jansson) (client : EtcdClient J S) (table : S → Option (List ℕ))
    (accounts : IsAccounted J client table) (hs : List ℕ) where
  closing-opened :
      (close : ℕ → S → S)
      → ((h : ℕ) (ks : List ℕ) (s : S) → table s ≡ some (h ∷ ks) → table (close h s) ≡ some ks)
      → (o : Option ℕ) (ks : List ℕ) (s : S) → table s ≡ some (opened o ks)
      → table (closing close o s) ≡ some ks
  closing-opened close law none ks s kept = kept
  closing-opened close law (some h) ks s kept = law h ks s kept

  pub closed-table :
      (c : Cluster) (s : S)
      → table s ≡ some (handles c hs)
      → table (closed_server J client c s) ≡ some hs
  closed-table c s kept =
      let one = closing-opened client.etcd_dir_close accounts.closing in
      let envdir = one c.etcd_envdir _ s kept in
      let partitiondir = one c.etcd_partitiondir _ _ envdir in
      let clusterdir = one c.etcd_clusterdir _ _ partitiondir in
      closing-opened client.etcd_disconnect accounts.disconnecting c.etcd_root hs _ clusterdir

  pub handles-IsKept : (h : ℕ) → IsKept J client h (λ c s. table s ≡ some (handles c hs))
  handles-IsKept h = record {
    flagging = λ c f s k. k;
    adopting = λ c base total s k. k;
    reading = λ c s s' r dir got k. accounts.reading h _ s s' r k (envdir-is_in c h hs dir) got;
    deleting = λ c i s dir k. accounts.deleting h i _ s k (envdir-is_in c h hs dir);
  }

  -- cluster_etcd_leave_ on a member.
  pub etcd_leave-IsClosed :
      IsCalm J client
      → (late : Late) (w : World S) → IsMember w
      → table w.server ≡ some (handles w.cluster hs)
      → Returns
          (cluster_etcd_leave J client late true w)
          (λ r. (r.0 ≡ pos 0) × IsApart r.1 × (table r.1.server ≡ some hs))
  etcd_leave-IsClosed calm late w member kept =
      let (h, dir) = member.has_envdir in
      let (i, name) = member.has_name in
      let (v, after, step) =
        etcd_leave-closes J client h (λ c s. table s ≡ some (handles c hs)) (handles-IsKept h) calm
          i late w member dir name kept in
      rw step (refl, closed-IsApart J client v, closed-table v.cluster v.server after)
