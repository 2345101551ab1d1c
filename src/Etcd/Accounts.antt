-- ===== src/Etcd/Accounts.antt =====
-- The handles of libetcd that an etcd member has open, by a table that the client keeps.
pub mod Leaving
pub mod Joining
use libcluster.Prelude.{ℕ, Bool, true, false, ◌||◌, ◌==◌, Option, none, some, List, [], ◌∷◌, ◌≡◌}
use libcluster.Prelude.Int.{ℤ}
use libcluster.Prelude.Bytes.{Bytes}
use libcluster.Process.{Cluster, Outcome, ok}
use libcluster.Jansson.{Jansson}
use libcluster.Etcd.Client.{Reply, EtcdClient}

abbrev pub is_in : ℕ → List ℕ → Bool
is_in h [] = false
is_in h (k ∷ ks) = let rest = is_in h ks in (k == h) || rest

-- A table with a handle that is not NULL on top.
abbrev pub opened : Option ℕ → List ℕ → List ℕ
opened none hs = hs
opened (some h) hs = h ∷ hs

-- The handles of a connection, above those of others.
abbrev pub handles : Cluster → List ℕ → List ℕ
handles c hs =
    opened c.etcd_envdir
      (opened c.etcd_partitiondir (opened c.etcd_clusterdir (opened c.etcd_root hs)))

-- A client with a table of its open handles, newest first, or `none` once a handle has been used
-- that is not open. Opening adds to it, closing the newest takes it away, and every other call leaves
-- it as it was.
pub record IsAccounted {S : Type 0} (J : Jansson) (client : EtcdClient J S)
    (table : S → Option (List ℕ)) : Type 0 where
  pub connecting :
      (url : Bytes) (hs : List ℕ) (s : S)
      → table s ≡ some hs
      → table (client.etcd_connect url s).1 ≡ some (opened (client.etcd_connect url s).0 hs)
  pub creating :
      (h : ℕ) (name : Bytes) (hs : List ℕ) (s : S)
      → table s ≡ some hs
      → is_in h hs ≡ true
      → table (client.etcd_dir_create h name s).1
        ≡ some (opened (client.etcd_dir_create h name s).0 hs)
  pub opening :
      (h : ℕ) (name : Bytes) (hs : List ℕ) (s : S)
      → table s ≡ some hs
      → is_in h hs ≡ true
      → table (client.etcd_dir_open h name s).1 ≡ some (opened (client.etcd_dir_open h name s).0 hs)
  pub cloning :
      (h : ℕ) (hs : List ℕ) (s : S)
      → table s ≡ some hs
      → is_in h hs ≡ true
      → table (client.etcd_clone h s).1 ≡ some (opened (client.etcd_clone h s).0 hs)
  pub disconnecting :
      (h : ℕ) (hs : List ℕ) (s : S)
      → table s ≡ some (h ∷ hs)
      → table (client.etcd_disconnect h s) ≡ some hs
  pub closing :
      (h : ℕ) (hs : List ℕ) (s : S)
      → table s ≡ some (h ∷ hs)
      → table (client.etcd_dir_close h s) ≡ some hs
  pub telling :
      (h : ℕ) (verbose : Bool) (hs : List ℕ) (s : S)
      → table s ≡ some hs
      → is_in h hs ≡ true
      → table (client.etcd_set_verbose h verbose s) ≡ some hs
  pub reading :
      (h : ℕ) (hs : List ℕ) (s s' : S) (r : Reply (J.Json))
      → table s ≡ some hs
      → is_in h hs ≡ true
      → client.etcd_dir_get h s ≡ ok (r, s')
      → table s' ≡ some hs
  pub waiting :
      (h : ℕ) (recursive : Bool) (hs : List ℕ) (s : S)
      → table s ≡ some hs
      → is_in h hs ≡ true
      → table (client.etcd_dir_wait h recursive s).1 ≡ some hs
  pub setting :
      (h : ℕ) (name value : Bytes) (ttl : ℤ) (must_exist : Bool) (hs : List ℕ) (s : S)
      → table s ≡ some hs
      → is_in h hs ≡ true
      → table (client.etcd_key_set_ttl h name value ttl must_exist s).1 ≡ some hs
  pub starting :
      (hs : List ℕ) (s : S) → table s ≡ some hs → table (client.pthread_create s).1 ≡ some hs
  pub deleting :
      (h : ℕ) (name : Bytes) (hs : List ℕ) (s : S)
      → table s ≡ some hs
      → is_in h hs ≡ true
      → table (client.etcd_key_delete h name s).1 ≡ some hs
