-- ===== src/Etcd/Client.antt =====
-- The operations of libetcd that engines/etcd.c calls: what the engine is written against. A handle
-- is the address of an `ETCD`, NULL is `none`; `S` is the state of the registry and of libetcd.
use libcluster.Prelude.{ℕ, Bool, Option}
use libcluster.Prelude.Int.{ℤ}
use libcluster.Prelude.Bytes.{Bytes}
use libcluster.Process.{Outcome}
use libcluster.Jansson.{Jansson}

-- What `etcd_dir_get` and `etcd_dir_wait` return: a status that is not 0, or 0 and a document.
pub data Reply (A : Type 0) : Type 0 where
  reply : A → Reply A
  status : ℤ → Reply A

-- Of what `etcd_dir_wait` returns, the engine drops the document. `pthread_create` is the system's: does
-- it create the thread that it is asked for?
pub record EtcdClient (J : Jansson) (S : Type 0) : Type 0 where
  pub etcd_connect : Bytes → S → Option ℕ × S
  pub etcd_disconnect : ℕ → S → S
  pub etcd_set_verbose : ℕ → Bool → S → S
  pub etcd_dir_create : ℕ → Bytes → S → Option ℕ × S
  pub etcd_clone : ℕ → S → Option ℕ × S
  pub etcd_dir_open : ℕ → Bytes → S → Option ℕ × S
  pub etcd_dir_close : ℕ → S → S
  pub etcd_dir_get : ℕ → S → Outcome (Reply (J.Json) × S)
  pub etcd_dir_wait : ℕ → Bool → S → ℤ × S
  pub etcd_key_set_ttl : ℕ → Bytes → Bytes → ℤ → Bool → S → ℤ × S
  pub etcd_key_delete : ℕ → Bytes → S → ℤ × S
  pub pthread_create : S → Bool × S
