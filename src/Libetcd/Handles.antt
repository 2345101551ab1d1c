-- ===== src/Libetcd/Handles.antt =====
-- libetcd/connect.c and dir.c: handles as the addresses that the engine has, over the functions of
-- Requests and Calls; the client that engines/etcd.c uses. An address is given out once. What is
-- undefined, the use of an address that is not allocated, is recorded in `misused`. A block has
-- an address from where the function that allocates it (etcd_connect_uri, etcd_clone, etcd_dir_create_)
-- returns it; what such a function frees itself when it fails has none.
pub mod Accounts
pub mod Session
pub mod Destroyed
use libcluster.Prelude.{
  ℕ, suc, Bool, true, false, Option, none, some, List, [], ◌∷◌, ◌==◌, if◌then◌else◌,
}
use libcluster.Prelude.Int.{ℤ, negsuc}
use libcluster.Prelude.Bytes.{Bytes}
use libcluster.Process.{Outcome, ok, fault}
use libcluster.Jansson.{Jansson}
use libcluster.Etcd.Client.{Reply, status, EtcdClient}
use libcluster.Libetcd.Requests as Requests
use libcluster.Libetcd.Requests.{Net, Etcd, E, pure, ◌>>=◌}
use libcluster.Libetcd.Calls as Calls

-- Blocks with their addresses, newest first.
abbrev pub Blocks : Type 0 → Type 0
Blocks U = List (ℕ × Etcd U)

pub record Handles (U W : Type 0) : Type 0 where
  pub blocks : Blocks U
  pub next : ℕ
  pub misused : Bool
  pub net : W

module _ {U : Type 0} where
  unfoldable pub find : ℕ → Blocks U → Option (Etcd U)
  find h [] = none
  find h ((k, e) ∷ bs) = if k == h then some e else find h bs

  unfoldable pub remove : ℕ → Blocks U → Blocks U
  remove h [] = []
  remove h ((k, e) ∷ bs) = let rest = remove h bs in if k == h then bs else (k, e) ∷ rest

  unfoldable pub update : ℕ → Etcd U → Blocks U → Blocks U
  update h d [] = []
  update h d ((k, e) ∷ bs) =
      let rest = update h d bs in if k == h then (k, d) ∷ bs else (k, e) ∷ rest

module _ {U W : Type 0} where
  -- A new handle, or NULL.
  unfoldable pub allocate : E W (Option (Etcd U)) → E (Handles U W) (Option ℕ)
  allocate m s =
      let (made, w) = m s.net in
      elim made [
        | none ↦ (none, record s { net = w })
        | some e ↦
            (some s.next, record s { blocks = (s.next, e) ∷ s.blocks; next = suc s.next; net = w })
      ]

  -- A call that reads a handle, or that is undefined.
  unfoldable pub with_handle :
      {A : Type 0} → A → ℕ → (Etcd U → E (Handles U W) A) → E (Handles U W) A
  unfolding find
  with_handle bad h f s = elim (find h s.blocks) [
    | none ↦ (bad, record s { misused = true })
    | some e ↦ f e s
  ]

  abbrev pub on_net : {A : Type 0} → E W A → E (Handles U W) A
  on_net m s = let (a, w) = m s.net in (a, record s { net = w })

  abbrev pub free_block : ℕ → Etcd U → E (Handles U W) (Unit {0})
  free_block h e s = (tt, record s { blocks = remove h s.blocks })

  abbrev pub set_block : ℕ → Etcd U → E (Handles U W) (Unit {0})
  set_block h e s = (tt, record s { blocks = update h e s.blocks })

  unfoldable pub etcd_disconnect : ℕ → E (Handles U W) (Unit {0})
  unfolding with_handle remove
  etcd_disconnect h = with_handle tt h (free_block h)

  unfoldable pub etcd_dir_close : ℕ → E (Handles U W) (Unit {0})
  unfolding with_handle remove
  etcd_dir_close h = with_handle tt h (free_block h)

module _ {U W : Type 0} where
  -- A new directory, which is closed again unless the request for it succeeds.
  unfoldable pub checked : E W (Option (Etcd U)) → (Etcd U → E W Bool) → E (Handles U W) (Option ℕ)
  unfolding allocate with_handle etcd_dir_close
  checked made succeeds = do
    h ← allocate made
    elim h [
      | none ↦ pure none
      | some d ↦ (do
        there ← with_handle false d (λ dir. on_net (succeeds dir))
        let closed : E (Handles U W) (Option ℕ) = (do _ ← etcd_dir_close d; pure none) in
            if there then pure (some d) else closed)
    ]

module _ {U W : Type 0} (net : Net U W) where
  unfoldable pub etcd_dir_create : ℕ → Bytes → Bool → E (Handles U W) (Option ℕ)
  unfolding with_handle checked
  etcd_dir_create h name must_exist =
      with_handle none h
        λ parent. checked (Calls.new_dir net parent name) (Calls.put_dir net parent must_exist)

  unfoldable pub etcd_dir_open : Jansson → Bool → ℕ → Bytes → E (Handles U W) (Option ℕ)
  unfolding with_handle checked
  etcd_dir_open J realloc_ok h name =
      with_handle none h
        λ parent. checked (Calls.new_dir net parent name) (Calls.get_dir net J realloc_ok parent)

-- A result with the state it comes with.
abbrev pub with_state : {A S : Type 0} → Outcome A × S → Outcome (A × S)
with_state (ok a, s) = ok (a, s)
with_state (fault x, s) = fault x

module _ {U W : Type 0} (net : Net U W) (J : Jansson) (realloc_ok : Bool) where
  unfoldable pub libetcd : EtcdClient J (Handles U W)
  unfolding allocate with_handle etcd_disconnect etcd_dir_close update etcd_dir_create etcd_dir_open
  libetcd = record {
    etcd_connect = λ url. allocate (Requests.etcd_connect net url);
    etcd_disconnect = λ h s. (etcd_disconnect h s).1;
    etcd_set_verbose = λ h verbose s.
        (with_handle tt h (λ e. set_block h (Requests.etcd_set_verbose net e verbose)) s).1;
    etcd_dir_create = λ h name. etcd_dir_create net h name false;
    etcd_clone = λ h. with_handle none h λ e. allocate (Requests.etcd_clone net e);
    etcd_dir_open = λ h name. etcd_dir_open net J realloc_ok h name;
    etcd_dir_close = λ h s. (etcd_dir_close h s).1;
    etcd_dir_get = λ h s. with_state (
        with_handle (ok (status (negsuc 0))) h (λ e. on_net (Calls.etcd_dir_get net J realloc_ok e))
          s);
    etcd_dir_wait = λ h recursive s.
        let ((r, document), s') =
          with_handle (negsuc 0, none) h
            (λ e. on_net (Calls.etcd_dir_wait net J realloc_ok e recursive)) s in
        (r, s');
    etcd_key_set_ttl = λ h name value ttl must_exist.
        with_handle (negsuc 0) h
          λ e. on_net (Calls.etcd_key_set_ttl net e name value ttl must_exist);
    pthread_create = on_net net.pthread_create;
    etcd_key_delete =
        λ h name. with_handle (negsuc 0) h λ e. on_net (Calls.etcd_key_delete net e name);
  }
