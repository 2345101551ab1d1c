-- ===== src/Libetcd/Handles/Accounts.antt =====
-- The addresses that are allocated: what the client of Handles gives out and takes back.
use libcluster.Prelude.{
  ℕ, Bool, true, false, Option, none, some, List, [], ◌∷◌, ◌==◌, ◌≡◌, refl, ap, sym, ◌∙◌, arith,
  inl, inr, Bool-cases, Option-cases, if◌then◌else◌,
}
use libcluster.Process.{Outcome, ok, fault}
use libcluster.Jansson.{Jansson}
use libcluster.Etcd.Client.{status}
use libcluster.Etcd.Accounts.{is_in, opened, IsAccounted}
use libcluster.Libetcd.Requests.{Net, Etcd, E, etcd_connect, etcd_clone, etcd_set_verbose}
use libcluster.Libetcd.Calls.{
  new_dir, put_dir, get_dir, etcd_dir_get, etcd_dir_wait, etcd_key_set_ttl, etcd_key_delete,
}
use libcluster.Prelude.Int.{negsuc}
use libcluster.Libetcd.Handles.{
  Blocks, Handles, find, remove, update, allocate, with_handle, on_net, free_block, set_block,
  etcd_disconnect, etcd_dir_close, with_state, libetcd, checked, etcd_dir_create, etcd_dir_open,
}

module _ {U : Type 0} where
  abbrev pub addresses : Blocks U → List ℕ
  addresses [] = []
  addresses ((k, e) ∷ bs) = k ∷ addresses bs

  find-is_in :
      (h : ℕ) (bs : Blocks U) → is_in h (addresses bs) ≡ true → (e : Etcd U) × (find h bs ≡ some e)
  unfolding find
  find-is_in h [] there = ground arith
  find-is_in h ((k, e) ∷ bs) there = elim (Bool-cases (k == h)) [
    | inl same ↦ (e, rw same refl)
    | inr other ↦
        let rest : is_in h (addresses bs) ≡ true = ground arith in
        let (d, found) = find-is_in h bs rest in (d, rw other found)
  ]

  addresses-update : (h : ℕ) (d : Etcd U) (bs : Blocks U) → addresses (update h d bs) ≡ addresses bs
  unfolding update
  addresses-update h d [] = refl
  addresses-update h d ((k, e) ∷ bs) = elim (Bool-cases (k == h)) [
    | inl same ↦ rw same refl
    | inr other ↦ rw other (ap (λ ks. k ∷ ks) (addresses-update h d bs))
  ]

  -- The newest block is found, and is the one that goes.
  remove_newest :
      (h : ℕ) (hs : List ℕ) (bs : Blocks U)
      → addresses bs ≡ h ∷ hs
      → (e : Etcd U) × (find h bs ≡ some e) × (addresses (remove h bs) ≡ hs)
  unfolding find remove
  remove_newest h hs [] top = ground arith
  remove_newest h hs ((k, e) ∷ bs) top = (e, ground arith, ground arith)

module _ {U W : Type 0} where
  -- The addresses that are allocated, if only such have been used.
  abbrev pub table : Handles U W → Option (List ℕ)
  table s = if s.misused then none else some (addresses s.blocks)

  allocate-table :
      (m : E W (Option (Etcd U))) (hs : List ℕ) (s : Handles U W)
      → table s ≡ some hs
      → table (allocate m s).1 ≡ some (opened (allocate m s).0 hs)
  unfolding allocate
  allocate-table m hs s kept = ground arith

  pub with_handle-none :
      {A : Type 0} (bad : A) (h : ℕ) (f : Etcd U → E (Handles U W) A) (s : Handles U W)
      → find h s.blocks ≡ none
      → with_handle bad h f s ≡ (bad, record s { misused = true })
  unfolding with_handle
  with_handle-none bad h f s absent = rw (with_handle, absent) refl

  pub with_handle-some :
      {A : Type 0} (bad : A) (h : ℕ) (f : Etcd U → E (Handles U W) A) (s : Handles U W) (e : Etcd U)
      → find h s.blocks ≡ some e
      → with_handle bad h f s ≡ f e s
  unfolding with_handle
  with_handle-some bad h f s e found = rw (with_handle, found) refl

  -- A call on an address that is allocated finds its block.
  with_handle-found :
      {A : Type 0} (bad : A) (h : ℕ) (f : Etcd U → E (Handles U W) A) (hs : List ℕ)
      (s : Handles U W)
      → table s ≡ some hs
      → is_in h hs ≡ true
      → (e : Etcd U) × (with_handle bad h f s ≡ f e s)
  with_handle-found bad h f hs s kept there =
      let found : is_in h (addresses s.blocks) ≡ true = ground arith in
      let (e, at_h) = find-is_in h s.blocks found in (e, with_handle-some bad h f s e at_h)

  -- A call that only reads its handle leaves the addresses as they were.
  on_net-table :
      {A : Type 0} (bad : A) (h : ℕ) (m : Etcd U → E W A) (hs : List ℕ) (s : Handles U W)
      → table s ≡ some hs
      → is_in h hs ≡ true
      → table (with_handle bad h (λ e. on_net (m e)) s).1 ≡ some hs
  on_net-table bad h m hs s kept there =
      let (e, run) = with_handle-found bad h (λ e. on_net (m e)) hs s kept there in rw run kept

  new_handle-table :
      (h : ℕ) (m : Etcd U → E W (Option (Etcd U))) (hs : List ℕ) (s : Handles U W)
      → table s ≡ some hs
      → is_in h hs ≡ true
      → let r = with_handle none h (λ e. allocate (m e)) s in table r.1 ≡ some (opened r.0 hs)
  new_handle-table h m hs s kept there =
      let (e, run) = with_handle-found none h (λ e. allocate (m e)) hs s kept there in
      rw run (allocate-table (m e) hs s kept)

  set_block-table :
      (h : ℕ) (f : Etcd U → Etcd U) (hs : List ℕ) (s : Handles U W)
      → table s ≡ some hs
      → is_in h hs ≡ true
      → table (with_handle tt h (λ e. set_block h (f e)) s).1 ≡ some hs
  set_block-table h f hs s kept there =
      let (e, run) = with_handle-found tt h (λ e. set_block h (f e)) hs s kept there in
      rw (run, addresses-update h (f e) s.blocks) kept

  -- The newest handle is freed.
  free_block-table :
      (h : ℕ) (hs : List ℕ) (s : Handles U W)
      → table s ≡ some (h ∷ hs)
      → table (with_handle tt h (free_block h) s).1 ≡ some hs
  free_block-table h hs s kept =
      let top : addresses s.blocks ≡ h ∷ hs = ground arith in
      let (e, at_h, rest) = remove_newest h hs s.blocks top in
      rw (with_handle-some tt h (free_block h) s e at_h) (ground (arith, rest))

  -- The address of a new directory stays in the table where its request succeeds, and is closed where it
  -- does not.
  checked-table :
      (made : E W (Option (Etcd U))) (succeeds : Etcd U → E W Bool) (hs : List ℕ) (s : Handles U W)
      → table s ≡ some hs
      → table (checked made succeeds s).1 ≡ some (opened (checked made succeeds s).0 hs)
  unfolding checked etcd_dir_close allocate with_handle find remove
  checked-table made succeeds hs s kept = elim (Option-cases (made s.net).0) [
    | inl failed ↦ ground arith
    | inr (e, new) ↦ elim (Bool-cases (succeeds e (made s.net).1).0) [
      | inl there ↦ ground arith
      | inr absent ↦ ground arith
    ]
  ]

  checked_handle-table :
      (h : ℕ) (made : Etcd U → E W (Option (Etcd U))) (succeeds : Etcd U → Etcd U → E W Bool)
      (hs : List ℕ) (s : Handles U W)
      → table s ≡ some hs
      → is_in h hs ≡ true
      → let r = with_handle none h (λ e. checked (made e) (succeeds e)) s in
        table r.1 ≡ some (opened r.0 hs)
  checked_handle-table h made succeeds hs s kept there =
      let (e, run) =
        with_handle-found none h (λ e. checked (made e) (succeeds e)) hs s kept there in
      rw run (checked-table (made e) (succeeds e) hs s kept)

module _ {U W : Type 0} (net : Net U W) (J : Jansson) (realloc_ok : Bool) where
  state_of :
      {A S B : Type 0} (f : S → B) (o : Outcome A) (s s' : S) (a : A)
      → with_state (o, s) ≡ ok (a, s')
      → f s' ≡ f s
  state_of f (ok b) s s' a e = sym (ap (λ o. elim o [ ok (c, t) ↦ f t | fault x ↦ f s ]) e)
  state_of f (fault x) s s' a e = ground arith

  -- The functions of libetcd, over handles with addresses, keep the accounts that the engine
  -- relies on, for any network, JSON library and outcome of reallocation. With only allocated
  -- addresses used so far: connecting and cloning allocate the address that they return, or none
  -- where they return NULL; so do creating and opening a directory, which allocate the address
  -- before the request is made, and free it again where the request fails or the answer is not
  -- that of a directory; disconnecting or closing the newest address frees it; every other call
  -- on an allocated address leaves the allocated ones as they were; and no such call uses one
  -- that is not allocated.
  pub libetcd-IsAccounted : IsAccounted J (libetcd net J realloc_ok) table
  unfolding libetcd etcd_disconnect etcd_dir_close etcd_dir_create etcd_dir_open
  libetcd-IsAccounted = record {
    connecting = λ url. allocate-table (etcd_connect net url);
    creating =
        λ h name. checked_handle-table h (λ e. new_dir net e name) (λ e. put_dir net e false);
    opening = λ h name.
        checked_handle-table h (λ e. new_dir net e name) (λ e. get_dir net J realloc_ok e);
    cloning = λ h. new_handle-table h (etcd_clone net);
    disconnecting = free_block-table;
    closing = free_block-table;
    telling = λ h verbose. set_block-table h (λ e. etcd_set_verbose net e verbose);
    reading = λ h hs s s' r kept there got.
        let read =
          with_handle (ok (status (negsuc 0))) h (λ e. on_net (etcd_dir_get net J realloc_ok e))
            s in
        state_of table read.0 read.1 s' r got
        ∙ on_net-table (ok (status (negsuc 0))) h (etcd_dir_get net J realloc_ok) hs s kept there;
    waiting = λ h recursive.
        on_net-table (negsuc 0, none) h (λ e. etcd_dir_wait net J realloc_ok e recursive);
    setting = λ h name value ttl must_exist.
        on_net-table (negsuc 0) h (λ e. etcd_key_set_ttl net e name value ttl must_exist);
    starting = λ hs s kept. kept;
    deleting = λ h name. on_net-table (negsuc 0) h (λ e. etcd_key_delete net e name);
  }
