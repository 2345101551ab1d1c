-- ===== src/Libetcd/Requests.antt =====
-- libetcd/connect.c: connections, and the requests that are made for libcurl. A handle `ETCD`
-- is its fields, NULL is `none`; freeing one is leaving it out.
pub mod Made
use libcluster.Prelude.{
  ℕ, Bool, true, false, Option, none, some, List, [], ◌∷◌, ◌++◌, if◌then◌else◌,
}
use libcluster.Prelude.Bytes.{Bytes}
use libcluster.Libetcd.Http.{Transfer}

pub data Method : Type 0 where
  get put delete : Method

-- What a `CURL` is set to.
pub record Request : Type 0 where
  pub method : Method
  pub url : Bytes
  pub body : Option Bytes
  pub verbose : Bool

-- liburi, libcurl and the allocator: `U` is a `URI`, `W` the world that they act on.
-- `perform_null` is `curl_easy_perform(NULL)`.
pub record Net (U W : Type 0) : Type 0 where
  pub calloc : W → Bool × W
  pub uri_create_str : Bytes → Option U → W → Option U × W
  pub uri_create_uri : U → W → Option U × W
  pub uri_stralloc : U → W → Option Bytes × W
  pub curl_easy_init : W → Bool × W
  pub perform : Request → W → Transfer × W
  pub perform_null : Transfer
  pub pthread_create : W → Bool × W

-- `struct etcd_struct`
pub record Etcd (U : Type 0) : Type 0 where
  pub uri : U
  pub verbose : Bool

-- "/v2/keys/"
abbrev pub keys_path : Bytes
keys_path = b'/' ∷ b'v' ∷ b'2' ∷ b'/' ∷ b'k' ∷ b'e' ∷ b'y' ∷ b's' ∷ b'/' ∷ []

-- "dir=1"
abbrev pub dir_data : Bytes
dir_data = b'd' ∷ b'i' ∷ b'r' ∷ b'=' ∷ b'1' ∷ []

-- "prevExist=true"
abbrev pub prev_exist : Bytes
prev_exist =
    b'p' ∷ b'r' ∷ b'e' ∷ b'v' ∷ b'E' ∷ b'x' ∷ b'i' ∷ b's' ∷ b't' ∷ b'=' ∷ b't' ∷ b'r' ∷ b'u' ∷ b'e'
    ∷ []

-- "wait=true"
abbrev pub wait_query : Bytes
wait_query = b'w' ∷ b'a' ∷ b'i' ∷ b't' ∷ b'=' ∷ b't' ∷ b'r' ∷ b'u' ∷ b'e' ∷ []

-- "&recursive=true"
abbrev pub recursive_query : Bytes
recursive_query =
    b'&' ∷ b'r' ∷ b'e' ∷ b'c' ∷ b'u' ∷ b'r' ∷ b's' ∷ b'i' ∷ b'v' ∷ b'e' ∷ b'=' ∷ b't' ∷ b'r' ∷ b'u'
    ∷ b'e' ∷ []

abbrev pub exists_query : Bool → Option Bytes
exists_query must_exist = if must_exist then some prev_exist else none

abbrev pub E : Type 0 → Type 0 → Type 0
E W A = W → A × W

module _ {W : Type 0} where
  abbrev pub pure : {A : Type 0} → A → E W A
  pure a w = (a, w)

  infixl 5 ◌>>=◌
  abbrev pub ◌>>=◌ : {A B : Type 0} → E W A → (A → E W B) → E W B
  ◌>>=◌ m f w = let (a, w') = m w in f a w'

module _ {U W : Type 0} (net : Net U W) where
  open net use {calloc, uri_create_str, uri_create_uri, uri_stralloc, curl_easy_init, perform}

  unfoldable pub etcd_connect_uri : U → E W (Option (Etcd U))
  etcd_connect_uri base = do
    allocated ← calloc
    if allocated
        then (do
          uri ← uri_create_str keys_path (some base)
          pure (elim uri [ none ↦ none | some u ↦ some (record { uri = u; verbose = false }) ]))
        else pure none

  unfoldable pub etcd_connect : Bytes → E W (Option (Etcd U))
  unfolding etcd_connect_uri
  etcd_connect url = do
    uri ← uri_create_str url none
    elim uri [ none ↦ pure none | some u ↦ etcd_connect_uri u ]

  unfoldable pub etcd_clone : Etcd U → E W (Option (Etcd U))
  etcd_clone etcd = do
    allocated ← calloc
    if allocated
        then (do
          uri ← uri_create_uri etcd.uri
          pure (elim uri [
            | none ↦ none
            | some u ↦ some (record { uri = u; verbose = etcd.verbose })
          ]))
        else pure none

  abbrev pub etcd_set_verbose : Etcd U → Bool → Etcd U
  etcd_set_verbose etcd verbose = record etcd { verbose = verbose }

  -- The end of `etcd_curl_create_`.
  abbrev pub init_request : Etcd U → Bytes → E W (Option Request)
  init_request etcd url = do
    made ← curl_easy_init
    pure (
        if made
        then some (record { method = get; url = url; body = none; verbose = etcd.verbose })
        else none)

  unfoldable pub etcd_curl_create : Etcd U → U → Option Bytes → E W (Option Request)
  etcd_curl_create etcd uri query = do
    text ← uri_stralloc uri
    elim text [
      | none ↦ pure none
      | some s ↦ elim query [
        | none ↦ init_request etcd s
        | some q ↦ (do
          allocated ← calloc
          if allocated then init_request etcd (s ++ b'?' ∷ q) else pure none)
      ]
    ]

  abbrev pub as_put : Bytes → Option Request → Option Request
  as_put form none = none
  as_put form (some r) = some (record r { method = put; body = some form })

  abbrev pub as_delete : Option Request → Option Request
  as_delete none = none
  as_delete (some r) = some (record r { method = delete })

  unfoldable pub etcd_curl_put : Etcd U → U → Bytes → Option Bytes → E W (Option Request)
  unfolding etcd_curl_create
  etcd_curl_put etcd uri form query = do ch ← etcd_curl_create etcd uri query; pure (as_put form ch)

  unfoldable pub etcd_curl_delete : Etcd U → U → Option Bytes → E W (Option Request)
  unfolding etcd_curl_create
  etcd_curl_delete etcd uri query = do ch ← etcd_curl_create etcd uri query; pure (as_delete ch)

  -- `curl_easy_perform`
  abbrev pub transfer : Option Request → E W Transfer
  transfer none = pure net.perform_null
  transfer (some r) = perform r
