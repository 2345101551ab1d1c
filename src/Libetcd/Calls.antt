-- ===== src/Libetcd/Calls.antt =====
-- libetcd/dir.c and key.c: directories and keys, down to the requests that are sent.
pub mod Sent
use libcluster.Prelude.{Bool, false, Option, none, some, ◌++◌, if◌then◌else◌}
use libcluster.Prelude.Int.{ℤ, pos, negsuc, eq_ℤ}
use libcluster.Prelude.Bytes.{Bytes}
use libcluster.Process.{Outcome, ok}
use libcluster.Jansson.{Jansson}
use libcluster.Etcd.Client.{Reply, status}
use libcluster.Libetcd.Http.{etcd_curl_perform, etcd_curl_perform_json}
use libcluster.Libetcd.Path.{skip_slashes, dir_path}
use libcluster.Libetcd.Key.{encoded}
use libcluster.Libetcd.Directory as Directory
use libcluster.Libetcd.Directory.{is_directory}
use libcluster.Libetcd.Requests.{
  Net, Etcd, E, pure, ◌>>=◌, etcd_curl_create, etcd_curl_put, etcd_curl_delete, transfer,
  exists_query, dir_data, wait_query, recursive_query,
}

module _ {U W : Type 0} (net : Net U W) where
  open net use {calloc, uri_create_str, perform}

  -- `etcd_dir_create_`
  unfoldable pub new_dir : Etcd U → Bytes → E W (Option (Etcd U))
  unfolding dir_path
  new_dir parent name = do
    allocated ← calloc
    if allocated
        then (do
          copied ← calloc
          if copied
              then (do
                uri ← uri_create_str (dir_path name) (some parent.uri)
                pure (elim uri [
                  | none ↦ none
                  | some u ↦ some (record { uri = u; verbose = parent.verbose })
                ]))
              else pure none)
        else pure none

  -- The request of `etcd_dir_create` for its new directory: did it succeed?
  unfoldable pub put_dir : Etcd U → Bool → Etcd U → E W Bool
  unfolding etcd_curl_put etcd_curl_perform
  put_dir parent must_exist dir = do
    ch ← etcd_curl_put net parent dir.uri dir_data (exists_query must_exist)
    t ← transfer net ch
    pure (eq_ℤ (etcd_curl_perform t) (pos 0))

  unfoldable pub etcd_key_set_data_ttl : Etcd U → Bytes → Bytes → ℤ → Bool → E W ℤ
  unfolding skip_slashes encoded etcd_curl_put etcd_curl_perform
  etcd_key_set_data_ttl dir name value ttl must_exist = do
    allocated ← calloc
    if allocated
        then (do
          uri ← uri_create_str (skip_slashes name) (some dir.uri)
          elim uri [
            | none ↦ pure (negsuc 0)
            | some u ↦ (do
              ch ← etcd_curl_put net dir u (encoded value ttl) (exists_query must_exist)
              t ← transfer net ch
              pure (etcd_curl_perform t))
          ])
        else pure (negsuc 0)

  -- The value is a C string.
  abbrev pub etcd_key_set_ttl : Etcd U → Bytes → Bytes → ℤ → Bool → E W ℤ
  etcd_key_set_ttl dir name value ttl must_exist =
      etcd_key_set_data_ttl dir name value ttl must_exist

  abbrev pub etcd_key_set : Etcd U → Bytes → Bytes → Bool → E W ℤ
  etcd_key_set dir name value must_exist = etcd_key_set_data_ttl dir name value (pos 0) must_exist

  unfoldable pub etcd_key_delete : Etcd U → Bytes → E W ℤ
  unfolding skip_slashes etcd_curl_delete etcd_curl_perform
  etcd_key_delete dir name = do
    uri ← uri_create_str (skip_slashes name) (some dir.uri)
    elim uri [
      | none ↦ pure (negsuc 0)
      | some u ↦ (do
        ch ← etcd_curl_delete net dir u none
        t ← transfer net ch
        pure (etcd_curl_perform t))
    ]

  module _ (J : Jansson) (realloc_ok : Bool) where
    -- The request of `etcd_dir_open` for its new directory: is there a directory?
    unfoldable pub get_dir : Etcd U → Etcd U → E W Bool
    unfolding etcd_curl_create etcd_curl_perform_json is_directory
    get_dir parent dir = do
      ch ← etcd_curl_create net parent dir.uri none
      elim ch [
        | none ↦ pure false
        | some r ↦ (do t ← perform r; pure (is_directory J (etcd_curl_perform_json J realloc_ok t)))
      ]

    unfoldable pub etcd_dir_get : Etcd U → E W (Outcome (Reply J.Json))
    unfolding etcd_curl_create etcd_curl_perform_json Directory.etcd_dir_get
    etcd_dir_get dir = do
      ch ← etcd_curl_create net dir dir.uri none
      elim ch [
        | none ↦ pure (ok (status (negsuc 0)))
        | some r ↦ (do
          t ← perform r
          pure (Directory.etcd_dir_get J (etcd_curl_perform_json J realloc_ok t)))
      ]

    -- What is returned, and the document.
    unfoldable pub etcd_dir_wait : Etcd U → Bool → E W (ℤ × Option J.Json)
    unfolding etcd_curl_create etcd_curl_perform_json
    etcd_dir_wait dir recursive = do
      ch ←
          etcd_curl_create net dir dir.uri
            (some (if recursive then wait_query ++ recursive_query else wait_query))
      elim ch [
        | none ↦ pure (negsuc 0, none)
        | some r ↦ (do t ← perform r; pure (etcd_curl_perform_json J realloc_ok t))
      ]
