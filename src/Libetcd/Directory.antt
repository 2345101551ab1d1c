-- ===== src/Libetcd/Directory.antt =====
-- libetcd/dir.c: reading a directory, from the answer of `etcd_curl_perform_json_` on.
pub mod Entries
use libcluster.Prelude.{
  ℕ, Bool, true, false, Option, none, some, List, [], ◌∷◌, ◌==◌, if◌then◌else◌,
}
use libcluster.Prelude.Int.{ℤ, pos, negsuc, eq_ℤ}
use libcluster.Prelude.Bytes.{Bytes}
use libcluster.Process.{Outcome, ok, fault, null_deref}
use libcluster.Jansson.{Jansson}
use libcluster.Etcd.Client.{Reply, reply, status}

abbrev pub node_key : Bytes
node_key = b'n' ∷ b'o' ∷ b'd' ∷ b'e' ∷ []

abbrev pub nodes_key : Bytes
nodes_key = b'n' ∷ b'o' ∷ b'd' ∷ b'e' ∷ b's' ∷ []

abbrev pub dir_key : Bytes
dir_key = b'd' ∷ b'i' ∷ b'r' ∷ []

abbrev pub key_key : Bytes
key_key = b'k' ∷ b'e' ∷ b'y' ∷ []

-- What stands behind the last '/', `strrchr(str, '/') + 1`; the text itself if there is none.
unfoldable pub after_slash : Bytes → Option Bytes
after_slash [] = none
after_slash (c ∷ cs) = elim (after_slash cs) [
  | some t ↦ some t
  | none ↦ if c == b'/' then some cs else none
]

abbrev pub base_name : Bytes → Bytes
base_name s = elim (after_slash s) [ none ↦ s | some t ↦ t ]

module _ (J : Jansson) where
  -- The name under which an element of the array is entered, if its "key" is a string.
  unfoldable pub entry_name : J.Json → Option Bytes
  unfolding after_slash
  entry_name entry = elim (J.object_get entry key_key) [
    | none ↦ none
    | some key ↦ if J.is_string key then some (base_name (J.string_value key)) else none
  ]

  -- The loop over the array: `*out` is the object built so far.
  unfoldable pub enter_nodes : J.Json → List J.Json → J.Json
  enter_nodes out [] = out
  enter_nodes out (entry ∷ entries) = elim (entry_name entry) [
    | none ↦ enter_nodes out entries
    | some name ↦ enter_nodes (J.object_set out name entry) entries
  ]

  -- `etcd_dir_get`, from what the request returned. A success without a document is dereferenced.
  unfoldable pub etcd_dir_get : ℤ × Option J.Json → Outcome (Reply J.Json)
  etcd_dir_get (code, dict) =
      if eq_ℤ code (pos 0)
      then elim dict [
        | none ↦ fault null_deref
        | some doc ↦
            if J.is_object doc
            then elim (J.object_get doc node_key) [
              | none ↦ ok (status (negsuc 0))
              | some node ↦
                  if J.is_object node
                  then elim (J.object_get node nodes_key) [
                    | none ↦ ok (reply J.object)
                    | some nodes ↦
                        if J.is_array nodes
                        then ok (reply (enter_nodes J.object (J.elems nodes)))
                        else ok (reply J.object)
                  ]
                  else ok (status (negsuc 0))
            ]
            else ok (status (negsuc 0))
      ]
      else ok (status code)

  -- `etcd_dir_open`: is the answer that of a directory? Jansson's getters take NULL for no object.
  unfoldable pub is_directory : ℤ × Option J.Json → Bool
  is_directory (code, dict) =
      if eq_ℤ code (pos 0)
      then elim dict [
        | none ↦ false
        | some doc ↦ elim (J.object_get doc node_key) [
          | none ↦ false
          | some node ↦
              if J.is_object node
              then elim (J.object_get node dir_key) [ none ↦ false | some d ↦ J.is_true d ]
              else false
        ]
      ]
      else false
