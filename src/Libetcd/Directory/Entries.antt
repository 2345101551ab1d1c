-- ===== src/Libetcd/Directory/Entries.antt =====
-- What a directory is read as.
use libcluster.Prelude.{
  ◌≤◌, true, Option, none, some, List, [], ◌∷◌, ◌++◌, ◌≡◌, refl, inl, inr, arith, if◌then◌else◌,
  Option-cases, Bool-cases, ◌==◌, sym,
}
use mathlib.Core.List.{append_assoc, append-nil}
use libcluster.Prelude.Int.{pos}
use libcluster.Prelude.Bytes.{Bytes, strcmp_eq}
use libcluster.Process.{ok, fault, null_deref}
use libcluster.Jansson.{Jansson}
use libcluster.Etcd.Client.{reply}
use libcluster.Libetcd.Http.{Transfer, etcd_curl_perform_json}
use libcluster.Libetcd.Http.Collected.{body, perform_json_document}
use libcluster.Libetcd.Directory.{
  after_slash, base_name, entry_name, enter_nodes, etcd_dir_get, node_key, nodes_key, key_key,
}

-- What Jansson documents of its objects, where setting a member does not fail: the empty one is an
-- object without members; setting a member of an object leaves an object, in which it is found.
pub record ObjectLaws (J : Jansson) : Type 0 where
  pub is_object : J.is_object J.object ≡ true
  pub is_set :
      (o v : J.Json) (j : Bytes) → J.is_object o ≡ true → J.is_object (J.object_set o j v) ≡ true
  pub get_object : (k : Bytes) → J.object_get J.object k ≡ none
  pub get_set :
      (o v : J.Json) (j k : Bytes)
      → J.is_object o ≡ true
      → J.object_get (J.object_set o j v) k ≡ (if strcmp_eq j k then some v else J.object_get o k)

-- The last component of a path, read from the left: `read` is what has been read since a '/'.
abbrev pub last_component : Bytes → Bytes → Bytes
last_component read [] = read
last_component read (c ∷ cs) =
    let fresh = last_component [] cs in
    let longer = last_component (read ++ c ∷ []) cs in if c == b'/' then fresh else longer

last_component-after_slash :
    (read s : Bytes)
    → last_component read s ≡ elim (after_slash s) [ none ↦ read ++ s | some t ↦ t ]
unfolding after_slash
last_component-after_slash read [] = sym (append-nil read)
last_component-after_slash read (c ∷ cs) = elim (Bool-cases (c == b'/')) [
  | inl slash ↦ ground (arith, slash, last_component-after_slash [] cs)
  | inr other ↦
      ground (
        arith,
        other,
        last_component-after_slash (read ++ c ∷ []) cs,
        append_assoc read (c ∷ []) cs,
      )
]

module _ (J : Jansson) where
  -- The "key" of an element, if it is a string.
  abbrev pub key_of : J.Json → Option Bytes
  key_of e = elim (J.object_get e key_key) [
    | none ↦ none
    | some key ↦ if J.is_string key then some (J.string_value key) else none
  ]

  -- The last element whose "key" ends in the component `k`.
  abbrev pub last_named : Option J.Json → Bytes → List J.Json → Option J.Json
  last_named found k [] = found
  last_named found k (e ∷ es) = elim (key_of e) [
    | none ↦ last_named found k es
    | some key ↦ last_named (if strcmp_eq (last_component [] key) k then some e else found) k es
  ]

  key_of-none : (e : J.Json) → key_of e ≡ none → entry_name J e ≡ none
  unfolding entry_name
  key_of-none e unnamed = ground arith

  key_of-some :
      (e : J.Json) (key : Bytes)
      → key_of e ≡ some key
      → entry_name J e ≡ some (last_component [] key)
  unfolding entry_name
  key_of-some e key found = ground (arith, last_component-after_slash [] key)

  get-enter_nodes :
      ObjectLaws J
      → (out : J.Json) (es : List J.Json) (k : Bytes) → J.is_object out ≡ true
      → J.object_get (enter_nodes J out es) k ≡ last_named (J.object_get out k) k es
  unfolding enter_nodes
  get-enter_nodes laws out [] k is_out = refl
  get-enter_nodes laws out (e ∷ es) k is_out = elim (Option-cases (key_of e)) [
    | inl unnamed ↦ ground (arith, key_of-none e unnamed, get-enter_nodes laws out es k is_out)
    | inr (key, found) ↦
        let name = last_component [] key in
        ground (
          arith,
          key_of-some e key found,
          get-enter_nodes laws (J.object_set out name e) es k (laws.is_set out e name is_out),
          laws.get_set out e name k is_out,
        )
  ]

  -- Given what Jansson documents of its objects, where setting a member of one does not fail,
  -- etcd_dir_get on a document with an object "node" that holds an array "nodes" succeeds with
  -- an object in which each name leads to the array's last element whose "key" is a string with
  -- that name as its last path component, and every other name leads nowhere.
  pub etcd_dir_get_entries :
      ObjectLaws J
      → (doc node nodes : J.Json) → J.is_object doc ≡ true
      → J.object_get doc node_key ≡ some node
      → J.is_object node ≡ true
      → J.object_get node nodes_key ≡ some nodes
      → J.is_array nodes ≡ true
      → (d : J.Json) × (etcd_dir_get J (pos 0, some doc) ≡ ok (reply d))
        × ((k : Bytes) → J.object_get d k ≡ last_named none k (J.elems nodes))
  unfolding etcd_dir_get
  etcd_dir_get_entries laws doc node nodes a b c d e = (
    enter_nodes J J.object (J.elems nodes),
    ground arith,
    λ k.
        ground (
          arith,
          get-enter_nodes laws J.object (J.elems nodes) k laws.is_object,
          laws.get_object k,
        ),
  )

  -- After a transfer without an error of libcurl and a 2xx response without a body, memory being
  -- had, etcd_dir_get dereferences NULL.
  pub etcd_dir_get_empty :
      (t : Transfer)
      → t.code ≡ 0
      → 200 ≤ t.response
      → t.response ≤ 299
      → body t.pieces ≡ []
      → etcd_dir_get J (etcd_curl_perform_json J true t) ≡ fault null_deref
  unfolding etcd_dir_get
  etcd_dir_get_empty t code low high none_sent =
      let e = perform_json_document J t code low high (ground arith) in ground (arith, e)

after_slash-append :
    (dir name : Bytes) → after_slash name ≡ none → after_slash (dir ++ b'/' ∷ name) ≡ some name
unfolding after_slash
after_slash-append [] name h = ground arith
after_slash-append (c ∷ dir) name h = ground (arith, after_slash-append dir name h)

-- Of the path of a key in a directory, the name of the key is left.
pub base_name-append :
    (dir name : Bytes) → after_slash name ≡ none → base_name (dir ++ b'/' ∷ name) ≡ name
base_name-append dir name h = ground (arith, after_slash-append dir name h)
