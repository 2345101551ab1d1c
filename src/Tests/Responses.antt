-- ===== src/Tests/Responses.antt =====
-- Responses of an etcd server, request bodies and directory paths.
use libcluster.Prelude.{
  ◌+◌, ◌/◌, ◌%◌, ◌≤◌, true, false, none, some, [], ◌∷◌, ◌++◌, ◌≡◌, refl, ◌⊎◌, inl, arith, length,
}
use libcluster.Prelude.Int.{pos}
use libcluster.Prelude.Bytes.{Bytes, strcmp_eq}
use libcluster.Process.{ok, fault, null_deref}
use libcluster.Etcd.Client.{reply}
use libcluster.Libetcd.Payload.{EtcdData, etcd_payload}
use libcluster.Libetcd.Payload.Growth.{IsSound, etcd_payload_appends}
use libcluster.Libetcd.Http.{Transfer, etcd_curl_perform_json}
use libcluster.Libetcd.Http.Collected.{perform_json_document}
use libcluster.Libetcd.Directory.{etcd_dir_get, node_key, nodes_key, key_key}
use libcluster.Libetcd.Directory.Entries.{
  ObjectLaws, last_named, etcd_dir_get_entries, etcd_dir_get_empty,
}
use libcluster.Libetcd.Key.{encode, encoded, enclen, xdigit}
use libcluster.Libetcd.Key.Room.{encoded_fits}
use libcluster.Libetcd.Key.Decoding.{IsSafe, form_decode, form_decode-encode, encode_collides}
use libcluster.Tests.Samples.{Doc, text, no_members, member, no_items, item, json, node_a, node_b}

-- Three bytes in a block of 1024.
abbrev some_data : EtcdData
some_data = record { buf = b'x' ∷ b'y' ∷ b'z' ∷ []; size = 1024; len = 3 }

some_data-IsSound : IsSound some_data
some_data-IsSound = record {
  used = refl;
  room = inl (omega arith);
  limit = omega arith;
  whole = refl;
}

etcd_payload_appends_example :
    let r = etcd_payload true some_data node_a 1 1 in
    IsSound r.1
    × (((r.0 ≡ 1) × (r.1.buf ≡ some_data.buf ++ node_a)) ⊎ ((r.0 ≡ 0) × (r.1 ≡ some_data)))
etcd_payload_appends_example =
    etcd_payload_appends some_data node_a 1 1 some_data-IsSound refl (omega arith) true

-- A response of two pieces, and one without a body.
abbrev answered : Transfer
answered = record { code = 0; response = 200; pieces = node_a ∷ node_b ∷ [] }

abbrev empty_answer : Transfer
empty_answer = record { code = 0; response = 204; pieces = [] }

perform_json_document_example :
    etcd_curl_perform_json json true answered ≡ (pos 0, some (text (node_a ++ node_b)))
perform_json_document_example =
    perform_json_document json answered refl (omega arith) (omega arith) (omega arith)

etcd_dir_get_empty_example :
    etcd_dir_get json (etcd_curl_perform_json json true empty_answer) ≡ fault null_deref
etcd_dir_get_empty_example =
    etcd_dir_get_empty json empty_answer refl (omega arith) (omega arith) refl

json-ObjectLaws : ObjectLaws json
json-ObjectLaws = record {
  is_object = refl;
  is_set = λ o v j h. refl;
  get_object = λ k. refl;
  get_set = λ o v j k h. refl;
}

-- "/d/a" and "/d/b" in a directory.
abbrev listing : Doc
listing =
    item (member key_key (text (b'/' ∷ b'd' ∷ b'/' ∷ node_a)) no_members)
      (item (member key_key (text (b'/' ∷ b'd' ∷ b'/' ∷ node_b)) no_members) no_items)

abbrev listed : Doc
listed = member nodes_key listing no_members

etcd_dir_get_entries_example :
    (d : Doc) × (etcd_dir_get json (pos 0, some (member node_key listed no_members)) ≡ ok (reply d))
    × ((k : Bytes) → json.object_get d k ≡ last_named json none k (json.elems listing))
unfolding strcmp_eq
etcd_dir_get_entries_example =
    etcd_dir_get_entries json json-ObjectLaws (member node_key listed no_members) listed listing
      refl refl refl refl refl

encoded_fits_example :
    length (encoded node_a (pos 120)) + 1 ≤ enclen (length node_a) (pos 120) false
encoded_fits_example = encoded_fits node_a (pos 120) false (omega arith)

-- "a&\n"
abbrev awkward : Bytes
awkward = b'a' ∷ b'&' ∷ 10 ∷ []

awkward-IsSafe : IsSafe awkward
awkward-IsSafe = ground arith

form_decode-encode_example : form_decode (encode awkward) ≡ awkward
form_decode-encode_example = form_decode-encode awkward awkward-IsSafe

-- "%26" and "&"
encode_collides_example :
    encode (b'%' ∷ xdigit (b'&' / 16) ∷ xdigit (b'&' % 16) ∷ []) ≡ encode (b'&' ∷ [])
encode_collides_example = encode_collides b'&' [] (omega arith) refl
