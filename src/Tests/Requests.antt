-- ===== src/Tests/Requests.antt =====
-- A key that is set over a network that answers.
use libcluster.Prelude.{ℕ, ◌+◌, true, false, Option, none, some, [], ◌∷◌, ◌++◌, ◌≡◌, refl}
use libcluster.Prelude.Int.{pos}
use libcluster.Prelude.Bytes.{Bytes}
use libcluster.Libetcd.Http.{etcd_curl_perform}
use libcluster.Libetcd.Key.{encoded}
use libcluster.Libetcd.Requests.{Net, Etcd, put, exists_query, etcd_curl_create, etcd_curl_put}
use libcluster.Libetcd.Calls.{etcd_key_set_data_ttl}
use libcluster.Libetcd.Calls.Sent.{setting, key_call, IsSent, key_call-IsSent}

abbrev resolve : Bytes → Option Bytes → Bytes
resolve path none = path
resolve path (some base) = base ++ path

-- A URI is its text, and the world the number of requests.
abbrev net : Net Bytes ℕ
net = record {
  calloc = λ w. (true, w);
  uri_create_str = λ path base w. (some (resolve path base), w);
  uri_create_uri = λ uri w. (some uri, w);
  uri_stralloc = λ uri w. (some uri, w);
  curl_easy_init = λ w. (true, w);
  perform = λ r w. (record { code = 0; response = 201; pieces = [] }, w + 1);
  perform_null = record { code = 43; response = 0; pieces = [] };
  pthread_create = λ w. (true, w);
}

abbrev directory : Etcd Bytes
directory = record { uri = b'd' ∷ b'/' ∷ []; verbose = false }

abbrev key : Bytes
key = b'/' ∷ b'k' ∷ []

abbrev value : Bytes
value = b'2' ∷ []

answered : (key_call net (setting value (pos 120) true) directory key 0).0 ≡ pos 0
unfolding etcd_key_set_data_ttl etcd_curl_put etcd_curl_create etcd_curl_perform
answered = refl

key_call-IsSent_example :
    IsSent net directory key put
      (some (encoded value (pos 120)))
      (exists_query true)
      (key_call net (setting value (pos 120) true) directory key 0).1
key_call-IsSent_example =
    key_call-IsSent net (setting value (pos 120) true) directory key 0 refl answered
