-- ===== src/Libetcd/Calls/Sent.antt =====
-- What has been sent when a call on a key succeeds.
use libcluster.Prelude.{
  ◌==◌, Bool, false, Option, none, some, ◌≡◌, refl, arith, ◌≤◌, inl, inr, Option-cases, subst, sym,
  ap, ◌∙◌,
}
use libcluster.Prelude.Int.{ℤ, pos}
use libcluster.Prelude.Bytes.{Bytes}
use libcluster.Libetcd.Http.{etcd_curl_perform}
use libcluster.Libetcd.Http.Collected.{etcd_curl_perform_success}
use libcluster.Libetcd.Path.{skip_slashes}
use libcluster.Libetcd.Key.{encoded}
use libcluster.Libetcd.Requests.{
  Request, Method, put, delete, Net, Etcd, etcd_curl_put, etcd_curl_delete, exists_query, transfer,
}
use libcluster.Libetcd.Requests.Made.{IsUrl, curl_put-IsUrl, curl_delete-IsUrl}
use libcluster.Libetcd.Calls.{etcd_key_set_data_ttl, etcd_key_delete}

pub data KeyCall : Type 0 where
  setting : (value : Bytes) (ttl : ℤ) (must_exist : Bool) → KeyCall
  deleting : KeyCall

abbrev pub method_of : KeyCall → Method
method_of (setting value ttl must_exist) = put
method_of deleting = delete

abbrev pub body_of : KeyCall → Option Bytes
body_of (setting value ttl must_exist) = some (encoded value ttl)
body_of deleting = none

abbrev pub query_of : KeyCall → Option Bytes
query_of (setting value ttl must_exist) = exists_query must_exist
query_of deleting = none

module _ {U W : Type 0} (net : Net U W) where
  -- A request for a key of a directory has been answered with a 2xx code, and nothing came after it.
  pub record IsSent (dir : Etcd U) (name : Bytes) (method : Method) (body query : Option Bytes)
      (end : W) : Type 0 where
    pub request : Request
    pub before : W
    pub ends : end ≡ (net.perform request before).1
    pub no_error : (net.perform request before).0.code ≡ 0
    pub from_200 : 200 ≤ (net.perform request before).0.response
    pub to_299 : (net.perform request before).0.response ≤ 299
    pub same_method : request.method ≡ method
    pub same_body : request.body ≡ body
    pub same_verbose : request.verbose ≡ dir.verbose
    pub at_key :
        (u : U) × (w : W) × ((net.uri_create_str (skip_slashes name) (some dir.uri) w).0 ≡ some u)
        × IsUrl net u query request.url

  -- A status of 0 comes from a request.
  transfer_sent :
      (ch : Option Request) (w : W)
      → (net.perform_null.code == 0) ≡ false
      → etcd_curl_perform (transfer net ch w).0 ≡ pos 0
      → (r : Request) × (ch ≡ some r)
  unfolding etcd_curl_perform
  transfer_sent none w null good = absurd (ground arith)
  transfer_sent (some r) w null good = (r, refl)

  -- From the making of the request on.
  request-IsSent :
      (dir : Etcd U) (name : Bytes) (method : Method) (body query : Option Bytes)
      (ch : Option Request) (before x : W) (u : U)
      → (net.perform_null.code == 0) ≡ false
      → (net.uri_create_str (skip_slashes name) (some dir.uri) x).0 ≡ some u
      → ((r : Request)
          → ch ≡ some r
          → IsUrl net u query r.url
            × (r.method ≡ method)
            × (r.body ≡ body)
            × (r.verbose ≡ dir.verbose))
      → etcd_curl_perform (transfer net ch before).0 ≡ pos 0
      → IsSent dir name method body query (transfer net ch before).1
  request-IsSent dir name method body query ch before x u null there made good =
      let (r, is_r) = transfer_sent ch before null good in
      let (url, m, b, v) = made r is_r in
      let accepted : etcd_curl_perform (net.perform r before).0 ≡ pos 0 =
        subst (λ o. etcd_curl_perform (transfer net o before).0 ≡ pos 0) is_r good in
      let (no_error, low, high) = (etcd_curl_perform_success (net.perform r before).0).0 accepted in
      record {
        request = r;
        before = before;
        ends = ap (λ o. (transfer net o before).1) is_r;
        no_error = no_error;
        from_200 = low;
        to_299 = high;
        same_method = m;
        same_body = b;
        same_verbose = v;
        at_key = (u, x, there, url);
      }

  -- The request that a setting makes.
  abbrev set_request : Etcd U → Bytes → Bytes → ℤ → Bool → U → W → Option Request × W
  set_request dir name value ttl must_exist u w =
      etcd_curl_put net dir u (encoded value ttl) (exists_query must_exist)
        (net.uri_create_str (skip_slashes name) (some dir.uri) (net.calloc w).1).1

  key_set_run :
      (dir : Etcd U) (name value : Bytes) (ttl : ℤ) (must_exist : Bool) (w : W) (u : U)
      → (etcd_key_set_data_ttl net dir name value ttl must_exist w).0 ≡ pos 0
      → (net.uri_create_str (skip_slashes name) (some dir.uri) (net.calloc w).1).0 ≡ some u
      → (let ch = set_request dir name value ttl must_exist u w in
          etcd_key_set_data_ttl net dir name value ttl must_exist w
          ≡ (etcd_curl_perform (transfer net ch.0 ch.1).0, (transfer net ch.0 ch.1).1))
  unfolding etcd_key_set_data_ttl
  key_set_run dir name value ttl must_exist w u good there = ground (arith, good, there)

  key_set-IsSent :
      (dir : Etcd U) (name value : Bytes) (ttl : ℤ) (must_exist : Bool) (w : W)
      → (net.perform_null.code == 0) ≡ false
      → (etcd_key_set_data_ttl net dir name value ttl must_exist w).0 ≡ pos 0
      → IsSent dir name put
          (some (encoded value ttl))
          (exists_query must_exist)
          (etcd_key_set_data_ttl net dir name value ttl must_exist w).1
  unfolding etcd_key_set_data_ttl
  key_set-IsSent dir name value ttl must_exist w null good =
      elim (Option-cases
        (net.uri_create_str (skip_slashes name) (some dir.uri) (net.calloc w).1).0) [
          | inl failed ↦ absurd (ground (arith, good, failed))
          | inr (u, there) ↦
              let ch = set_request dir name value ttl must_exist u w in
              let run = key_set_run dir name value ttl must_exist w u good there in
              subst (IsSent dir name put (some (encoded value ttl)) (exists_query must_exist))
                (sym (ap (λ r. r.1) run))
                (request-IsSent dir name put (some (encoded value ttl)) (exists_query must_exist)
                  ch.0 ch.1 (net.calloc w).1 u null there
                  (λ r is_r.
                    curl_put-IsUrl net dir u (encoded value ttl) (exists_query must_exist)
                      (net.uri_create_str (skip_slashes name) (some dir.uri) (net.calloc w).1).1 r
                      is_r)
                  (sym (ap (λ r. r.0) run) ∙ good))
        ]

  abbrev delete_request : Etcd U → Bytes → U → W → Option Request × W
  delete_request dir name u w =
      etcd_curl_delete net dir u none (net.uri_create_str (skip_slashes name) (some dir.uri) w).1

  key_delete_run :
      (dir : Etcd U) (name : Bytes) (w : W) (u : U)
      → (net.uri_create_str (skip_slashes name) (some dir.uri) w).0 ≡ some u
      → (let ch = delete_request dir name u w in
          etcd_key_delete net dir name w
          ≡ (etcd_curl_perform (transfer net ch.0 ch.1).0, (transfer net ch.0 ch.1).1))
  unfolding etcd_key_delete
  key_delete_run dir name w u there = ground (arith, there)

  key_delete-IsSent :
      (dir : Etcd U) (name : Bytes) (w : W)
      → (net.perform_null.code == 0) ≡ false
      → (etcd_key_delete net dir name w).0 ≡ pos 0
      → IsSent dir name delete none none (etcd_key_delete net dir name w).1
  unfolding etcd_key_delete
  key_delete-IsSent dir name w null good =
      elim (Option-cases (net.uri_create_str (skip_slashes name) (some dir.uri) w).0) [
        | inl failed ↦ absurd (ground (arith, good, failed))
        | inr (u, there) ↦
            let ch = delete_request dir name u w in
            let run = key_delete_run dir name w u there in
            subst (IsSent dir name delete none none) (sym (ap (λ r. r.1) run)) (
              request-IsSent dir name delete none none ch.0 ch.1 w u null there
                (λ r is_r.
                  curl_delete-IsUrl net dir u none
                    (net.uri_create_str (skip_slashes name) (some dir.uri) w).1 r is_r)
                (sym (ap (λ r. r.0) run) ∙ good))
      ]

  -- The two calls on a key, as data.
  abbrev pub key_call : KeyCall → Etcd U → Bytes → W → ℤ × W
  key_call (setting value ttl must_exist) dir name w =
      etcd_key_set_data_ttl net dir name value ttl must_exist w
  key_call deleting dir name w = etcd_key_delete net dir name w

  -- Setting or deleting a key of an etcd directory: if the call returns 0, where a transfer of a
  -- NULL handle is not successful, a request was performed whose transfer had no error and a
  -- response code between 200 and 299, and after it nothing was done. The request is a PUT of
  -- the encoded value, or a DELETE without a body; its URL is the text of the URI that the name,
  -- without leading slashes, has under the directory's, with prevExist=true where asked for; and
  -- it is verbose as the handle is.
  pub key_call-IsSent :
      (c : KeyCall) (dir : Etcd U) (name : Bytes) (w : W)
      → (net.perform_null.code == 0) ≡ false
      → (key_call c dir name w).0 ≡ pos 0
      → IsSent dir name (method_of c) (body_of c) (query_of c) (key_call c dir name w).1
  key_call-IsSent (setting value ttl must_exist) dir name w null good =
      key_set-IsSent dir name value ttl must_exist w null good
  key_call-IsSent deleting dir name w null good = key_delete-IsSent dir name w null good
