-- ===== src/Libetcd/Requests/Made.antt =====
-- What a request that could be made is set to.
use libcluster.Prelude.{Option, none, some, ◌∷◌, ◌++◌, ◌≡◌, refl, arith, inl, inr, Option-cases}
use libcluster.Prelude.Bytes.{Bytes}
use libcluster.Libetcd.Requests.{
  Request, get, put, delete, Net, Etcd, etcd_curl_create, etcd_curl_put, etcd_curl_delete,
}

abbrev pub with_query : Bytes → Option Bytes → Bytes
with_query s none = s
with_query s (some q) = s ++ b'?' ∷ q

module _ {U W : Type 0} (net : Net U W) where
  -- The URL is the URI's text with the query.
  abbrev pub IsUrl : U → Option Bytes → Bytes → Type 0
  IsUrl uri query url =
      (s : Bytes) × (w : W) × ((net.uri_stralloc uri w).0 ≡ some s) × (url ≡ with_query s query)

  pub curl_create-IsUrl :
      (etcd : Etcd U) (uri : U) (query : Option Bytes) (w : W) (r : Request)
      → (etcd_curl_create net etcd uri query w).0 ≡ some r
      → IsUrl uri query r.url × (r.method ≡ get) × (r.body ≡ none) × (r.verbose ≡ etcd.verbose)
  unfolding etcd_curl_create
  curl_create-IsUrl etcd uri none w r made = elim (Option-cases (net.uri_stralloc uri w).0) [
    | inl failed ↦ absurd (ground (arith, made, failed))
    | inr (s, text) ↦ (
      (s, w, text, ground (arith, made, text)),
      ground (arith, made, text),
      ground (arith, made, text),
      ground (arith, made, text),
    )
  ]
  curl_create-IsUrl etcd uri (some q) w r made = elim (Option-cases (net.uri_stralloc uri w).0) [
    | inl failed ↦ absurd (ground (arith, made, failed))
    | inr (s, text) ↦ (
      (s, w, text, ground (arith, made, text)),
      ground (arith, made, text),
      ground (arith, made, text),
      ground (arith, made, text),
    )
  ]

  pub curl_put-IsUrl :
      (etcd : Etcd U) (uri : U) (form : Bytes) (query : Option Bytes) (w : W) (r : Request)
      → (etcd_curl_put net etcd uri form query w).0 ≡ some r
      → IsUrl uri query r.url × (r.method ≡ put) × (r.body ≡ some form) × (r.verbose ≡ etcd.verbose)
  unfolding etcd_curl_put
  curl_put-IsUrl etcd uri form query w r made =
      elim (Option-cases (etcd_curl_create net etcd uri query w).0) [
        | inl failed ↦ absurd (ground (arith, made, failed))
        | inr (plain, there) ↦
            let (url, m, b, v) = curl_create-IsUrl etcd uri query w plain there in
            let same : r ≡ record plain { method = put; body = some form } =
              ground (arith, made, there) in
            rw same (url, refl, refl, v)
      ]

  pub curl_delete-IsUrl :
      (etcd : Etcd U) (uri : U) (query : Option Bytes) (w : W) (r : Request)
      → (etcd_curl_delete net etcd uri query w).0 ≡ some r
      → IsUrl uri query r.url × (r.method ≡ delete) × (r.body ≡ none) × (r.verbose ≡ etcd.verbose)
  unfolding etcd_curl_delete
  curl_delete-IsUrl etcd uri query w r made =
      elim (Option-cases (etcd_curl_create net etcd uri query w).0) [
        | inl failed ↦ absurd (ground (arith, made, failed))
        | inr (plain, there) ↦
            let (url, m, b, v) = curl_create-IsUrl etcd uri query w plain there in
            let same : r ≡ record plain { method = delete } = ground (arith, made, there) in
            rw same (url, refl, b, v)
      ]
