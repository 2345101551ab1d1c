-- ===== src/Libetcd/Http.antt =====
-- libetcd/connect.c: a request and what its answer is taken for. libcurl is not modelled: a transfer
-- is what `curl_easy_perform` does, the result code, the response code and the pieces of the body
-- that it hands to the write callback. libcurl gives up with CURLE_WRITE_ERROR when the callback
-- does not take a whole piece.
pub mod Collected
use libcluster.Prelude.{
  ℕ, Bool, true, false, not, ◌&&◌, Option, none, some, List, [], ◌∷◌, ltb, leb, length, ◌==◌,
  if◌then◌else◌,
}
use libcluster.Prelude.Int.{ℤ, pos, negsuc}
use libcluster.Prelude.Bytes.{Bytes}
use libcluster.Jansson.{Jansson}
use libcluster.Libetcd.Payload.{EtcdData, etcd_payload}

pub record Transfer : Type 0 where
  pub code : ℕ  -- CURLE_OK is 0
  pub response : ℕ  -- CURLINFO_RESPONSE_CODE
  pub pieces : List Bytes

-- `etcd_curl_perform_`
unfoldable pub etcd_curl_perform : Transfer → ℤ
etcd_curl_perform t =
    if not (t.code == 0)
    then pos t.code
    else if t.response == 0
    then negsuc 0
    else if leb 200 t.response && leb t.response 299
    then pos 0
    else pos t.response

abbrev pub write_error : ℕ
write_error = 23

-- The pieces of a body, one call of `etcd_payload_` each; `none` where a piece is refused.
unfoldable pub collect : Bool → EtcdData → List Bytes → Option EtcdData
collect realloc_ok d [] = some d
collect realloc_ok d (piece ∷ pieces) =
    let r = etcd_payload realloc_ok d piece 1 (length piece) in
    let rest = collect realloc_ok r.1 pieces in if r.0 == length piece then rest else none

abbrev pub no_data : EtcdData
no_data = record { buf = []; size = 0; len = 0 }

-- `etcd_curl_perform_json_`: what is returned, and what `*dict` is.
unfoldable pub etcd_curl_perform_json : (J : Jansson) → Bool → Transfer → ℤ × Option (J.Json)
unfolding collect
etcd_curl_perform_json J realloc_ok t = elim (collect realloc_ok no_data t.pieces) [
  | none ↦ (pos write_error, none)
  | some d ↦
      if not (t.code == 0)
      then (pos t.code, none)
      else if t.response == 0
      then (negsuc 0, none)
      else if leb 200 t.response && leb t.response 299
      then if d.len == 0
        then (pos 0, none)
        else elim (J.loads d.buf) [ none ↦ (negsuc 0, none) | some v ↦ (pos 0, some v) ]
      else (negsuc 0, none)
]
