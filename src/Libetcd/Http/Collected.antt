-- ===== src/Libetcd/Http/Collected.antt =====
-- What a response is taken for, from the transfer alone.
use libcluster.Prelude.{
  ◌+◌, ◌≤◌, true, none, some, List, [], ◌∷◌, ◌++◌, ◌≡◌, refl, sym, ap, ◌∙◌, ◌↔◌, inr, arith, length,
  length-append,
}
use mathlib.Core.List.{append_assoc, append-nil}
use libcluster.Prelude.Int.{pos, negsuc}
use libcluster.Prelude.Bytes.{Bytes}
use libcluster.Jansson.{Jansson}
use libcluster.Libetcd.Payload.{EtcdData, max_payload_size, etcd_payload}
use libcluster.Libetcd.Payload.Growth.{IsSound, etcd_payload_appends, etcd_payload_accepts}
use libcluster.Libetcd.Http.{Transfer, etcd_curl_perform, collect, no_data, etcd_curl_perform_json}

-- etcd_curl_perform_ returns 0 exactly if libcurl reports no error and the response code is
-- between 200 and 299.
pub etcd_curl_perform_success :
    (t : Transfer)
    → (etcd_curl_perform t ≡ pos 0) ↔ ((t.code ≡ 0) × (200 ≤ t.response) × (t.response ≤ 299))
unfolding etcd_curl_perform
etcd_curl_perform_success t = (λ h. ground arith, λ h. ground arith)

-- The bytes of a body.
abbrev pub body : List Bytes → Bytes
body [] = []
body (p ∷ ps) = p ++ body ps

-- A body that fits the limit is collected whole, in order.
collect_all :
    (d : EtcdData) (pieces : List Bytes)
    → IsSound d
    → d.len + length (body pieces) + 1 ≤ max_payload_size
    → (e : EtcdData) × (collect true d pieces ≡ some e) × IsSound e × (e.buf ≡ d.buf ++ body pieces)
unfolding collect
collect_all d [] s fits = (d, refl, s, sym (append-nil d.buf))
collect_all d (p ∷ ps) s fits =
    let r = etcd_payload true d p 1 (length p) in
    let bound : length p + length (body ps) + d.len + 1 ≤ max_payload_size =
      omega (arith, length-append p (body ps)) in
    let taken = etcd_payload_accepts d p 1 (length p) s (omega arith) (omega arith) (omega arith) in
    let sound = (etcd_payload_appends d p 1 (length p) s (omega arith) (omega arith) true).0 in
    let (e, run, held, text) =
      collect_all r.1 ps sound
        (omega (arith, sound.used, s.used, ap length taken.1, length-append d.buf p)) in
    (
      e,
      ground (arith, run, taken.0),
      held,
      text ∙ ap (λ b. b ++ body ps) taken.1 ∙ append_assoc d.buf p (body ps),
    )

no_data-IsSound : IsSound no_data
no_data-IsSound = record { used = refl; room = inr (refl, refl); limit = omega arith; whole = refl }

-- For a transfer without an error of libcurl, a 2xx response and a body that fits the limit with
-- a NUL, memory being had: etcd_curl_perform_json_ gives 0 and no document for an empty body, 0
-- and Jansson's reading of the whole body where it reads as a document, and -1 where it does
-- not, whatever the pieces of the body are.
pub perform_json_document :
    (J : Jansson) (t : Transfer)
    → t.code ≡ 0
    → 200 ≤ t.response
    → t.response ≤ 299
    → length (body t.pieces) + 1 ≤ max_payload_size
    → etcd_curl_perform_json J true t ≡ elim (body t.pieces) [
      | [] ↦ (pos 0, none)
      | c ∷ cs ↦ elim (J.loads (c ∷ cs)) [ none ↦ (negsuc 0, none) | some v ↦ (pos 0, some v) ]
    ]
unfolding etcd_curl_perform_json
perform_json_document J t code low high fits =
    let (e, run, held, text) = collect_all no_data t.pieces no_data-IsSound (omega arith) in
    ground (arith, run, held.used, text)
