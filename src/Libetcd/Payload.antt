-- ===== src/Libetcd/Payload.antt =====
-- libetcd/connect.c: `etcd_sink_`, and `etcd_payload_`, which collects a response in a growing buffer.
pub mod Growth
use libcluster.Prelude.{
  ℕ, zero, suc, ◌+◌, ◌*◌, ◌%◌, ◌^◌, Bool, true, false, not, List, [], ◌++◌, take, ltb, ◌==◌,
  if◌then◌else◌,
}
use libcluster.Prelude.Bytes.{Bytes}

-- PAYLOAD_ALLOC_BLOCK, MAX_PAYLOAD_SIZE
abbrev pub alloc_block : ℕ
alloc_block = 1024

abbrev pub max_payload_size : ℕ
max_payload_size = 16777216

-- `struct etcd_data_struct`: `size` bytes are allocated, of which `len` are in use and hold `buf`.
pub record EtcdData : Type 0 where
  pub buf : Bytes
  pub size : ℕ
  pub len : ℕ

abbrev pub size_t : ℕ → ℕ
size_t n = n % 2 ^ 64

-- The write callback of requests whose response is not read: it takes every piece.
abbrev pub etcd_sink : ℕ → ℕ → ℕ
etcd_sink size nmemb = size_t (size * nmemb)

-- `while(n < need) n += PAYLOAD_ALLOC_BLOCK`, with `fuel` rounds at most.
unfoldable pub grow : ℕ → ℕ → ℕ → ℕ
grow zero n need = n
grow (suc fuel) n need = elim (ltb n need) [
  | true ↦ grow fuel (size_t (n + alloc_block)) need
  | false ↦ n
]

-- As many rounds as bytes are needed are enough.
abbrev pub new_size : EtcdData → ℕ → ℕ
new_size data' size =
    grow (suc (size_t (data'.len + size + 1))) data'.size (size_t (data'.len + size + 1))

abbrev pub append_payload : EtcdData → ℕ → Bytes → ℕ → EtcdData
append_payload data' n ptr size = record {
  buf = data'.buf ++ take size ptr;
  size = n;
  len = data'.len + size;
}

-- `size *= nmemb`
abbrev pub chunk : ℕ → ℕ → ℕ
chunk size nmemb = size_t (size * nmemb)

-- What is returned, and the data afterwards. `realloc_ok` says whether the buffer can be enlarged.
unfoldable pub etcd_payload : Bool → EtcdData → Bytes → ℕ → ℕ → ℕ × EtcdData
etcd_payload realloc_ok data' ptr size nmemb =
    if new_size data' (chunk size nmemb) == data'.size
    then (chunk size nmemb, append_payload data' data'.size ptr (chunk size nmemb))
    else if ltb max_payload_size (new_size data' (chunk size nmemb))
    then (0, data')
    else if realloc_ok
    then (
      chunk size nmemb,
      append_payload data' (new_size data' (chunk size nmemb)) ptr (chunk size nmemb),
    )
    else (0, data')
