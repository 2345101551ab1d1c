-- ===== src/Libetcd/Payload/Growth.antt =====
-- The buffer of a response is always large enough for what is written, and never beyond its limit.
use libcluster.Prelude.{
  ℕ, zero, suc, ◌+◌, ◌*◌, ◌%◌, ◌^◌, ◌≤◌, ◌<◌, Bool, true, ◌++◌, ◌≡◌, ◌⊎◌, inl, inr, arith, take,
  take_all, length, length-append, ltb, Bool-cases,
}
use libcluster.Prelude.Bytes.{Bytes}
use libcluster.Libetcd.Payload.{
  EtcdData, alloc_block, max_payload_size, size_t, grow, new_size, chunk, append_payload,
  etcd_payload,
}

-- The size that the loop ends with.
record Grown (n need r : ℕ) : Type 0 where
  enough : need ≤ r
  kept : n ≤ r
  tight : (r ≡ n) ⊎ (r < need + 1024)
  blocks : r % 1024 ≡ n % 1024

-- The loop ends by its test, before its fuel: each round adds to `n`.
grow-Grown :
    (fuel n need : ℕ)
    → need < n + fuel
    → need ≤ 2 ^ 63
    → n ≤ 2 ^ 63 + 1024
    → Grown n need (grow fuel n need)
unfolding grow
grow-Grown zero n need short small start = omega arith
grow-Grown (suc fuel) n need short small start = elim (Bool-cases (ltb n need)) [
  | inl more ↦
      let step : size_t (n + alloc_block) ≡ n + 1024 = ground arith in
      let rest : Grown (n + 1024) need (grow fuel (n + 1024) need) =
        grow-Grown fuel (n + 1024) need (omega arith) small (ground arith) in
      ground (arith, rest.enough, rest.kept, rest.tight, rest.blocks, step)
  | inr done ↦ ground arith
]

-- The buffer holds `len` bytes and has room for their NUL, or nothing is allocated yet; its size is
-- a number of whole blocks within the limit.
pub record IsSound (d : EtcdData) : Type 0 where
  pub used : length d.buf ≡ d.len
  pub room : (d.len < d.size) ⊎ ((d.len ≡ 0) × (d.size ≡ 0))
  pub limit : d.size ≤ max_payload_size
  pub whole : d.size % 1024 ≡ 0

module _ (d : EtcdData) (ptr : Bytes) (size nmemb : ℕ) (sound : IsSound d)
    (given : length ptr ≡ size * nmemb) (small : size * nmemb < 2 ^ 62) where
  chunk-eq : chunk size nmemb ≡ size * nmemb
  chunk-eq = omega arith

  need-eq : size_t (d.len + chunk size nmemb + 1) ≡ d.len + size * nmemb + 1
  need-eq = omega (arith, chunk-eq, sound.room, sound.limit)

  sized : Grown d.size (d.len + size * nmemb + 1) (new_size d (chunk size nmemb))
  sized = rw need-eq (
      grow-Grown (suc (d.len + size * nmemb + 1)) d.size (d.len + size * nmemb + 1) (omega arith)
        (omega (arith, sound.room, sound.limit)) (omega (arith, sound.limit)))

  taken : take (chunk size nmemb) ptr ≡ ptr
  taken = rw chunk-eq (take_all (size * nmemb) ptr (omega (arith, given)))

  appended-IsSound :
      (n : ℕ)
      → d.len + size * nmemb + 1 ≤ n
      → n ≤ max_payload_size
      → n % 1024 ≡ 0
      → IsSound (append_payload d n ptr (chunk size nmemb))
  appended-IsSound n room limit whole = record {
    used = rw taken (omega (arith, length-append d.buf ptr, given, chunk-eq, sound.used));
    room = inl (omega (arith, chunk-eq));
    limit = limit;
    whole = whole;
  }

  -- For a sound buffer and a piece of size * nmemb bytes, fewer than 2^62, etcd_payload_ leaves
  -- a sound buffer (the text and its NUL within the allocated size, which is a number of whole
  -- blocks within the limit), and either returns the piece's length with the whole piece
  -- appended, or returns 0 with the buffer as it was.
  pub etcd_payload_appends :
      (realloc_ok : Bool)
      → let r = etcd_payload realloc_ok d ptr size nmemb in
        IsSound r.1 × (((r.0 ≡ size * nmemb) × (r.1.buf ≡ d.buf ++ ptr)) ⊎ ((r.0 ≡ 0) × (r.1 ≡ d)))
  unfolding etcd_payload
  etcd_payload_appends realloc_ok = ground (
    arith,
    appended-IsSound d.size,
    appended-IsSound (new_size d (chunk size nmemb)),
    sized.enough,
    sized.blocks,
    taken,
    chunk-eq,
    sound,
  )

  -- For a sound buffer and a piece of size * nmemb bytes, fewer than 2^62, that with the text
  -- and a NUL does not pass the limit: if memory can be had, the whole piece is appended and its
  -- length returned.
  pub etcd_payload_accepts :
      d.len + size * nmemb + 1 ≤ max_payload_size
      → let r = etcd_payload true d ptr size nmemb in
        (r.0 ≡ size * nmemb) × (r.1.buf ≡ d.buf ++ ptr)
  unfolding etcd_payload
  etcd_payload_accepts fits =
      ground (arith, sized.tight, sized.blocks, taken, chunk-eq, sound.whole, sound.limit)
