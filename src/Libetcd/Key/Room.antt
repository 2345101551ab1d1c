-- ===== src/Libetcd/Key/Room.antt =====
-- The request's body fits the buffer that is allocated for it.
use libcluster.Prelude.{◌+◌, ◌*◌, ◌≤◌, ◌<◌, ◌^◌, Bool, [], ◌∷◌, ◌++◌, arith, length, length-append}
use libcluster.Prelude.Int.{ℤ}
use libcluster.Prelude.Bytes.{Bytes}
use libcluster.Prelude.Decimal.{print_int, length-print_int}
use libcluster.Libetcd.Key.{encode, encoded, enclen, ttl_field, ttl_prefix, value_prefix}

length-encode : (value : Bytes) → length (encode value) ≤ length value * 3
unfolding encode
length-encode [] = omega arith
length-encode (c ∷ cs) = ground (arith, length-encode cs)

length-ttl_field : (ttl : ℤ) → length (ttl_field ttl) ≤ 16
length-ttl_field ttl =
    ground (arith, length-append ttl_prefix (print_int ttl), length-print_int ttl)

-- For every lifetime and flag, and a value so short that the computed size does not wrap, the
-- request's body and its NUL fit the buffer that etcd_key_set_data_ttl allocates.
pub encoded_fits :
    (value : Bytes) (ttl : ℤ) (must_exist : Bool)
    → length value * 3 + 71 < 2 ^ 64
    → length (encoded value ttl) + 1 ≤ enclen (length value) ttl must_exist
unfolding encoded enclen
encoded_fits value ttl must_exist h = ground (
  arith,
  length-append value_prefix (encode value ++ ttl_field ttl),
  length-append (encode value) (ttl_field ttl),
  length-encode value,
  length-ttl_field ttl,
)
