-- ===== src/Libetcd/Key.antt =====
-- libetcd/key.c: the form in which a key's value is sent.
pub mod Room
pub mod Decoding
use libcluster.Prelude.{
  ℕ, ◌+◌, ◌-◌, ◌*◌, ◌/◌, ◌%◌, ◌^◌, Bool, true, false, not, ◌&&◌, List, [], ◌∷◌, ◌++◌, length, leb,
  ltb, ◌==◌, if◌then◌else◌,
}
use libcluster.Prelude.Int.{ℤ, pos, eq_ℤ}
use libcluster.Prelude.Bytes.{Bytes}
use libcluster.Prelude.Decimal.{print_int}

-- XDIGIT
abbrev pub xdigit : ℕ → ℕ
xdigit c = if ltb c 10 then b'0' + c else b'a' + (c - 10)

-- `isprint` in the C locale
abbrev pub isprint : ℕ → Bool
isprint c = leb 32 c && leb c 126

-- The bytes that are sent as they are.
abbrev pub is_plain : ℕ → Bool
is_plain c = isprint c && (not (c == b'&') && not (c == b'='))

abbrev pub escape : ℕ → Bytes
escape c = b'%' ∷ xdigit (c / 16) ∷ xdigit (c % 16) ∷ []

-- The loop over the value.
unfoldable pub encode : Bytes → Bytes
encode [] = []
encode (c ∷ cs) = (if is_plain c then c ∷ [] else escape c) ++ encode cs

abbrev pub value_prefix : Bytes
value_prefix = b'v' ∷ b'a' ∷ b'l' ∷ b'u' ∷ b'e' ∷ b'=' ∷ []

abbrev pub ttl_prefix : Bytes
ttl_prefix = b'&' ∷ b't' ∷ b't' ∷ b'l' ∷ b'=' ∷ []

abbrev pub ttl_field : ℤ → Bytes
ttl_field ttl = if not (eq_ℤ ttl (pos 0)) then ttl_prefix ++ print_int ttl else []

-- The request's body, up to its NUL.
unfoldable pub encoded : Bytes → ℤ → Bytes
encoded value ttl = value_prefix ++ (encode value ++ ttl_field ttl)

-- `enclen`, the bytes that are allocated for it: a sum of type `size_t`.
unfoldable pub enclen : ℕ → ℤ → Bool → ℕ
enclen len ttl must_exist =
    (6 + len * 3 + (if not (eq_ℤ ttl (pos 0)) then 32 else 0) + (if must_exist then 32 else 0) + 1)
    % 2 ^ 64
