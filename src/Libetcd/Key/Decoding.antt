-- ===== src/Libetcd/Key/Decoding.antt =====
-- What a server that decodes forms makes of an encoded value.
use libcluster.Prelude.{
  ℕ, ◌+◌, ◌-◌, ◌*◌, ◌/◌, ◌%◌, ◌<◌, true, false, [], ◌∷◌, ◌++◌, ◌≡◌, refl, ap, ◌∙◌, inl, inr, arith,
  ltb, ◌==◌, if◌then◌else◌, Bool-cases,
}
use libcluster.Prelude.Bytes.{Bytes}
use libcluster.Libetcd.Key.{xdigit, is_plain, escape, encode}

-- The number of a hexadecimal digit, capital or small.
abbrev pub unxdigit : ℕ → ℕ
unxdigit x = if ltb x 58 then x - 48 else if ltb x 71 then x - 55 else x - 87

-- Decoding of a form's value: '%' with two digits is a byte, '+' is a space.
pub form_decode : Bytes → Bytes
form_decode [] = []
form_decode (c ∷ []) = (if c == b'+' then b' ' else c) ∷ []
form_decode (c ∷ x ∷ []) = (if c == b'+' then b' ' else c) ∷ form_decode (x ∷ [])
form_decode (c ∷ x ∷ y ∷ s) = elim (c == b'%') [
  | true ↦ (unxdigit x * 16 + unxdigit y) ∷ form_decode s
  | false ↦ (if c == b'+' then b' ' else c) ∷ form_decode (x ∷ y ∷ s)
]

-- Bytes that a form's decoder takes for something else.
abbrev pub IsSafe : Bytes → Type 0
IsSafe [] = Unit {0}
IsSafe (c ∷ cs) = ((c < 256) × ((c == b'%') ≡ false) × ((c == b'+') ≡ false)) × IsSafe cs

form_decode_plain :
    (c : ℕ) (s : Bytes)
    → (c == b'%') ≡ false
    → (c == b'+') ≡ false
    → form_decode (c ∷ s) ≡ c ∷ form_decode s
unfolding form_decode
form_decode_plain c [] p q = ground arith
form_decode_plain c (x ∷ []) p q = ground arith
form_decode_plain c (x ∷ y ∷ s) p q = ground arith

unxdigit-xdigit : (n : ℕ) → n < 16 → unxdigit (xdigit n) ≡ n
unxdigit-xdigit n h = ground arith

form_decode-escape : (c : ℕ) (s : Bytes) → c < 256 → form_decode (escape c ++ s) ≡ c ∷ form_decode s
unfolding form_decode
form_decode-escape c s h =
    ap (λ n. n ∷ form_decode s)
      (omega
        (arith, unxdigit-xdigit (c / 16) (omega arith), unxdigit-xdigit (c % 16) (omega arith)))

-- A value of bytes that has neither '%' nor '+' is what decoding the encoded value as a form
-- gives.
pub form_decode-encode : (s : Bytes) → IsSafe s → form_decode (encode s) ≡ s
unfolding encode form_decode
form_decode-encode [] h = refl
form_decode-encode (c ∷ cs) h = elim (Bool-cases (is_plain c)) [
  | inl plain ↦
      rw plain
        (form_decode_plain c (encode cs) h.0.1 h.0.2 ∙ ap (◌∷◌ c) (form_decode-encode cs h.1))
  | inr other ↦
      rw other (form_decode-escape c (encode cs) h.0.0 ∙ ap (◌∷◌ c) (form_decode-encode cs h.1))
]

xdigit-is_plain : (n : ℕ) → n < 16 → is_plain (xdigit n) ≡ true
xdigit-is_plain n h = ground arith

-- A byte that is not sent as it is, and the text of its own escape, are encoded alike, whatever
-- follows: the encoding of values is not injective.
pub encode_collides :
    (c : ℕ) (s : Bytes)
    → c < 256
    → is_plain c ≡ false
    → encode (b'%' ∷ xdigit (c / 16) ∷ xdigit (c % 16) ∷ s) ≡ encode (c ∷ s)
unfolding encode
encode_collides c s h p =
    rw (p, xdigit-is_plain (c / 16) (omega arith), xdigit-is_plain (c % 16) (omega arith))
