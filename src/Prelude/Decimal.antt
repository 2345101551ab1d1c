-- ===== src/Prelude/Decimal.antt =====
-- What `printf("%d")` writes for an `int`.
use libcluster.Prelude.Tests.{ltb, if◌then◌else◌}
use libcluster.Prelude.Lists.{length, length-append}
use libcluster.Prelude.Int.{ℤ, pos, negsuc, int_max}
use libcluster.Prelude.Bytes.{Bytes}
use Prim.Native.Nat.{ℕ, zero, suc, ◌+◌, ◌-◌, ◌*◌, ◌/◌, ◌%◌, ◌^◌, ◌≤◌, ◌<◌}
use mathlib.Core.Path.{◌≡◌, refl}
use mathlib.Core.List.{[], ◌∷◌, ◌++◌}
use native.Mathlib.Omega.{arith}
use native.Mathlib.Nat.{pow-suc}

-- At most `fuel` decimal digits; an `int` has ten.
digits : ℕ → ℕ → Bytes
digits zero n = []
digits (suc fuel) n =
    let more = digits fuel (n / 10) ++ (b'0' + n % 10) ∷ [] in
    if ltb n 10 then (b'0' + n) ∷ [] else more

unfoldable pub print_int : ℤ → Bytes
unfolding digits
print_int (pos n) = digits 10 n
print_int (negsuc n) = b'-' ∷ digits 10 (suc n)

length-digits : (fuel n : ℕ) → length (digits fuel n) ≤ fuel
unfolding digits
length-digits zero n = omega arith
length-digits (suc fuel) n = ground (
  arith,
  length-append (digits fuel (n / 10)) ((b'0' + n % 10) ∷ []),
  length-digits fuel (n / 10),
)

pub length-print_int : (z : ℤ) → length (print_int z) ≤ 11
unfolding print_int
length-print_int (pos n) = omega (arith, length-digits 10 n)
length-print_int (negsuc n) = omega (arith, length-digits 10 (suc n))

-- The number that a run of digits stands for, read from the left.
pub read_digits : ℕ → Bytes → ℕ
read_digits acc [] = acc
read_digits acc (c ∷ cs) = read_digits (acc * 10 + (c - b'0')) cs

read_digits-concat :
    (acc : ℕ) (xs : Bytes) (c : ℕ)
    → read_digits acc (xs ++ c ∷ []) ≡ read_digits acc xs * 10 + (c - b'0')
unfolding read_digits
read_digits-concat acc [] c = refl
read_digits-concat acc (x ∷ xs) c = read_digits-concat (acc * 10 + (x - b'0')) xs c

read_digits-digits : (fuel n : ℕ) → n < 10 ^ fuel → read_digits 0 (digits fuel n) ≡ n
unfolding digits read_digits
read_digits-digits zero n h = omega arith
read_digits-digits (suc fuel) n h = ground (
  arith,
  pow-suc 10 fuel,
  read_digits-concat 0 (digits fuel (n / 10)) (b'0' + n % 10),
  read_digits-digits fuel (n / 10),
)

-- Every `int` that is not negative is read back from what is printed.
pub read_digits-print_int : (n : ℕ) → n ≤ int_max → read_digits 0 (print_int (pos n)) ≡ n
unfolding print_int
read_digits-print_int n h = read_digits-digits 10 n (omega arith)
