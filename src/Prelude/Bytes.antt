-- ===== src/Prelude/Bytes.antt =====
-- C strings as lists of their bytes before the NUL, and `strcmp`.
use libcluster.Prelude.Tests.{◌==◌}
use Prim.Native.Nat.{ℕ, compare, Ordering}
use mathlib.Core.Path.{◌≡◌, refl}
use mathlib.Core.Logic.{◌⊎◌, inl, inr}
use mathlib.Core.Bool.{Bool, true, false}
use mathlib.Core.List.{List, [], ◌∷◌}
use native.Mathlib.Omega.{arith}

abbrev pub Bytes : Type 0
Bytes = List ℕ

-- `strcmp(a, b) <= 0`
unfoldable pub strcmp_le : Bytes → Bytes → Bool
strcmp_le [] b = true
strcmp_le (x ∷ a) [] = false
strcmp_le (x ∷ a) (y ∷ b) = elim (compare x y) [
  | Ordering.lt ↦ true
  | Ordering.eq ↦ strcmp_le a b
  | Ordering.gt ↦ false
]

-- `!strcmp(a, b)`
unfoldable pub strcmp_eq : Bytes → Bytes → Bool
strcmp_eq [] [] = true
strcmp_eq [] (y ∷ b) = false
strcmp_eq (x ∷ a) [] = false
strcmp_eq (x ∷ a) (y ∷ b) = elim (x == y) [ true ↦ strcmp_eq a b | false ↦ false ]

pub strcmp_eq-eq : (a b : Bytes) → strcmp_eq a b ≡ true → a ≡ b
unfolding strcmp_eq
strcmp_eq-eq [] [] h = refl
strcmp_eq-eq [] (y ∷ b) h = ground arith
strcmp_eq-eq (x ∷ a) [] h = ground arith
strcmp_eq-eq (x ∷ a) (y ∷ b) h = ground (arith, strcmp_eq-eq a b)

pub strcmp_eq_refl : (a : Bytes) → strcmp_eq a a ≡ true
unfolding strcmp_eq
strcmp_eq_refl [] = refl
strcmp_eq_refl (x ∷ a) = ground (arith, strcmp_eq_refl a)

pub strcmp_le_refl : (a : Bytes) → strcmp_le a a ≡ true
unfolding strcmp_le
strcmp_le_refl [] = refl
strcmp_le_refl (x ∷ a) = ground (arith, strcmp_le_refl a)

pub strcmp_le_total : (a b : Bytes) → (strcmp_le a b ≡ true) ⊎ (strcmp_le b a ≡ true)
unfolding strcmp_le
strcmp_le_total [] b = inl refl
strcmp_le_total (x ∷ a) [] = inr refl
strcmp_le_total (x ∷ a) (y ∷ b) = ground (arith, strcmp_le_total a b)

pub strcmp_le_antisymm : (a b : Bytes) → strcmp_le a b ≡ true → strcmp_le b a ≡ true → a ≡ b
unfolding strcmp_le
strcmp_le_antisymm [] [] h k = refl
strcmp_le_antisymm [] (y ∷ b) h k = ground arith
strcmp_le_antisymm (x ∷ a) [] h k = ground arith
strcmp_le_antisymm (x ∷ a) (y ∷ b) h k = ground (arith, strcmp_le_antisymm a b)

pub strcmp_le_trans :
    (a b c : Bytes) → strcmp_le a b ≡ true → strcmp_le b c ≡ true → strcmp_le a c ≡ true
unfolding strcmp_le
strcmp_le_trans [] b c h k = refl
strcmp_le_trans (x ∷ a) [] c h k = ground arith
strcmp_le_trans (x ∷ a) (y ∷ b) [] h k = ground arith
strcmp_le_trans (x ∷ a) (y ∷ b) (z ∷ c) h k = ground (arith, strcmp_le_trans a b c)

pub strcmp_eq_comm : (a b : Bytes) → strcmp_eq a b ≡ strcmp_eq b a
unfolding strcmp_eq
strcmp_eq_comm [] [] = refl
strcmp_eq_comm [] (y ∷ b) = refl
strcmp_eq_comm (x ∷ a) [] = refl
strcmp_eq_comm (x ∷ a) (y ∷ b) = ground (arith, strcmp_eq_comm a b)
