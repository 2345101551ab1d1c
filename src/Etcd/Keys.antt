-- ===== src/Etcd/Keys.antt =====
-- engines/etcd.c: `cluster_etcd_json_keys_`, the sorted keys of a JSON object. `qsort` is modelled
-- by insertion; with a total order of the keys every sort gives that list.
use mathlib.Core.List.{Perm, Permᴰ}
use mathlib.Core.List.Perm
use mathlib.Core.Logic.{∥∥₁_elim}
use libcluster.Prelude.{
  Bool, true, false, Option, none, some, List, [], ◌∷◌, ◌≡◌, refl, ap, ap₂, ◌∙◌, arith,
  if◌then◌else◌,
}
use libcluster.Prelude.Bytes.{
  Bytes, strcmp_le, strcmp_le_total, strcmp_le_antisymm, strcmp_le_trans,
}
use libcluster.Jansson.{Jansson}

-- `cluster_etcd_sort_` is `strcmp` on the keys.
unfoldable pub insert_key : Bytes → List Bytes → List Bytes
insert_key k [] = k ∷ []
insert_key k (x ∷ xs) = elim (strcmp_le k x) [ true ↦ k ∷ x ∷ xs | false ↦ x ∷ insert_key k xs ]

unfoldable pub sort_keys : List Bytes → List Bytes
unfolding insert_key
sort_keys [] = []
sort_keys (k ∷ ks) = insert_key k (sort_keys ks)

-- `none` is NULL: the allocation failed.
unfoldable pub cluster_etcd_json_keys : (J : Jansson) → Bool → J.Json → Option (List Bytes)
cluster_etcd_json_keys J calloc_ok dict = if calloc_ok then some (sort_keys (J.keys dict)) else none

insert_key_comm :
    (a b : Bytes) (l : List Bytes) → insert_key a (insert_key b l) ≡ insert_key b (insert_key a l)
unfolding insert_key
insert_key_comm a b [] = ground (arith, strcmp_le_total a b, strcmp_le_antisymm a b)
insert_key_comm a b (x ∷ l) = ground (
  arith,
  strcmp_le_total a b,
  strcmp_le_antisymm a b,
  strcmp_le_trans a b x,
  strcmp_le_trans b a x,
  insert_key_comm a b l,
)

sort_keys-Permᴰ : {xs ys : List Bytes} → Permᴰ xs ys → sort_keys xs ≡ sort_keys ys
unfolding sort_keys
sort_keys-Permᴰ Permᴰ.nil = refl
sort_keys-Permᴰ (Permᴰ.cons {b} {l₁} e p) =
    ap (λ k. insert_key k (sort_keys l₁)) e ∙ ap (insert_key b) (sort_keys-Permᴰ p)
sort_keys-Permᴰ (Permᴰ.swap {a} {b} {l} e f) =
    insert_key_comm a b (sort_keys l) ∙ ap₂ (λ x y. insert_key x (insert_key y (sort_keys l))) f e
sort_keys-Permᴰ (Permᴰ.trans p q) = sort_keys-Permᴰ p ∙ sort_keys-Permᴰ q

keys_set : IsSet (List Bytes)
keys_set = hlevel

-- The order in which an object is walked does not show in the sorted keys.
pub sort_keys-Perm : {xs ys : List Bytes} → Perm xs ys → sort_keys xs ≡ sort_keys ys
sort_keys-Perm p = ∥∥₁_elim p (keys_set _ _) sort_keys-Permᴰ

insert_key-perm : (k : Bytes) (l : List Bytes) → Perm (insert_key k l) (k ∷ l)
unfolding insert_key
insert_key-perm k [] = Perm.refl (k ∷ [])
insert_key-perm k (x ∷ l) =
    elim (strcmp_le k x)
      as (λ b. Perm (elim b [ true ↦ k ∷ x ∷ l | false ↦ x ∷ insert_key k l ]) (k ∷ x ∷ l)) [
        | true ↦ Perm.refl (k ∷ x ∷ l)
        | false ↦ Perm.trans (Perm.cons x (insert_key-perm k l)) (Perm.swap k x l)
      ]

-- The sorted keys are the keys that were given, up to order.
pub sort_keys-perm : (l : List Bytes) → Perm (sort_keys l) l
unfolding sort_keys
sort_keys-perm [] = Perm.refl []
sort_keys-perm (k ∷ l) =
    Perm.trans (insert_key-perm k (sort_keys l)) (Perm.cons k (sort_keys-perm l))

-- Each key is at most the next.
abbrev pub IsSorted : List Bytes → Type 0
IsSorted [] = Unit {0}
IsSorted (x ∷ []) = Unit {0}
IsSorted (x ∷ y ∷ l) = (strcmp_le x y ≡ true) × IsSorted (y ∷ l)

insert_key-IsSorted : (k : Bytes) (l : List Bytes) → IsSorted l → IsSorted (insert_key k l)
unfolding insert_key
insert_key-IsSorted k [] s = tt
insert_key-IsSorted k (x ∷ []) s = ground (arith, strcmp_le_total k x)
insert_key-IsSorted k (x ∷ y ∷ l) s =
    ground (arith, strcmp_le_total k x, strcmp_le_total k y, insert_key-IsSorted k (y ∷ l) s.1)

-- In the sorted keys each key is at most the next, in the order of strcmp.
pub sort_keys-IsSorted : (l : List Bytes) → IsSorted (sort_keys l)
unfolding sort_keys
sort_keys-IsSorted [] = tt
sort_keys-IsSorted (k ∷ l) = insert_key-IsSorted k (sort_keys l) (sort_keys-IsSorted l)
