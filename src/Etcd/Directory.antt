-- ===== src/Etcd/Directory.antt =====
-- engines/etcd.c: the loop of `cluster_etcd_balance_` over the keys of a registry directory.
use mathlib.Core.List.{Perm}
use libcluster.Prelude.{
  true, Option, none, some, List, [], ◌∷◌, ◌≡◌, refl, arith, if◌then◌else◌, Option-cases, inl, inr,
}
use libcluster.Prelude.Int.{ℤ, pos, negsuc, ◌+ℤ◌}
use libcluster.Prelude.Bytes.{Bytes, strcmp_eq}
use libcluster.Process.{Outcome, ok, fault}
use libcluster.Jansson.{Jansson}
use libcluster.Tally.{tally, add_total, to_int}
use libcluster.Etcd.Keys.{sort_keys, sort_keys-Perm}

abbrev pub value_key : Bytes
value_key = b'v' ∷ b'a' ∷ b'l' ∷ b'u' ∷ b'e' ∷ []

module _ (J : Jansson) where
  -- The worker count that an entry of the directory holds; `none` where the loop says `continue`.
  unfoldable pub entry_count : J.Json → Bytes → Option ℤ
  entry_count dict key = elim (J.object_get dict key) [
    | none ↦ none
    | some entry ↦
        if J.is_object entry
        then elim (J.object_get entry value_key) [
          | none ↦ none
          | some value ↦ some (to_int (J.integer_value value))
        ]
        else none
  ]

  unfoldable pub etcd_tally : J.Json → Bytes → List Bytes → ℤ → ℤ → Outcome (ℤ × ℤ)
  unfolding add_total
  etcd_tally dict instid [] base total = ok (base, total)
  etcd_tally dict instid (key ∷ keys) base total = elim (entry_count dict key) [
    | none ↦ etcd_tally dict instid keys base total
    | some val ↦ elim (add_total total val) [
      | fault x ↦ fault x
      | ok sum ↦ etcd_tally dict instid keys (if strcmp_eq key instid then total else base) sum
    ]
  ]

  -- The members that the loop counts, in the order of `keys`.
  unfoldable pub roster : J.Json → List Bytes → List (Bytes × ℤ)
  roster dict [] = []
  roster dict (key ∷ keys) = elim (entry_count dict key) [
    | none ↦ roster dict keys
    | some val ↦ (key, val) ∷ roster dict keys
  ]

  -- The engine's loop is the common one over the members that it counts.
  pub etcd_tally-eq-tally :
      (dict : J.Json) (instid : Bytes) (keys : List Bytes) (base total : ℤ)
      → etcd_tally dict instid keys base total ≡ tally true instid (roster dict keys) base total
  unfolding etcd_tally roster tally
  etcd_tally-eq-tally dict instid [] base total = refl
  etcd_tally-eq-tally dict instid (key ∷ keys) base total =
      elim (Option-cases (entry_count dict key)) [
        | inl none_here ↦ ground (arith, etcd_tally-eq-tally dict instid keys base total)
        | inr (val, found) ↦ ground (
          arith,
          etcd_tally-eq-tally dict instid keys (if strcmp_eq key instid then total else base)
              (total +ℤ val),
        )
      ]

  -- One pass over a directory, from the keys as Jansson lists them.
  unfoldable pub etcd_pass : J.Json → Bytes → Outcome (ℤ × ℤ)
  etcd_pass dict instid = etcd_tally dict instid (sort_keys (J.keys dict)) (negsuc 0) (pos 0)

  roster_ext :
      (d e : J.Json) (keys : List Bytes)
      → ((k : Bytes) → entry_count d k ≡ entry_count e k)
      → roster d keys ≡ roster e keys
  unfolding roster
  roster_ext d e [] h = refl
  roster_ext d e (key ∷ keys) h = ground (arith, h key, roster_ext d e keys h)

  -- Two JSON objects whose keys are the same up to order, and whose entries have the same worker
  -- counts, give an instance the same base and total, or the same overflow.
  pub etcd_pass-Perm :
      (d e : J.Json) (instid : Bytes)
      → Perm (J.keys d) (J.keys e)
      → ((k : Bytes) → entry_count d k ≡ entry_count e k)
      → etcd_pass d instid ≡ etcd_pass e instid
  unfolding etcd_pass
  etcd_pass-Perm d e instid p h = ground (
    arith,
    etcd_tally-eq-tally d instid (sort_keys (J.keys d)) (negsuc 0) (pos 0),
    etcd_tally-eq-tally e instid (sort_keys (J.keys e)) (negsuc 0) (pos 0),
    roster_ext d e (sort_keys (J.keys d)) h,
    sort_keys-Perm p,
  )
