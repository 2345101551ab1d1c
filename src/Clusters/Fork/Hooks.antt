-- ===== src/Clusters/Fork/Hooks.antt =====
-- What a fork does to the clusters of a process.
use mathlib.Core.List.{append-nil}
use libcluster.Prelude.{
  ℕ, zero, ◌≤◌, ◌==◌, Bool, true, Option, some, List, [], ◌∷◌, ◌++◌, length, ◌≡◌, ◌⊎◌, inl, inr,
  refl, sym, ap, arith, fun_ext, Bool-cases, ◌∙◌,
}
use libcluster.Prelude.Bytes.{Bytes}
use libcluster.Process.{ok, fault, Fault, relock, free, reading, ct_static, ct_etcd, ct_sql, World}
use libcluster.Jansson.{Jansson}
use libcluster.Etcd.Client.{EtcdClient}
use libcluster.Etcd.Session.{Late}
use libcluster.Etcd.Session.Whole.{IsCalm, IsMember}
use libcluster.Etcd.Fork.Handlers.{etcd_prepare_member}
use libcluster.Sql.Client.{SqlClient}
use libcluster.Sql.Session.Whole.{IsPrepared, IsSummable, IsAttached}
use libcluster.Sql.Fork.Handlers.{sql_prepare_member}
use libcluster.Clusters.Links.Laws.{IsListed}
use libcluster.Clusters.Store.{
  Body, Store, ◌>>◌, world_of, set_body, cluster_list_rdlock, cluster_list_unlock,
}
use libcluster.Clusters.Fork.{
  Handlers, handle, handle_kind, fork_hook, prepare_handlers, child_handlers, parent_handlers,
  cluster_fork_prepare, cluster_fork_child, cluster_fork_parent,
}
use libcluster.Clusters.Fork.Visits.{for_each, at-ok, at-fault, each_cluster-IsListed}

-- Every cluster of the list is allocated and of static kind.
abbrev pub AreStatic : (ℕ → Option Body) → List ℕ → Type 0
AreStatic bodies [] = Unit {0}
AreStatic bodies (p ∷ xs) =
    ((b : Body) × (bodies p ≡ some b) × (b.cluster.kind ≡ ct_static)) × AreStatic bodies xs

module _ {S : Type 0} where
  set_same : (p : ℕ) (b : Body) (st : Store S) → st.bodies p ≡ some b → set_body p (some b) st ≡ st
  set_same p b st there =
      ap (λ bodies. record st { bodies = bodies })
        (fun_ext λ q. elim (Bool-cases (q == p)) [
          | inl same ↦ let at_p : q ≡ p = grind arith in rw same (sym (ap st.bodies at_p ∙ there))
          | inr other ↦ rw other refl
        ])

  for_each-static :
      (h : Handlers S) (xs ys : List ℕ) (st : Store S)
      → AreStatic st.bodies xs
      → for_each (handle h) (xs ++ ys) st ≡ for_each (handle h) ys st
  unfolding for_each handle
  for_each-static h [] ys st static = refl
  for_each-static h (p ∷ xs) ys st ((b, there, kind), rest) =
      at-ok (handle h) p st b (world_of b st) (for_each (handle h) (xs ++ ys)) there (rw kind refl)
      ∙ ap (for_each (handle h) (xs ++ ys)) (set_same p b st there)
      ∙ for_each-static h xs ys st rest

  -- A hook comes to the first cluster that is not static with everything as it was.
  fork_hook-static :
      (fuel : ℕ) (h : Handlers S) (xs ys : List ℕ) (st : Store S)
      → IsListed st.links (xs ++ ys)
      → length (xs ++ ys) ≤ fuel
      → st.list_lock ≡ free
      → AreStatic st.bodies xs
      → fork_hook fuel h st
        ≡ (for_each (handle h) ys >> cluster_list_unlock) (record st { list_lock = reading zero })
  unfolding fork_hook cluster_list_rdlock
  fork_hook-static fuel h xs ys st listed bound unlocked static =
      let st₁ = record st { list_lock = reading zero } in
      rw unlocked (
        ap (λ r. ((λ (s : Store S). r) >> cluster_list_unlock) st₁)
          (each_cluster-IsListed (handle h) st₁ (xs ++ ys) fuel listed bound
            ∙ for_each-static h xs ys st₁ static))

  pub fork_hook-all_static :
      (fuel : ℕ) (h : Handlers S) (xs : List ℕ) (st : Store S)
      → IsListed st.links xs
      → length xs ≤ fuel
      → st.list_lock ≡ free
      → AreStatic st.bodies xs
      → fork_hook fuel h st ≡ ok (tt, st)
  unfolding for_each cluster_list_unlock
  fork_hook-all_static fuel h xs st listed bound unlocked static =
      fork_hook-static fuel h xs [] st (rw (append-nil xs) listed) (rw (append-nil xs) bound)
        unlocked static
      ∙ ap (λ l. ok (tt, record st { list_lock = l })) (sym unlocked)

  fork_hook-fault :
      (fuel : ℕ) (h : Handlers S) (xs ys : List ℕ) (p : ℕ) (st : Store S) (b : Body) (x : Fault)
      → IsListed st.links (xs ++ p ∷ ys)
      → length (xs ++ p ∷ ys) ≤ fuel
      → st.list_lock ≡ free
      → AreStatic st.bodies xs
      → st.bodies p ≡ some b
      → handle h p (world_of b st) ≡ fault x
      → fork_hook fuel h st ≡ fault x
  unfolding for_each
  fork_hook-fault fuel h xs ys p st b x listed bound unlocked static there run =
      fork_hook-static fuel h xs (p ∷ ys) st listed bound unlocked static
      ∙ ap
          (λ r.
            ((λ (s : Store S). r) >> cluster_list_unlock) (record st { list_lock = reading zero }))
          (at-fault (handle h) p (record st { list_lock = reading zero }) b x
            (for_each (handle h) ys) there run)

module _ {S : Type 0} (J : Jansson) (etcd : EtcdClient J S) (sql : SqlClient S) where
  -- In a process whose clusters are all of static kind, with its list's lock free and fuel for
  -- the length of the list, each of the three hooks around fork() returns with everything as it
  -- was.
  fork_static :
      (late : ℕ → Late) (malloc_ok calloc_ok : ℕ → Bool) (uuid : ℕ → Bytes) (fuel : ℕ) (xs : List ℕ)
      (st : Store S)
      → IsListed st.links xs
      → length xs ≤ fuel
      → st.list_lock ≡ free
      → AreStatic st.bodies xs
      → (cluster_fork_prepare J etcd sql fuel late calloc_ok st ≡ ok (tt, st))
        × (cluster_fork_child J etcd sql fuel malloc_ok uuid calloc_ok st ≡ ok (tt, st))
        × (cluster_fork_parent J etcd sql fuel calloc_ok st ≡ ok (tt, st))
  unfolding cluster_fork_prepare cluster_fork_child cluster_fork_parent
  fork_static late malloc_ok calloc_ok uuid fuel xs st listed bound unlocked static =
      let run =
        λ (h : Handlers S). fork_hook-all_static fuel h xs st listed bound unlocked static in
      (
        run (prepare_handlers J etcd sql late calloc_ok),
        run (child_handlers J etcd sql malloc_ok uuid calloc_ok),
        run (parent_handlers J etcd sql calloc_ok),
      )

  -- A member of a registry, over etcd or over SQL.
  abbrev pub IsMemberOf : World S → Type 0
  IsMemberOf w =
      (w.cluster.kind ≡ ct_etcd) × IsMember w
      ⊎ (w.cluster.kind ≡ ct_sql) × IsAttached w × IsPrepared w

  member-fault :
      IsCalm J etcd
      → IsSummable sql
      → (late : ℕ → Late) (p : ℕ) (w : World S) → IsMemberOf w
      → handle (prepare_handlers J etcd sql late (λ q. true)) p w ≡ fault relock
  unfolding handle
  member-fault calm sums late p w (inl (kind, member)) =
      ap (λ k. handle_kind (prepare_handlers J etcd sql late (λ q. true)) p k w) kind
      ∙ etcd_prepare_member J etcd calm (late p) w member
  member-fault calm sums late p w (inr (kind, member, texts)) =
      ap (λ k. handle_kind (prepare_handlers J etcd sql late (λ q. true)) p k w) kind
      ∙ sql_prepare_member sql sums (late p) w member texts

  -- Take a process with its list's lock free, whose clusters before a certain one are of static
  -- kind while that one is a member over etcd or over SQL (with its strings in place), fuel for
  -- the length of the list; a registry whose directory reads answer with a status or with a
  -- directory over which a pass ends, and a database whose queries do not fail and over whose
  -- rows the sums stay within int. Then cluster_fork_prepare_, with the keys' allocations
  -- succeeding, ends in taking the read lock of that cluster while it holds its write lock.
  pub fork_prepare-relock :
      IsCalm J etcd
      → IsSummable sql
      → (late : ℕ → Late) (fuel : ℕ) (xs ys : List ℕ) (p : ℕ) (st : Store S) (b : Body)
      → IsListed st.links (xs ++ p ∷ ys)
      → length (xs ++ p ∷ ys) ≤ fuel
      → st.list_lock ≡ free
      → AreStatic st.bodies xs
      → st.bodies p ≡ some b
      → IsMemberOf (world_of b st)
      → cluster_fork_prepare J etcd sql fuel late (λ q. true) st ≡ fault relock
  unfolding cluster_fork_prepare
  fork_prepare-relock calm sums late fuel xs ys p st b listed bound unlocked static there member =
      fork_hook-fault fuel (prepare_handlers J etcd sql late (λ q. true)) xs ys p st b relock listed
        bound unlocked static there (member-fault calm sums late p (world_of b st) member)
