-- ===== src/Tests/Registry.antt =====
-- A registry that answers, with an instance that joins, balances, leaves and forks.
use mathlib.Core.List.{Perm}
use mathlib.Core.List.Perm
use libcluster.Prelude.{◌+◌, true, ◌∷◌, [], ◌≡◌, refl, arith, length, inl}
use libcluster.Prelude.Int.{ℤ, pos, negsuc}
use libcluster.Prelude.Bytes.{Bytes, strcmp_eq, strcmp_le}
use libcluster.Process.{ok, free, Returns, ct_etcd, fork_both, Cluster}
use libcluster.Tally.{to_int}
use libcluster.Tally.Layout.{table, entries}
use libcluster.Tally.Partition.{IsBase, tally-IsBase}
use libcluster.Etcd.Keys.{sort_keys, insert_key}
use libcluster.Etcd.Directory.{roster, entry_count, etcd_pass, etcd_pass-Perm, etcd_tally-eq-tally}
use libcluster.Etcd.Balance.{cluster_etcd_balance}
use libcluster.Etcd.Balance.Result.{adopted, etcd_balance_table}
use libcluster.Etcd.Session.{cluster_etcd_join, cluster_etcd_leave, pass_after}
use libcluster.Etcd.Session.Whole.{IsCalm, IsMember, IsApart, Whole}
use libcluster.Etcd.Session.Steps.{IsReady}
use libcluster.Etcd.Session.Joining.{etcd_join-Whole}
use libcluster.Etcd.Session.Leaving.{etcd_leave-IsApart}
use libcluster.Etcd.Fork.{cluster_etcd_child, cluster_etcd_parent}
use libcluster.Etcd.Fork.Handlers.{fork_both_resumes_nothing}
use libcluster.Tests.Samples.{
  node_b, members, json, directory, shuffled, registry, connection, joined_connection, world, held,
}
use libcluster.Tests.Layouts.{members-Distinct, members_small}

counted : roster json directory (sort_keys (json.keys directory)) ≡ entries members
unfolding roster sort_keys entry_count insert_key strcmp_le strcmp_eq to_int
counted = refl

-- A pass over the directory ends, whatever the instance is called.
passes : (i : Bytes) → (base total : ℤ) × (etcd_pass json directory i ≡ ok (base, total))
unfolding etcd_pass
passes i =
    let (base, r, b) = tally-IsBase i members members-Distinct members_small in
    (
      base,
      pos (length (table members)),
      ground (
        arith,
        r,
        counted,
        etcd_tally-eq-tally json directory i (sort_keys (json.keys directory)) (negsuc 0) (pos 0),
      ),
    )

pub calm : IsCalm json registry
calm = record {
  answers =
      λ h i s. let (base, total, run) = passes i in inl (directory, s + 1, base, total, refl, run);
}

etcd_balance_table_example :
    (base : ℤ) × (cluster_etcd_balance json registry true (held (connection ct_etcd))
      ≡ ok (
        pos 0,
        adopted
            (record (held (connection ct_etcd)) { server = 1 })
            base
            (pos (length (table members))),
      ))
    × IsBase node_b members base
etcd_balance_table_example =
    etcd_balance_table json registry (held (connection ct_etcd)) 2 node_b directory 1 members refl
      refl refl refl counted members-Distinct members_small

same_keys : Perm (json.keys directory) (json.keys shuffled)
same_keys = Perm.swap (b'a' ∷ []) (b'c' ∷ []) (node_b ∷ [])

same_counts : (k : Bytes) → entry_count json directory k ≡ entry_count json shuffled k
unfolding entry_count strcmp_eq
same_counts k = ground arith

etcd_pass-Perm_example : etcd_pass json directory node_b ≡ etcd_pass json shuffled node_b
etcd_pass-Perm_example = etcd_pass-Perm json directory shuffled node_b same_keys same_counts

ready : IsReady (world (connection ct_etcd))
ready = record {
  apart = refl;
  has_name = (node_b, refl);
  has_key = (b'k' ∷ [], refl);
  has_env = (b'e' ∷ [], refl);
  partition_intact = inl refl;
}

etcd_join-Whole_example :
    Whole json registry (cluster_etcd_join json registry true (world (connection ct_etcd)))
etcd_join-Whole_example =
    etcd_join-Whole json registry calm (world (connection ct_etcd)) (b'r' ∷ []) refl refl ready

pub is_member : IsMember (world (joined_connection ct_etcd))
is_member = record {
  unlocked = refl;
  joined = refl;
  has_envdir = (2, refl);
  has_name = (node_b, refl);
}

etcd_leave-IsApart_example :
    Returns
      (cluster_etcd_leave json registry pass_after true (world (joined_connection ct_etcd)))
      (λ r. (r.0 ≡ pos 0) × IsApart r.1)
etcd_leave-IsApart_example =
    etcd_leave-IsApart json registry calm pass_after (world (joined_connection ct_etcd)) is_member

abbrev both : Cluster
both = record (joined_connection ct_etcd) { forkmode = fork_both }

fork_both_resumes_nothing_example :
    (cluster_etcd_child json registry true [] true (held both)
      ≡ ok (tt, record (held both) { lock = free }))
    × (cluster_etcd_parent json registry true (held both)
        ≡ ok (tt, record (held both) { lock = free }))
fork_both_resumes_nothing_example =
    fork_both_resumes_nothing json registry true true [] (held both) refl refl
