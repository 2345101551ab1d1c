-- ===== src/Tests/Layouts.antt =====
-- The layout of three members with seven workers.
use libcluster.Prelude.{◌+◌, ℕ, ◌<◌, ◌≤◌, true, ◌≡◌, ◌≢◌, refl, arith, length, ◌⊎◌}
use libcluster.Prelude.Int.{ℤ, pos, negsuc, int_max}
use libcluster.Prelude.Bytes.{Bytes, strcmp_eq}
use libcluster.Process.{ok, Returns, ct_static, Cluster}
use libcluster.Static.{cluster_static_join}
use libcluster.Static.Bounds.{static_join-IsPlaced, IsPlaced, IsMisplaced}
use libcluster.Tally.{tally}
use libcluster.Tally.Layout.{table, sum_workers, workers_of, entries, Distinct}
use libcluster.Tally.Partition.{IsBase, tally-IsBase, indexes_disjoint, indexes_cover}
use libcluster.Tests.Samples.{node_a, node_b, node_c, members, connection, world}

pub members-Distinct : Distinct members
unfolding strcmp_eq
members-Distinct = ground arith

pub members_small : sum_workers members ≤ int_max
members_small = omega arith

run_a : tally true node_a (entries members) (negsuc 0) (pos 0) ≡ ok (pos 0, pos 7)
unfolding tally strcmp_eq
run_a = refl

run_c : tally true node_c (entries members) (negsuc 0) (pos 0) ≡ ok (pos 3, pos 7)
unfolding tally strcmp_eq
run_c = refl

a_not_c : node_a ≢ node_c
a_not_c = ground arith

indexes_disjoint_example : 0 + 1 ≢ 3 + 0
unfolding strcmp_eq
indexes_disjoint_example =
    indexes_disjoint node_a node_c members 0 3 (pos 7) (pos 7) members-Distinct members_small
      a_not_c run_a run_c 1 0 (omega arith) (omega arith)

indexes_cover_example :
    (i : Bytes) × (a p : ℕ) × (tally true i (entries members) (negsuc 0) (pos 0)
      ≡ ok (pos a, pos (sum_workers members)))
    × (p < workers_of i members)
    × (a + p ≡ 5)
indexes_cover_example = indexes_cover members 5 members-Distinct members_small (omega arith)

tally-IsBase_example :
    (base : ℤ) × (tally true node_b (entries members) (negsuc 0) (pos 0)
      ≡ ok (base, pos (length (table members))))
    × IsBase node_b members base
tally-IsBase_example = tally-IsBase node_b members members-Distinct members_small

-- The second of two workers.
abbrev second_place : Cluster
second_place = record (connection ct_static) { inst_index = pos 1; total_threads = pos 2 }

static_join-IsPlaced_example : Returns (cluster_static_join (world second_place)) (λ r.
    ((r.0 ≡ pos 0) × IsPlaced (world second_place) r.1)
    ⊎ ((r.0 ≡ negsuc 0) × IsMisplaced (world second_place) r.1))
static_join-IsPlaced_example = static_join-IsPlaced (world second_place) refl refl
