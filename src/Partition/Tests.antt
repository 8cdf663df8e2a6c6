-- ===== src/Partition/Tests.antt =====
-- The theorems on the partition at two rows of a graph of ten vertices, in windows of four.
use hy_gcn_a_gcn_accelerator.Base.{ℕ, ◌≤◌, ◌≡◌, ◌↔◌, refl, some, List, [], ◌∷◌, arith, length, All}
use hy_gcn_a_gcn_accelerator.SortedSet.{Ascending, Member}
use hy_gcn_a_gcn_accelerator.Partition.{
  partition, start_edge, stop_point, all_empty, entries, sparsity_elimination,
}
use hy_gcn_a_gcn_accelerator.Partition.Correct.{Cut, partition-Cut}
use hy_gcn_a_gcn_accelerator.Partition.Sources.{
  Source, sparsity_elimination-sources, partition-sources,
}

abbrev rows : List (List ℕ)
rows = (0 ∷ 5 ∷ 9 ∷ []) ∷ (1 ∷ 2 ∷ []) ∷ []

abbrev parts : List (List (List ℕ))
parts = ((0 ∷ []) ∷ (1 ∷ 2 ∷ []) ∷ []) ∷ ((5 ∷ []) ∷ [] ∷ []) ∷ ((9 ∷ []) ∷ [] ∷ []) ∷ []

partition-Cut_example :
    (ps : List (List (List ℕ))) × (partition 10 4 rows ≡ some ps) × Cut 4 rows ps
partition-Cut_example = partition-Cut 10 4 rows (omega arith) (omega arith) (omega arith)

sparsity_elimination-sources_example :
    Ascending 0 (sparsity_elimination rows)
    × ((a : ℕ) → Member a (sparsity_elimination rows) ↔ Source a rows)
sparsity_elimination-sources_example = sparsity_elimination-sources rows

partition-sources_example : All (λ part. length (sparsity_elimination part) ≤ 4) parts
unfolding partition start_edge stop_point all_empty entries
partition-sources_example =
    partition-sources 10 4 rows (omega arith) (omega arith) (omega arith) refl
