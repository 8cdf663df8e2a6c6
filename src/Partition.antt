-- ===== src/Partition.antt =====
-- hygcn/dataflow/aggr.cpp, `Aggr::Partition` and `Aggr::SparsityElimination`: a chunk of the rows of
-- the adjacency lists is cut into parts whose sources lie within one interval, and the sources of a
-- part are collected once each. Vertices are natural numbers.
pub mod Rows
pub mod Correct
pub mod Sources
mod Tests
use hy_gcn_a_gcn_accelerator.Base.{
  ℕ, zero, suc, ◌+◌, min, Bool, true, false, Option, none, some, List, [], ◌∷◌, ◌&&◌, map, leb,
  if◌then◌else◌, take, drop, length,
}
use hy_gcn_a_gcn_accelerator.SortedSet.{insert_all}

-- The smallest first entry of the rows, at most `num_vertex`.
unfoldable pub start_edge : ℕ → List (List ℕ) → ℕ
start_edge num_vertex [] = num_vertex
start_edge num_vertex ([] ∷ rows) = start_edge num_vertex rows
start_edge num_vertex ((x ∷ row) ∷ rows) = start_edge (min num_vertex x) rows

-- How much of a row the part takes: up to `interval` entries, up to the first that is not below
-- `end_edge`.
unfoldable pub stop_point : ℕ → ℕ → List ℕ → ℕ
stop_point interval end_edge [] = 0
stop_point zero end_edge (x ∷ row) = 0
stop_point (suc interval) end_edge (x ∷ row) =
    let rest = stop_point interval end_edge row in if leb end_edge x then 0 else suc rest

abbrev pub part_of : ℕ → ℕ → List (List ℕ) → List (List ℕ)
part_of interval end_edge rows = map (λ row. take (stop_point interval end_edge row) row) rows

abbrev pub rest_of : ℕ → ℕ → List (List ℕ) → List (List ℕ)
rest_of interval end_edge rows = map (λ row. drop (stop_point interval end_edge row) row) rows

abbrev pub is_empty : List ℕ → Bool
is_empty [] = true
is_empty (x ∷ xs) = false

unfoldable pub all_empty : List (List ℕ) → Bool
all_empty [] = true
all_empty (row ∷ rows) = is_empty row && all_empty rows

-- `while (!end_flag)`, on fuel.
unfoldable pub partition_loop : ℕ → ℕ → ℕ → List (List ℕ) → Option (List (List (List ℕ)))
partition_loop zero num_vertex interval rows = none
partition_loop (suc fuel) num_vertex interval rows =
    let end_edge = start_edge num_vertex rows + interval in
    let part = part_of interval end_edge rows in
    let rest = rest_of interval end_edge rows in
    elim (all_empty rest) [
      | true ↦ some (part ∷ [])
      | false ↦ elim (partition_loop fuel num_vertex interval rest) [
        | none ↦ none
        | some parts ↦ some (part ∷ parts)
      ]
    ]

-- The entries of all rows.
unfoldable pub entries : List (List ℕ) → ℕ
entries [] = 0
entries (row ∷ rows) = length row + entries rows

-- Every round but the last takes an entry.
unfoldable pub partition : ℕ → ℕ → List (List ℕ) → Option (List (List (List ℕ)))
unfolding partition_loop
partition num_vertex interval edges = partition_loop (entries edges + 1) num_vertex interval edges

-- The two loops of `SparsityElimination` insert row by row, entry by entry.
unfoldable pub insert_rows : List (List ℕ) → List ℕ → List ℕ
insert_rows [] set = set
insert_rows (row ∷ rows) set = insert_rows rows (insert_all row set)

unfoldable pub sparsity_elimination : List (List ℕ) → List ℕ
unfolding insert_rows
sparsity_elimination edges = insert_rows edges []
