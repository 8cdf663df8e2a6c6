-- ===== src/Graph/Tests/Edges.antt =====
-- The hash graph, the reordering and the pages of edges of small graphs.
use hy_gcn_a_gcn_accelerator.Base.{
  ℕ, zero, suc, ◌*◌, ◌≤◌, ◌≡◌, ◌⊎◌, ◌↔◌, refl, inl, inr, true, false, some, List, [], ◌∷◌, ◌++◌,
  length, map, All, sum_by, arith,
}
use hy_gcn_a_gcn_accelerator.Graph.{Graph}
use hy_gcn_a_gcn_accelerator.Graph.Dump.{edge_list}
use hy_gcn_a_gcn_accelerator.Graph.Hash.{HashGraph, new_hash_graph, to_undirected}
use hy_gcn_a_gcn_accelerator.Graph.Hash.Rows.{HasEdge}
use hy_gcn_a_gcn_accelerator.Graph.Hash.Directed.{new_hash_graph-HasEdge}
use hy_gcn_a_gcn_accelerator.Graph.Hash.Undirected.{InRange, to_undirected-HasEdge}
use hy_gcn_a_gcn_accelerator.Graph.Reorder.{reorder, IsInverse}
use hy_gcn_a_gcn_accelerator.Graph.Reorder.Back.{reorder-back}
use hy_gcn_a_gcn_accelerator.Graph.EdgePages.{StorCell, EdgeCompress, ele_per_page, gen_edge_layout}
use hy_gcn_a_gcn_accelerator.Graph.EdgePages.Read.{read_pages}
use hy_gcn_a_gcn_accelerator.Graph.EdgePages.Layout.{as_cells, gen_edge_layout-read}

-- The edges from 0 to 1 and from 1 to itself.
abbrev arrow : Graph
arrow = record {
  adj = (1 ∷ []) ∷ (1 ∷ []) ∷ [];
  r_adj = [] ∷ (0 ∷ 1 ∷ []) ∷ [];
  num_vertex = 2;
  num_edge = 2;
  num_class = 3;
  len_feature = 4;
}

new_hash_graph-HasEdge_example :
    (h : HashGraph) × (new_hash_graph arrow ≡ some h)
    × ((u v : ℕ) → HasEdge h.adj u v ↔ HasEdge arrow.adj u v)
    × ((h.is_directed ≡ false) ↔ ((u v : ℕ) → HasEdge arrow.adj u v → HasEdge arrow.adj v u))
new_hash_graph-HasEdge_example =
    new_hash_graph-HasEdge arrow (omega arith) refl ((omega arith, tt), ((omega arith, tt), tt))
      ((λ m. m, tt), ((λ m. m, tt), tt))

abbrev arrow_sets : HashGraph
arrow_sets = record {
  adj = arrow.adj;
  num_vertex = 2;
  num_edge = 2;
  num_class = 3;
  len_feature = 4;
  is_directed = true;
}

arrow_sets-InRange : InRange 2 arrow_sets.adj
arrow_sets-InRange zero v (inl e) = omega (arith, e)
arrow_sets-InRange zero v (inr m) = elim m [ ]
arrow_sets-InRange (suc zero) v (inl e) = omega (arith, e)
arrow_sets-InRange (suc zero) v (inr m) = elim m [ ]
arrow_sets-InRange (suc (suc u)) v h = elim h [ ]

to_undirected-HasEdge_example :
    (h' : HashGraph) × (to_undirected arrow_sets ≡ some h')
    × ((u v : ℕ) → HasEdge h'.adj u v ↔ (HasEdge arrow_sets.adj u v ⊎ HasEdge arrow_sets.adj v u))
    × (h'.num_edge ≡ sum_by length h'.adj)
    × (h'.is_directed ≡ false)
to_undirected-HasEdge_example = to_undirected-HasEdge arrow_sets refl arrow_sets-InRange

swap : ℕ → ℕ
swap zero = 1
swap (suc zero) = 0
swap (suc (suc n)) = suc (suc n)

swap-IsInverse : IsInverse 2 swap swap
unfolding swap
swap-IsInverse zero h = (omega arith, omega arith, refl, refl)
swap-IsInverse (suc zero) h = (omega arith, omega arith, refl, refl)
swap-IsInverse (suc (suc n)) h = absurd (omega arith)

reorder-back_example : (h : Graph) × (reorder swap arrow ≡ some h) × (reorder swap h ≡ some arrow)
reorder-back_example =
    reorder-back arrow swap swap swap-IsInverse refl refl
      ((omega arith, tt), ((omega arith, tt), tt)) (tt, ((omega arith, (omega arith, tt)), tt))

-- Pages of 32 bytes: four cells.
abbrev small_pages : EdgeCompress
small_pages = record { sz_page = 32; data_bytes = 4; idx_bytes = 4 }

four_cells : ele_per_page small_pages ≡ some (2 * 2)
unfolding ele_per_page
four_cells = refl

gen_edge_layout-read_example :
    (pages : List (List StorCell)) × (last : List StorCell) × (gen_edge_layout small_pages
        arrow.r_adj 10 []
      ≡ some (pages ++ (last ∷ [])))
    × All (λ page. length page ≡ 2 * 2) pages
    × (length last ≤ 2 * 2)
    × (read_pages (pages ++ (last ∷ [])) ≡ map as_cells (edge_list 10 arrow.r_adj))
gen_edge_layout-read_example =
    gen_edge_layout-read small_pages 2 four_cells (omega arith) arrow.r_adj 10
