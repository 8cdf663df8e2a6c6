-- ===== src/Graph/Tests.antt =====
-- The normal form of a graph of two vertices.
mod Files
mod Edges
use hy_gcn_a_gcn_accelerator.Base.{ℕ, ◌≡◌, refl, some, List, [], ◌∷◌, length, sum_by, get_elem?}
use hy_gcn_a_gcn_accelerator.Graph.{Graph, get_gcn_norm_graph}
use hy_gcn_a_gcn_accelerator.Graph.Norm.{IsNormal, get_gcn_norm_graph-IsNormal}

abbrev pair : Graph
pair = record {
  adj = [];
  r_adj = (1 ∷ 1 ∷ []) ∷ [] ∷ [];
  num_vertex = 2;
  num_edge = 2;
  num_class = 3;
  len_feature = 4;
}

get_gcn_norm_graph-IsNormal_example :
    (h : Graph) × (get_gcn_norm_graph pair ≡ some h)
    × (length h.r_adj ≡ 2)
    × (h.num_edge ≡ sum_by length h.r_adj)
    × ((v : ℕ) (row : List ℕ)
        → get_elem? pair.r_adj v ≡ some row
        → (normal : List ℕ) × (get_elem? h.r_adj v ≡ some normal) × IsNormal v row normal)
get_gcn_norm_graph-IsNormal_example = get_gcn_norm_graph-IsNormal pair refl
