-- ===== src/Graph.antt =====
-- hygcn/graph.h and graph.cpp: the graph, and the normal form in which `gcn` and `gin` use it.
-- Vertices and counts are natural numbers; a read outside a vector is a fault.
pub mod Load
pub mod Edges
pub mod Loaded
pub mod Lines
pub mod Norm
pub mod Degree
pub mod Dump
pub mod Sample
pub mod Hash
pub mod Reorder
pub mod EdgePages
mod Tests
use hy_gcn_a_gcn_accelerator.Base.{
  ℕ, zero, suc, ◌+◌, Option, none, some, List, [], ◌∷◌, ltb, if◌then◌else◌, ◌>>=◌, length,
  get_elem?, sum_by, ◌≡◌, refl, arith,
}
use hy_gcn_a_gcn_accelerator.SortedSet.{insert, insert_all}

pub record Graph : Type 0 where
  pub adj : List (List ℕ)
  pub r_adj : List (List ℕ)
  pub num_vertex : ℕ
  pub num_edge : ℕ
  pub num_class : ℕ
  pub len_feature : ℕ

-- The row of vertex `i` as a `std::set`, with the vertex itself.
abbrev pub norm_row : ℕ → List ℕ → List ℕ
norm_row i row = insert i (insert_all row [])

-- The loop of `GetGcnNormGraph` from vertex `i` on, for `n` vertices.
unfoldable pub norm_rows : ℕ → ℕ → List (List ℕ) → Option (List (List ℕ))
norm_rows zero i r_adj = some []
norm_rows (suc n) i r_adj = do
  row ← get_elem? r_adj i
  rest ← norm_rows n (i + 1) r_adj
  some (norm_row i row ∷ rest)

abbrev pub with_rows : Graph → List (List ℕ) → Graph
with_rows g rows = record {
  adj = [];
  r_adj = rows;
  num_vertex = g.num_vertex;
  num_edge = sum_by length rows;
  num_class = g.num_class;
  len_feature = g.len_feature;
}

unfoldable pub get_gcn_norm_graph : Graph → Option Graph
unfolding norm_rows
get_gcn_norm_graph g = norm_rows g.num_vertex 0 g.r_adj >>= λ rows. some (with_rows g rows)

-- The first `n` rows; a row that is not there is a fault.
unfoldable pub first_rows {ℓ} : {A : Type ℓ} → ℕ → List A → Option (List A)
first_rows zero rows = some []
first_rows (suc n) [] = none
first_rows (suc n) (row ∷ rows) = first_rows n rows >>= λ rest. some (row ∷ rest)

pub first_rows-all {ℓ} :
    {A : Type ℓ} (n : ℕ) (rows : List A) → length rows ≡ n → first_rows n rows ≡ some rows
unfolding first_rows
first_rows-all zero [] e = refl
first_rows-all zero (row ∷ rows) e = absurd (omega (arith, e))
first_rows-all (suc n) [] e = absurd (omega (arith, e))
first_rows-all (suc n) (row ∷ rows) e = rw (first_rows-all n rows (omega (arith, e)))
