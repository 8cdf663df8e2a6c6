-- ===== src/Graph/Degree.antt =====
-- graph.h, `GetSortedDegree` and `EliminateEvilRow`: the degrees of the vertices, and the removal of
-- the rows that are too long.
use hy_gcn_a_gcn_accelerator.Base.{
  ℕ, zero, suc, ◌≡◌, ◌∙◌, leb, refl, Option, none, some, List, [], ◌∷◌, ltb, if◌then◌else◌, ◌>>=◌,
  length, length-map, map, count,
}
use hy_gcn_a_gcn_accelerator.Sort.{
  sort_down, Descending, sort_down-Descending, length-sort_by, count-sort_by,
}
use hy_gcn_a_gcn_accelerator.Graph.{Graph, first_rows, first_rows-all}

unfoldable pub get_sorted_degree : Graph → Option (List ℕ)
get_sorted_degree g = first_rows g.num_vertex g.r_adj >>= λ rows. some (sort_down (map length rows))

-- The row, cleared where it is longer than `thresh`.
abbrev pub without_evil : ℕ → List ℕ → List ℕ
without_evil thresh row = if ltb thresh (length row) then [] else row

unfoldable pub eliminate_rows : ℕ → ℕ → List (List ℕ) → Option (List (List ℕ))
eliminate_rows thresh zero rows = some rows
eliminate_rows thresh (suc n) [] = none
eliminate_rows thresh (suc n) (row ∷ rows) =
    eliminate_rows thresh n rows >>= λ rest. some (without_evil thresh row ∷ rest)

-- For a threshold that is not negative.
unfoldable pub eliminate_evil_row : ℕ → Graph → Option Graph
eliminate_evil_row thresh g =
    eliminate_rows thresh g.num_vertex g.r_adj >>= λ rows. some (record g { r_adj = rows })

-- Where a graph has a row for each vertex, the sorted degrees are the lengths of its rows, each as
-- often, in descending order.
pub get_sorted_degree-Descending :
    (g : Graph)
    → length g.r_adj ≡ g.num_vertex
    → (ds : List ℕ) × (get_sorted_degree g ≡ some ds)
      × Descending ds
      × (length ds ≡ g.num_vertex)
      × ((d : ℕ) → count d ds ≡ count d (map length g.r_adj))
unfolding get_sorted_degree
get_sorted_degree-Descending g e =
    let degrees = map length g.r_adj in
    (
      sort_down degrees,
      rw (first_rows-all g.num_vertex g.r_adj e) refl,
      sort_down-Descending degrees,
      length-sort_by (λ a b. leb b a) degrees ∙ length-map length g.r_adj ∙ e,
      λ d. count-sort_by d (λ a b. leb b a) degrees,
    )
