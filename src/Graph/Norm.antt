-- ===== src/Graph/Norm.antt =====
-- graph.cpp, `GetGcnNormGraph`: every row becomes the ascending list of its sources and the vertex.
use hy_gcn_a_gcn_accelerator.Base.{
  ℕ, zero, suc, ◌+◌, ◌<◌, ◌≡◌, ◌⊎◌, ◌↔◌, refl, ap, sym, ◌∙◌, sum_by, some, List, [], ◌∷◌, arith,
  length, get_elem?, >>=-eq-some, get_elem?_of_lt, get_elem?-lt, ◌≤◌,
}
use hy_gcn_a_gcn_accelerator.SortedSet.{
  Ascending, Member, insert_all, insert-Ascending, insert_all-Ascending, Member-insert,
  Member-insert_all,
}
use hy_gcn_a_gcn_accelerator.Graph.{Graph, norm_row, norm_rows, with_rows, get_gcn_norm_graph}

-- A row of the normal form, for vertex `v` with the sources `row`.
abbrev pub IsNormal : ℕ → List ℕ → List ℕ → Type 0
IsNormal v row normal = Ascending 0 normal × ((a : ℕ) → Member a normal ↔ ((a ≡ v) ⊎ Member a row))

norm_row-IsNormal : (v : ℕ) (row : List ℕ) → IsNormal v row (norm_row v row)
norm_row-IsNormal v row = (
  insert-Ascending 0 v (insert_all row []) (omega arith) (insert_all-Ascending row [] tt),
  λ a. ground (arith, Member-insert a v (insert_all row []), Member-insert_all a row []),
)

-- The rows of a successful run, as the loop leaves them.
norm_rows-suc :
    (n i : ℕ) (r_adj rows : List (List ℕ))
    → norm_rows (suc n) i r_adj ≡ some rows
    → (row : List ℕ) × (rest : List (List ℕ)) × (get_elem? r_adj i ≡ some row)
      × (norm_rows n (i + 1) r_adj ≡ some rest)
      × (rows ≡ norm_row i row ∷ rest)
unfolding norm_rows
norm_rows-suc n i r_adj rows e =
    let (row, at, e') = >>=-eq-some (get_elem? r_adj i) _ e in
    let (rest, run, e'') = >>=-eq-some (norm_rows n (i + 1) r_adj) _ e' in
    (row, rest, at, run, ground arith)

norm_rows-at :
    (n i k j : ℕ) (r_adj rows : List (List ℕ)) (row : List ℕ)
    → i + k ≡ j
    → norm_rows n i r_adj ≡ some rows
    → k < n
    → get_elem? r_adj j ≡ some row
    → get_elem? rows k ≡ some (norm_row j row)
norm_rows-at zero i k j r_adj rows row p e h g = absurd (omega arith)
norm_rows-at (suc n) i zero j r_adj rows row p e h g =
    let (first, rest, at, run, same) = norm_rows-suc n i r_adj rows e in
    let q : i ≡ j = omega arith in
    let at' : get_elem? r_adj j ≡ some first = ap (get_elem? r_adj) (sym q) ∙ at in
    let r : first ≡ row = ground arith in rw (same, q, r)
norm_rows-at (suc n) i (suc k) j r_adj rows row p e h g =
    let (first, rest, at, run, same) = norm_rows-suc n i r_adj rows e in
    rw same (norm_rows-at n (i + 1) k j r_adj rest row (omega arith) run (omega arith) g)

length-norm_rows :
    (n i : ℕ) (r_adj rows : List (List ℕ)) → norm_rows n i r_adj ≡ some rows → length rows ≡ n
unfolding norm_rows
length-norm_rows zero i r_adj rows e = ground arith
length-norm_rows (suc n) i r_adj rows e =
    let (first, rest, at, run, same) = norm_rows-suc n i r_adj rows e in
    rw same (ap suc (length-norm_rows n (i + 1) r_adj rest run))

norm_rows-total :
    (n i : ℕ) (r_adj : List (List ℕ))
    → i + n ≤ length r_adj
    → (rows : List (List ℕ)) × (norm_rows n i r_adj ≡ some rows)
unfolding norm_rows
norm_rows-total zero i r_adj h = ([], refl)
norm_rows-total (suc n) i r_adj h =
    let (row, at) = get_elem?_of_lt r_adj i (omega arith) in
    let (rows, run) = norm_rows-total n (i + 1) r_adj (omega arith) in
    (norm_row i row ∷ rows, rw (at, run))

norm_graph-rows :
    (g h : Graph) (rows : List (List ℕ))
    → norm_rows g.num_vertex 0 g.r_adj ≡ some rows
    → get_gcn_norm_graph g ≡ some h
    → (h.r_adj ≡ rows) × (h.num_edge ≡ sum_by length h.r_adj)
unfolding get_gcn_norm_graph
norm_graph-rows g h rows run e = (ground arith, ground arith)

norm_graph-total :
    (g : Graph) (rows : List (List ℕ))
    → norm_rows g.num_vertex 0 g.r_adj ≡ some rows
    → (h : Graph) × (get_gcn_norm_graph g ≡ some h)
unfolding get_gcn_norm_graph
norm_graph-total g rows run = (with_rows g rows, rw run)

-- A graph with a row for each vertex has a normal form, with a row for each vertex as well. The row
-- of a vertex holds, in ascending order and once each, its sources and the vertex itself, and the
-- edge count is the number of entries of all rows.
pub get_gcn_norm_graph-IsNormal :
    (g : Graph)
    → length g.r_adj ≡ g.num_vertex
    → (h : Graph) × (get_gcn_norm_graph g ≡ some h)
      × (length h.r_adj ≡ g.num_vertex)
      × (h.num_edge ≡ sum_by length h.r_adj)
      × ((v : ℕ) (row : List ℕ)
          → get_elem? g.r_adj v ≡ some row
          → (normal : List ℕ) × (get_elem? h.r_adj v ≡ some normal) × IsNormal v row normal)
get_gcn_norm_graph-IsNormal g len =
    let (rows, run) = norm_rows-total g.num_vertex 0 g.r_adj (omega arith) in
    let (h, e) = norm_graph-total g rows run in
    let (same, count) = norm_graph-rows g h rows run e in
    (
      h,
      e,
      ap length same ∙ length-norm_rows g.num_vertex 0 g.r_adj rows run,
      count,
      λ v row at. (
        norm_row v row,
        ap (λ r. get_elem? r v) same
            ∙ norm_rows-at g.num_vertex 0 v v g.r_adj rows row (omega arith) run
                (omega (arith, get_elem?-lt g.r_adj v at)) at,
        norm_row-IsNormal v row,
      ),
    )
