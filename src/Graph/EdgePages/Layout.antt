-- ===== src/Graph/EdgePages/Layout.antt =====
-- graph.cpp, `GenEdgeLayout`: the pages are full but for the last, and list the edges of the rows.
use hy_gcn_a_gcn_accelerator.Base.{
  ℕ, ◌+◌, ◌*◌, ◌≤◌, ◌<◌, ◌≡◌, refl, ap, subst, sym, ◌∙◌, true, false, some, List, [], ◌∷◌, ◌++◌,
  arith, ltb, leb, length, map, All, ℤ, pos, minus_one, >>=-eq-some, some-eq, check,
}
use mathlib.Core.List.{append-nil, append_assoc, map-append, map-map}
use native.Mathlib.Nat.{div-le_self}
use hy_gcn_a_gcn_accelerator.Graph.Dump.{edge_list}
use hy_gcn_a_gcn_accelerator.Graph.EdgePages.{
  StorCell, Pages, EdgeCompress, ele_per_page, full_page, new_row, new_edge, fill_edge_page,
  fill_row, fill_rows, gen_edge_layout,
}
use hy_gcn_a_gcn_accelerator.Graph.EdgePages.Read.{read_pages}
use hy_gcn_a_gcn_accelerator.Graph.EdgePages.Page.{
  Laid, push_page-all, full_page-Laid, fill_edge-Laid, fill_head-Laid,
}

-- An edge of vertices, as the cells hold it.
abbrev pub as_cells : ℕ × ℕ → ℤ × ℤ
as_cells (a, b) = (pos a, pos b)

-- A page of `ele_per_page` cells is not longer than `sz_page`.
ele_per_page-le : (c : EdgeCompress) (m : ℕ) → ele_per_page c ≡ some m → m ≤ c.sz_page
unfolding ele_per_page
ele_per_page-le c m h =
    let (_, _, e) = >>=-eq-some (check (ltb 0 (c.data_bytes + c.idx_bytes))) _ h in
    omega (arith, some-eq e, div-le_self c.sz_page (c.data_bytes + c.idx_bytes))

module _ (c : EdgeCompress) (e : ℕ) (size : ele_per_page c ≡ some (2 * e)) (many : 1 < e) where
  in_page :
      (done : List (ℤ × ℤ)) (row : ℤ) (p : Pages)
      → Laid e done row p
      → leb (length p.current) c.sz_page ≡ true
  in_page done row p l = ground (arith, l.even, l.room, ele_per_page-le c (2 * e) size)

  run_edge :
      (done : List (ℤ × ℤ)) (row col : ℤ) (p : Pages)
      → Laid e done row p
      → (p' : Pages) × (fill_edge_page c row col false false p ≡ some p')
        × Laid e (done ++ ((row, col) ∷ [])) row p'
  unfolding fill_edge_page
  run_edge done row col p l =
      let (l', h) = full_page-Laid e done row p (omega arith) l in
      let l'' = fill_edge-Laid e done row col (full_page (2 * e) p) many l' h in
      (_, rw (size, in_page (done ++ ((row, col) ∷ [])) row _ l'') refl, l'')

  run_head :
      (done : List (ℤ × ℤ)) (old row col : ℤ) (p : Pages)
      → Laid e done old p
      → (p' : Pages) × (fill_edge_page c row col true false p ≡ some p') × Laid e done row p'
  unfolding fill_edge_page
  run_head done old row col p l =
      let (l', h) = full_page-Laid e done old p (omega arith) l in
      let l'' = fill_head-Laid e done old row col (full_page (2 * e) p) l' h in
      (_, rw (size, in_page done row _ l'') refl, l'')

  run_row :
      (done : List (ℤ × ℤ)) (row : ℕ) (cols : List ℕ) (p : Pages)
      → Laid e done (pos row) p
      → (p' : Pages) × (fill_row c row cols p ≡ some p')
        × Laid e (done ++ map (λ j. as_cells (row, j)) cols) (pos row) p'
  unfolding fill_row
  run_row done row [] p l = (p, refl, subst (λ d. Laid e d (pos row) p) (sym (append-nil done)) l)
  run_row done row (col ∷ cols) p l =
      let (p', run, l') = run_edge done (pos row) (pos col) p l in
      let (p'', run', l'') = run_row (done ++ (as_cells (row, col) ∷ [])) row cols p' l' in
      (
        p'',
        rw (run, run') refl,
        subst (λ d. Laid e d (pos row) p'')
            (append_assoc done (as_cells (row, col) ∷ []) (map (λ j. as_cells (row, j)) cols)) l'',
      )

  run_rows :
      (done : List (ℤ × ℤ)) (old : ℤ) (row : ℕ) (csr : List (List ℕ)) (p : Pages)
      → Laid e done old p
      → (p' : Pages) × (last : ℤ) × (fill_rows c row csr p ≡ some p')
        × Laid e (done ++ map as_cells (edge_list row csr)) last p'
  unfolding fill_rows edge_list
  run_rows done old row [] p l =
      (p, old, refl, subst (λ d. Laid e d old p) (sym (append-nil done)) l)
  run_rows done old row (cols ∷ csr) p l =
      let (p', run, l') = run_head done old (pos row) (pos row) p l in
      let (p'', run', l'') = run_row done row cols p' l' in
      let here = map (λ j. as_cells (row, j)) cols in
      let (q, last, run'', m) = run_rows (done ++ here) (pos row) (row + 1) csr p'' l'' in
      let same : done ++ (here ++ map as_cells (edge_list (row + 1) csr))
          ≡ done ++ map as_cells (map (λ j. (row, j)) cols ++ edge_list (row + 1) csr) =
        ap (◌++◌ done) (
          ap (λ es. es ++ map as_cells (edge_list (row + 1) csr))
            (sym (map-map as_cells (λ j. (row, j)) cols))
          ∙ sym (map-append as_cells (map (λ j. (row, j)) cols) (edge_list (row + 1) csr))) in
      (
        q,
        last,
        rw (run, run', run'') refl,
        subst (λ d. Laid e d last q) (append_assoc done here _ ∙ same) m,
      )

-- Where a page holds an even number of cells, at least four, the layout of rows from the vertex `start`
-- on, begun with an empty page, exists: all its pages but the last hold exactly that many cells, the
-- last does not hold more, and read one by one, the pages list the edges of the rows, in order, by a
-- reader that knows the heads of rows from the edges only by the -1 in their second cell.
pub gen_edge_layout-read :
    (c : EdgeCompress) (e : ℕ)
    → ele_per_page c ≡ some (2 * e)
    → 1 < e
    → (csr : List (List ℕ)) (start : ℕ)
    → (pages : List (List StorCell)) × (last : List StorCell) × (gen_edge_layout c csr start []
        ≡ some (pages ++ (last ∷ [])))
      × All (λ page. length page ≡ 2 * e) pages
      × (length last ≤ 2 * e)
      × (read_pages (pages ++ (last ∷ [])) ≡ map as_cells (edge_list start csr))
unfolding gen_edge_layout fill_edge_page read_pages
gen_edge_layout-read c e size many csr start =
    let start_page : Pages = record { current = []; edge_pages = [] } in
    let empty : Laid e [] minus_one start_page = record {
      k = 0;
      es = [];
      even = omega arith;
      room = omega arith;
      full = tt;
      open_page = refl;
      all = refl;
    } in
    let (p, old, run, l) = run_rows c e size many [] minus_one start csr start_page empty in
    let (l', h) = full_page-Laid e _ old p (omega arith) l in
    let m = fill_head-Laid e _ old minus_one minus_one (full_page (2 * e) p) l' h in
    let q = new_edge minus_one true (new_row minus_one true (full_page (2 * e) p)) in
    (
      q.edge_pages,
      q.current,
      rw (run, size) refl,
      m.full,
      omega (arith, m.even, m.room),
      push_page-all e _ minus_one q m,
    )
