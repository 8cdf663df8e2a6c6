-- ===== src/Graph/Sample.antt =====
-- graph.cpp, `GetSampleGraph`: a sample of the sources of every vertex. The random engine and its
-- distribution are the C++ library's: a parameter `rng`, whose numbers lie in the range asked for.
use hy_gcn_a_gcn_accelerator.Base.{
  ℕ, zero, suc, ◌<◌, ◌≡◌, refl, ap, ◌∙◌, inl, inr, Bool, true, Option, some, List, [], ◌∷◌, arith,
  leb, ◌==◌, ◌&&◌, ◌||◌, ◌>>=◌, ◌>>◌, check, map, length, get_elem?, get_elem?_of_lt, All,
}
use hy_gcn_a_gcn_accelerator.Text.{Text}
use hy_gcn_a_gcn_accelerator.Sort.{sort, sort-Sorted, length-sort_by, sort_by-All}
use hy_gcn_a_gcn_accelerator.SortedSet.{Member}
use hy_gcn_a_gcn_accelerator.Partition.Rows.{Sorted}
use hy_gcn_a_gcn_accelerator.Graph.{Graph, first_rows, first_rows-all}
use hy_gcn_a_gcn_accelerator.Graph.Load.{edge_line}
use hy_gcn_a_gcn_accelerator.Graph.Dump.{dump_edge, edge_list, sampled}

-- A random engine with `std::uniform_int_distribution<int>{0, n - 1}`.
pub record Rng : Type 1 where
  pub State : Type 0
  pub draw : State → ℕ → State × ℕ

-- The number that a draw gives is in the range.
abbrev pub DrawsBelow : Rng → Type 0
DrawsBelow rng = (st : rng.State) (n : ℕ) → 0 < n → (rng.draw st n).1 < n

-- The test at the end: a row has `sample_size` entries or none.
unfoldable pub all_sized : ℕ → List (List ℕ) → Bool
all_sized size [] = true
all_sized size (row ∷ rows) = (length row == size || length row == 0) && all_sized size rows

-- A row and the sample of it.
abbrev pub IsSampleOf : ℕ → List ℕ → List ℕ → Type 0
IsSampleOf size [] row = row ≡ []
IsSampleOf size (s ∷ srcs) row =
    (length row ≡ size) × Sorted 0 row × All (λ a. Member a (s ∷ srcs)) row

abbrev pub AreSamplesOf : ℕ → List (List ℕ) → List (List ℕ) → Type 0
AreSamplesOf size [] [] = Unit {0}
AreSamplesOf size [] (row ∷ rows) = ⊥
AreSamplesOf size (srcs ∷ rest) [] = ⊥
AreSamplesOf size (srcs ∷ rest) (row ∷ rows) =
    IsSampleOf size srcs row × AreSamplesOf size rest rows

get_elem?-Member : (xs : List ℕ) (i : ℕ) {x : ℕ} → get_elem? xs i ≡ some x → Member x xs
get_elem?-Member [] i e = cc
get_elem?-Member (y ∷ xs) zero e = inl cc
get_elem?-Member (y ∷ xs) (suc i) e = inr (get_elem?-Member xs i e)

all_sized-AreSamplesOf :
    (size : ℕ) (rows samples : List (List ℕ))
    → AreSamplesOf size rows samples
    → (all_sized size samples ≡ true) × (length samples ≡ length rows)
unfolding all_sized
all_sized-AreSamplesOf size [] [] a = (refl, refl)
all_sized-AreSamplesOf size [] (row ∷ rows) a = elim a [ ]
all_sized-AreSamplesOf size (srcs ∷ rest) [] a = elim a [ ]
all_sized-AreSamplesOf size ([] ∷ rest) (row ∷ rows) a =
    let (sized, long) = all_sized-AreSamplesOf size rest rows a.1 in
    (rw (a.0, sized) (ground arith), ap suc long)
all_sized-AreSamplesOf size ((s ∷ srcs) ∷ rest) (row ∷ rows) a =
    let (sized, long) = all_sized-AreSamplesOf size rest rows a.1 in
    (rw (a.0.0, sized) (ground arith), ap suc long)

module _ (rng : Rng) where
  -- The draws of one row, of the sources `srcs`.
  unfoldable pub sample_row : ℕ → List ℕ → rng.State → Option (List ℕ × rng.State)
  sample_row zero srcs st = some ([], st)
  sample_row (suc k) srcs st = do
    let (st', src_idx) = rng.draw st (length srcs)
    src ← get_elem? srcs src_idx
    (rest, st'') ← sample_row k srcs st'
    some (src ∷ rest, st'')

  -- The loop over the rows: a vertex without sources gets none.
  unfoldable pub sample_rows : ℕ → List (List ℕ) → rng.State → Option (List (List ℕ) × rng.State)
  sample_rows size [] st = some ([], st)
  sample_rows size ([] ∷ rows) st = do (rest, st') ← sample_rows size rows st; some ([] ∷ rest, st')
  sample_rows size ((s ∷ srcs) ∷ rows) st = do
    (row, st') ← sample_row size (s ∷ srcs) st
    (rest, st'') ← sample_rows size rows st'
    some (sort row ∷ rest, st'')

  -- `GetSampleGraph` of `raw`, with the lines of the file that it writes.
  unfoldable pub get_sample_graph : ℕ → Graph → rng.State → Option (Graph × List Text × rng.State)
  get_sample_graph sample_size raw st = do
    srcs ← first_rows raw.num_vertex raw.r_adj
    (rows, st') ← sample_rows sample_size srcs st
    check (length rows == length raw.r_adj)
    check (all_sized sample_size rows)
    lines ← dump_edge (sampled sample_size raw rows)
    some (sampled sample_size raw rows, lines, st')

  sample_row_lem :
      DrawsBelow rng
      → (k : ℕ) (srcs : List ℕ) (st : rng.State) → 0 < length srcs
      → (row : List ℕ) × (st' : rng.State) × (sample_row k srcs st ≡ some (row, st'))
        × (length row ≡ k)
        × All (λ a. Member a srcs) row
  unfolding sample_row
  sample_row_lem law zero srcs st h = ([], st, refl, refl, tt)
  sample_row_lem law (suc k) srcs st h =
      let (st', idx) = rng.draw st (length srcs) in
      let (src, at) = get_elem?_of_lt srcs idx (law st (length srcs) h) in
      let (row, st'', run, long, members) = sample_row_lem law k srcs st' h in
      (src ∷ row, st'', rw (at, run) refl, ap suc long, (get_elem?-Member srcs idx at, members))

  sample_rows_lem :
      DrawsBelow rng
      → (size : ℕ) (rows : List (List ℕ)) (st : rng.State)
      → (samples : List (List ℕ)) × (st' : rng.State) × (sample_rows size rows st
          ≡ some (samples, st'))
        × AreSamplesOf size rows samples
  unfolding sample_rows
  sample_rows_lem law size [] st = ([], st, refl, tt)
  sample_rows_lem law size ([] ∷ rows) st =
      let (rest, st', run, are) = sample_rows_lem law size rows st in
      ([] ∷ rest, st', rw run refl, (refl, are))
  sample_rows_lem law size ((s ∷ srcs) ∷ rows) st =
      let (row, st', drawn, long, members) = sample_row_lem law size (s ∷ srcs) st (omega arith) in
      let (rest, st'', run, are) = sample_rows_lem law size rows st' in
      (
        sort row ∷ rest,
        st'',
        rw (drawn, run) refl,
        (
          (
            length-sort_by leb row ∙ long,
            sort-Sorted row,
            sort_by-All (λ a. Member a (s ∷ srcs)) leb row members,
          ),
          are,
        ),
      )

  -- Where the engine's numbers lie in the range asked for and the graph has a row for each vertex, its
  -- sample exists and no `assert` fails: a vertex without sources keeps none, every other one gets
  -- `sample_size` entries, ascending, all of them its sources.
  pub get_sample_graph-AreSamplesOf :
      DrawsBelow rng
      → (size : ℕ) (raw : Graph) (st : rng.State) → length raw.r_adj ≡ raw.num_vertex
      → (h : Graph) × (lines : List Text) × (st' : rng.State) × (get_sample_graph size raw st
          ≡ some (h, lines, st'))
        × (dump_edge h ≡ some lines)
        × AreSamplesOf size raw.r_adj h.r_adj
  unfolding get_sample_graph dump_edge
  get_sample_graph-AreSamplesOf law size raw st long =
      let (rows, st', run, are) = sample_rows_lem law size raw.r_adj st in
      let (sized, same) = all_sized-AreSamplesOf size raw.r_adj rows are in
      let same_test : (length rows == length raw.r_adj) ≡ true = ground (arith, same) in
      let dumped = first_rows-all raw.num_vertex rows (same ∙ long) in
      (
        sampled size raw rows,
        map edge_line (edge_list 0 rows),
        st',
        rw (first_rows-all raw.num_vertex raw.r_adj long, run, same_test, sized, dumped) refl,
        rw dumped refl,
        are,
      )
