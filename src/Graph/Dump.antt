-- ===== src/Graph/Dump.antt =====
-- graph.h, `DumpEdge`, and graph.cpp, `LoadSampleGraph`: the file of a sampled graph.
use hy_gcn_a_gcn_accelerator.Base.{
  ℕ, zero, suc, ◌+◌, ◌*◌, ◌<◌, ◌≡◌, refl, ◌∙◌, Option, none, some, List, [], ◌∷◌, ◌++◌, arith, ◌==◌,
  ◌&&◌, if◌then◌else◌, ◌>>=◌, length, map, replicate, All, All-append, sum_by-append, count,
}
use hy_gcn_a_gcn_accelerator.Text.{Text}
use hy_gcn_a_gcn_accelerator.Graph.{Graph, first_rows, first_rows-all}
use hy_gcn_a_gcn_accelerator.Graph.Load.{push_at, index_of, two_ids, edge_line}
use hy_gcn_a_gcn_accelerator.Graph.Edges.{edges, edges-replicate, length-replicate}
use hy_gcn_a_gcn_accelerator.Graph.Lines.{pairs, push_at-some, two_ids-edge_line}

-- The pairs of a vertex and an entry of its row, the vertices from `i` on.
unfoldable pub edge_list : ℕ → List (List ℕ) → List (ℕ × ℕ)
edge_list i [] = []
edge_list i (row ∷ rows) = map (λ j. (i, j)) row ++ edge_list (i + 1) rows

-- The lines of the file.
unfoldable pub dump_edge : Graph → Option (List Text)
dump_edge g = first_rows g.num_vertex g.r_adj >>= λ rows. some (map edge_line (edge_list 0 rows))

-- The loop over the lines. A source that is negative, which the source stores, is a fault here.
unfoldable pub load_sample : List Text → List (List ℕ) → Option (List (List ℕ))
load_sample [] r_adj = some r_adj
load_sample (line ∷ lines) r_adj = do
  let (from, to) = two_ids line
  src ← index_of from
  dst ← index_of to
  r_adj' ← push_at r_adj dst src
  load_sample lines r_adj'

-- The lines of a file; one that cannot be opened has none.
abbrev pub lines_of : Option (List Text) → List Text
lines_of none = []
lines_of (some lines) = lines

-- The graph of sampled rows, with the counts of the graph `raw`.
abbrev pub sampled : ℕ → Graph → List (List ℕ) → Graph
sampled sample_size raw rows = record {
  adj = [];
  r_adj = rows;
  num_vertex = raw.num_vertex;
  num_edge = sample_size * raw.num_vertex;
  num_class = raw.num_class;
  len_feature = raw.len_feature;
}

-- `LoadSampleGraph` beside the graph `raw`, for its file.
unfoldable pub load_sample_graph : ℕ → Graph → Option (List Text) → Option Graph
load_sample_graph sample_size raw file =
    load_sample (lines_of file) (replicate raw.num_vertex []) >>= λ rows.
    some (sampled sample_size raw rows)

pairs-row :
    (i u v : ℕ) (row : List ℕ)
    → pairs (map (λ j. (i, j)) row) u v ≡ (if u == i then count v row else 0)
pairs-row i u v [] = ground arith
pairs-row i u v (x ∷ row) = ground (arith, pairs-row i u v row)

pairs-append : (es fs : List (ℕ × ℕ)) (u v : ℕ) → pairs (es ++ fs) u v ≡ pairs es u v + pairs fs u v
pairs-append es fs u v = sum_by-append (λ e. if u == e.0 && e.1 == v then 1 else 0) es fs

pairs-below : (i : ℕ) (rows : List (List ℕ)) (u v : ℕ) → u < i → pairs (edge_list i rows) u v ≡ 0
unfolding edge_list
pairs-below i [] u v h = refl
pairs-below i (row ∷ rows) u v h = ground (
  arith,
  pairs-append (map (λ j. (i, j)) row) (edge_list (i + 1) rows) u v,
  pairs-row i u v row,
  pairs-below (i + 1) rows u v (omega arith),
)

pub pairs-edge_list :
    (i k u : ℕ) (rows : List (List ℕ)) (v : ℕ)
    → i + k ≡ u
    → pairs (edge_list i rows) u v ≡ edges rows k v
unfolding edge_list
pairs-edge_list i k u [] v e = refl
pairs-edge_list i zero u (row ∷ rows) v e = ground (
  arith,
  pairs-append (map (λ j. (i, j)) row) (edge_list (i + 1) rows) u v,
  pairs-row i u v row,
  pairs-below (i + 1) rows u v (omega arith),
)
pairs-edge_list i (suc k) u (row ∷ rows) v e = ground (
  arith,
  pairs-append (map (λ j. (i, j)) row) (edge_list (i + 1) rows) u v,
  pairs-row i u v row,
  pairs-edge_list (i + 1) k u rows v (omega arith),
)

All-row :
    (P : ℕ → Type 0) (i : ℕ) (row : List ℕ)
    → All P row
    → All (λ (e : ℕ × ℕ). P e.1) (map (λ j. (i, j)) row)
All-row P i [] a = tt
All-row P i (x ∷ row) a = (a.0, All-row P i row a.1)

pub All-edge_list :
    (P : ℕ → Type 0) (i : ℕ) (rows : List (List ℕ))
    → All (All P) rows
    → All (λ (e : ℕ × ℕ). P e.1) (edge_list i rows)
unfolding edge_list
All-edge_list P i [] a = tt
All-edge_list P i (row ∷ rows) a =
    All-append (λ (e : ℕ × ℕ). P e.1) (map (λ j. (i, j)) row) (edge_list (i + 1) rows)
      (All-row P i row a.0) (All-edge_list P (i + 1) rows a.1)

-- What the loop makes of printed pairs.
pub load_sample-edge_line :
    (n : ℕ) (es : List (ℕ × ℕ)) (r_adj : List (List ℕ))
    → length r_adj ≡ n
    → All (λ e. e.1 < n) es
    → (r_adj' : List (List ℕ)) × (load_sample (map edge_line es) r_adj ≡ some r_adj')
      × (length r_adj' ≡ n)
      × ((u v : ℕ) → edges r_adj' v u ≡ edges r_adj v u + pairs es u v)
unfolding load_sample
load_sample-edge_line n [] r_adj q a = (r_adj, refl, q, λ u v. omega arith)
load_sample-edge_line n ((src, dst) ∷ es) r_adj q a =
    let (r', r_run, (_, long, _, at)) = push_at-some r_adj dst src (omega (arith, a.0, q)) in
    let (r_adj', run, long', into) = load_sample-edge_line n es r' (long ∙ q) a.1 in
    (
      r_adj',
      rw (two_ids-edge_line src dst, r_run, run, load_sample) refl,
      long',
      λ u v. ground (arith, into u v, at v u),
    )

-- The file of a graph, whose rows list sources below the number of vertices, is loaded with every edge
-- turned round: an edge stands in the loaded graph as often as its reverse stands in the dumped one.
pub load_sample_graph-dump_edge :
    (size : ℕ) (raw g : Graph)
    → raw.num_vertex ≡ g.num_vertex
    → length g.r_adj ≡ g.num_vertex
    → All (All (λ s. s < g.num_vertex)) g.r_adj
    → (lines : List Text) × (h : Graph) × (dump_edge g ≡ some lines)
      × (load_sample_graph size raw (some lines) ≡ some h)
      × (length h.r_adj ≡ g.num_vertex)
      × ((u v : ℕ) → edges h.r_adj v u ≡ edges g.r_adj u v)
unfolding dump_edge load_sample_graph
load_sample_graph-dump_edge size raw g same long below =
    let empty = replicate raw.num_vertex [] in
    let (rows, run, long', at) =
      load_sample-edge_line g.num_vertex (edge_list 0 g.r_adj) empty
        (length-replicate raw.num_vertex ∙ same)
        (All-edge_list (λ s. s < g.num_vertex) 0 g.r_adj below) in
    (
      map edge_line (edge_list 0 g.r_adj),
      sampled size raw rows,
      rw (first_rows-all g.num_vertex g.r_adj long),
      rw run refl,
      long',
      λ u v. omega (
        arith,
        at u v,
        edges-replicate raw.num_vertex v u,
        pairs-edge_list 0 u u g.r_adj v (omega arith),
      ),
    )
