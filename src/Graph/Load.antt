-- ===== src/Graph/Load.antt =====
-- graph.cpp, `LoadGraph`: the files of a graph. A file is the list of its lines, or `none` where it
-- cannot be opened.
use hy_gcn_a_gcn_accelerator.Base.{
  ℕ, zero, suc, Bool, Option, none, some, List, [], ◌∷◌, ◌++◌, true, ltb, ◌||◌, not, if◌then◌else◌,
  ◌>>=◌, ◌>>◌, check, replicate, ℤ, pos, negsuc, minus_one, eqb_ℤ,
}
use hy_gcn_a_gcn_accelerator.Text.{Text, to_string, codes, same_text, atoi, fields}
use hy_gcn_a_gcn_accelerator.Graph.{Graph}

-- An `int` as an index or a size. A negative one is outside every vector: what the source does with it
-- is undefined, and it tests nothing.
abbrev pub index_of : ℤ → Option ℕ
index_of (pos n) = some n
index_of (negsuc n) = none

-- `rows[i].push_back(x)`.
unfoldable pub push_at : List (List ℕ) → ℕ → ℕ → Option (List (List ℕ))
push_at [] i x = none
push_at (row ∷ rows) zero x = some ((row ++ (x ∷ [])) ∷ rows)
push_at (row ∷ rows) (suc i) x = push_at rows i x >>= λ rows'. some (row ∷ rows')

-- A line of two vertices.
unfoldable pub two_ids : Text → ℤ × ℤ
two_ids line = let (front, back) = fields line in (atoi front, atoi back)

-- `id < num_vertex`, the assertion on a number: a negative one passes it.
abbrev pub is_below : ℤ → ℕ → Bool
is_below (pos i) n = ltb i n
is_below (negsuc i) n = true

-- A line that `DumpEdge` writes.
unfoldable pub edge_line : ℕ × ℕ → Text
edge_line (a, b) = to_string a ++ (b',' ∷ to_string b)

-- The loop over the edges, for the vectors `adj` and `r_adj`.
unfoldable pub load_edges :
    ℕ → List Text → List (List ℕ) × List (List ℕ) → Option (List (List ℕ) × List (List ℕ))
load_edges n [] s = some s
load_edges n (line ∷ lines) (adj, r_adj) = do
  let (from, to) = two_ids line
  check (is_below to n)
  check (is_below from n)
  dst ← index_of to
  src ← index_of from
  r_adj' ← push_at r_adj dst src
  adj' ← push_at adj src dst
  load_edges n lines (adj', r_adj')

-- The counts of the other file, -1 at first.
pub record Info : Type 0 where
  pub num_edge : ℤ
  pub num_vertex : ℤ
  pub num_class : ℤ
  pub len_feature : ℤ

abbrev pub no_info : Info
no_info = record {
  num_edge = minus_one;
  num_vertex = minus_one;
  num_class = minus_one;
  len_feature = minus_one;
}

-- A line of a key and a value.
unfoldable pub read_info : Info → Text → Option Info
read_info info line =
    let (key, text) = fields line in
    let val = atoi text in
    if same_text key (codes "edge")
    then some (record info { num_edge = val })
    else if same_text key (codes "vertex")
    then some (record info { num_vertex = val })
    else if same_text key (codes "feature")
    then some (record info { len_feature = val })
    else if same_text key (codes "class")
    then some (record info { num_class = val })
    else none

unfoldable pub load_info : List Text → Info → Option Info
load_info [] info = some info
load_info (line ∷ lines) info = read_info info line >>= load_info lines

-- The names that the loader knows.
unfoldable pub is_known : Text → Bool
is_known name =
    same_text name (codes "citeseer")
    || same_text name (codes "cora")
    || same_text name (codes "pubmed")
    || same_text name (codes "reddit")
    || same_text name (codes "dblp")
    || same_text name (codes "test")

-- A count that was given.
unfoldable pub given : ℤ → Option ℕ
given n = check (not (eqb_ℤ n minus_one)) >> index_of n

-- The graph of the counts, with the edges of the lines.
unfoldable pub with_edges : Info → List Text → Option Graph
with_edges info lines = do
  num_edge ← given info.num_edge
  num_vertex ← given info.num_vertex
  num_class ← given info.num_class
  len_feature ← given info.len_feature
  (adj, r_adj) ← load_edges num_vertex lines (replicate num_vertex [], replicate num_vertex [])
  some (record {
    adj = adj;
    r_adj = r_adj;
    num_vertex = num_vertex;
    num_edge = num_edge;
    num_class = num_class;
    len_feature = len_feature;
  })

-- `LoadGraph` of a fresh loader, for its two files.
unfoldable pub load_graph : Text → Option (List Text) → Option (List Text) → Option Graph
load_graph name info_file edge_file = do
  check (is_known name)
  info_lines ← info_file
  edge_lines ← edge_file
  info ← load_info info_lines no_info
  with_edges info edge_lines
