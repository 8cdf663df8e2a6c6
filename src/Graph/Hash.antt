-- ===== src/Graph/Hash.antt =====
-- graph.h and graph.cpp, `HashGraph`: a graph with a `std::unordered_set` of targets for each vertex. A
-- set is the ascending list of its elements; no operation depends on the order of a set.
pub mod Rows
pub mod Directed
pub mod Undirected
pub mod Loops
use hy_gcn_a_gcn_accelerator.Base.{
  ℕ, zero, suc, ◌+◌, Bool, true, false, Option, none, some, List, [], ◌∷◌, not, ◌==◌, ◌&&◌, ◌||◌,
  if◌then◌else◌, ◌>>=◌, ◌>>◌, check, length, get_elem?, map, sum_by,
}
use hy_gcn_a_gcn_accelerator.SortedSet.{insert, insert_all}
use hy_gcn_a_gcn_accelerator.Graph.{Graph, first_rows}

pub record HashGraph : Type 0 where
  pub adj : List (List ℕ)
  pub num_vertex : ℕ
  pub num_edge : ℕ
  pub num_class : ℕ
  pub len_feature : ℕ
  pub is_directed : Bool

-- `s.find(x) != s.end()`.
unfoldable pub has : ℕ → List ℕ → Bool
has x [] = false
has x (y ∷ s) = x == y || has x s

unfoldable pub has_all : List ℕ → List ℕ → Bool
has_all [] s = true
has_all (x ∷ xs) s = has x s && has_all xs s

-- `adj[i].insert(x)`.
unfoldable pub insert_at : List (List ℕ) → ℕ → ℕ → Option (List (List ℕ))
insert_at [] i x = none
insert_at (row ∷ rows) zero x = some (insert x row ∷ rows)
insert_at (row ∷ rows) (suc i) x = insert_at rows i x >>= λ rows'. some (row ∷ rows')

-- The sets of the rows.
abbrev pub sets_of : List (List ℕ) → List (List ℕ)
sets_of rows = map (λ row. insert_all row []) rows

-- The test of the constructor: a set has as many elements as its row, and every entry of it.
unfoldable pub same_rows : List (List ℕ) → List (List ℕ) → Bool
same_rows [] sets = true
same_rows (row ∷ rows) [] = false
same_rows (row ∷ rows) (s ∷ sets) = length s == length row && has_all row s && same_rows rows sets

-- Whether a target of `src` has no edge back.
unfoldable pub one_way_row : List (List ℕ) → ℕ → List ℕ → Option Bool
one_way_row sets src [] = some false
one_way_row sets src (dst ∷ row) = do
  back ← get_elem? sets dst
  let rest = one_way_row sets src row
  if has src back then rest else some true

-- The loop over the vertices from `src` on, which returns at the first such target.
unfoldable pub one_way : List (List ℕ) → ℕ → List (List ℕ) → Option Bool
one_way sets src [] = some false
one_way sets src (row ∷ rows) = do
  found ← one_way_row sets src row
  let rest = one_way sets (src + 1) rows
  if found then some true else rest

-- The constructor.
unfoldable pub new_hash_graph : Graph → Option HashGraph
new_hash_graph g = do
  check (not (length g.adj == 0) && not (g.num_vertex == 0))
  rows ← first_rows g.num_vertex g.adj
  check (same_rows rows (sets_of rows))
  directed ← one_way (sets_of rows) 0 rows
  some (record {
    adj = sets_of rows;
    num_vertex = g.num_vertex;
    num_edge = g.num_edge;
    num_class = g.num_class;
    len_feature = g.len_feature;
    is_directed = directed;
  })

-- The loop over the targets of `src`. It inserts into the set that it runs over only where `src` is a
-- target of itself, and then nothing changes: the targets are those at its start.
unfoldable pub insert_back : ℕ → List ℕ → List (List ℕ) → Option (List (List ℕ))
insert_back src [] adj = some adj
insert_back src (dst ∷ row) adj = insert_at adj dst src >>= insert_back src row

-- The loop over `n` vertices from `src` on.
unfoldable pub undirect : ℕ → ℕ → List (List ℕ) → Option (List (List ℕ))
undirect zero src adj = some adj
undirect (suc n) src adj = do
  row ← get_elem? adj src
  adj' ← insert_back src row adj
  undirect n (src + 1) adj'

unfoldable pub to_undirected : HashGraph → Option HashGraph
to_undirected h = do
  adj ← undirect h.num_vertex 0 h.adj
  rows ← first_rows h.num_vertex adj
  some (record h { adj = adj; num_edge = sum_by length rows; is_directed = false })

-- `s.erase(x)`: an element stands in a set once.
unfoldable pub erase : ℕ → List ℕ → List ℕ
erase x [] = []
erase x (y ∷ s) = let rest = erase x s in if x == y then s else y ∷ rest

-- The loop over `n` vertices from `i` on.
unfoldable pub erase_loops : ℕ → ℕ → List (List ℕ) → Option (List (List ℕ))
erase_loops zero i adj = some adj
erase_loops (suc n) i [] = none
erase_loops (suc n) i (row ∷ adj) = erase_loops n (i + 1) adj >>= λ adj'. some (erase i row ∷ adj')

-- It leaves the count of edges and the mark as they are.
unfoldable pub self_loop_less : HashGraph → Option HashGraph
self_loop_less h = erase_loops h.num_vertex 0 h.adj >>= λ adj. some (record h { adj = adj })
