-- ===== src/Graph/Tests/Files.antt =====
-- The loaders on small files.
use hy_gcn_a_gcn_accelerator.Base.{
  ℕ, ◌+◌, ◌≡◌, ◌↔◌, refl, true, some, List, [], ◌∷◌, length, map, All, replicate, arith,
}
use hy_gcn_a_gcn_accelerator.Text.{Text, codes, same_text, digits_from, atoi, cut_at}
use hy_gcn_a_gcn_accelerator.Graph.{Graph}
use hy_gcn_a_gcn_accelerator.Graph.Load.{
  edge_line, push_at, two_ids, load_edges, read_info, load_info, is_known, given, with_edges,
  load_graph,
}
use hy_gcn_a_gcn_accelerator.Graph.Loaded.{IsGraph, load_graph-IsGraph}
use hy_gcn_a_gcn_accelerator.Graph.Edges.{edges}
use hy_gcn_a_gcn_accelerator.Graph.Lines.{pairs, IsLine, load_edges-edge_line, load_edges-some_iff}
use hy_gcn_a_gcn_accelerator.Graph.Dump.{dump_edge, load_sample_graph, load_sample_graph-dump_edge}
use hy_gcn_a_gcn_accelerator.Graph.Sample.{
  Rng, DrawsBelow, AreSamplesOf, get_sample_graph, get_sample_graph-AreSamplesOf,
}

abbrev info_lines : List Text
info_lines = codes "vertex,3" ∷ codes "edge,2" ∷ codes "feature,5" ∷ codes "class,7" ∷ []

abbrev two_edges : List Text
two_edges = codes "0,1" ∷ codes "2,1" ∷ []

abbrev two_edges_graph : Graph
two_edges_graph = record {
  adj = (1 ∷ []) ∷ [] ∷ (1 ∷ []) ∷ [];
  r_adj = [] ∷ (0 ∷ 2 ∷ []) ∷ [] ∷ [];
  num_vertex = 3;
  num_edge = 2;
  num_class = 7;
  len_feature = 5;
}

load_two_edges : load_graph (codes "test") (some info_lines) (some two_edges) ≡ some two_edges_graph
unfolding load_graph is_known load_info read_info with_edges given load_edges two_ids push_at
    same_text atoi digits_from cut_at
load_two_edges = refl

load_graph-IsGraph_example :
    (lines : List Text) × (counts : List Text) × (some two_edges ≡ some lines)
    × (some info_lines ≡ some counts)
    × (is_known (codes "test") ≡ true)
    × IsGraph 3 (length lines) two_edges_graph.adj two_edges_graph.r_adj
load_graph-IsGraph_example =
    load_graph-IsGraph (codes "test") (some info_lines) (some two_edges) load_two_edges

load_edges-edge_line_example :
    (adj' : List (List ℕ)) × (r_adj' : List (List ℕ)) × (load_edges 3
        (map edge_line ((0, 1) ∷ (2, 1) ∷ []))
        (replicate 3 [], replicate 3 [])
      ≡ some (adj', r_adj'))
    × ((u v : ℕ) → edges adj' u v ≡ edges (replicate 3 []) u v + pairs ((0, 1) ∷ (2, 1) ∷ []) u v)
    × ((u v : ℕ) → edges r_adj' v u ≡ edges (replicate 3 []) v u + pairs ((0, 1) ∷ (2, 1) ∷ []) u v)
load_edges-edge_line_example =
    load_edges-edge_line 3 ((0, 1) ∷ (2, 1) ∷ []) (replicate 3 []) (replicate 3 []) refl refl
      ((omega arith, omega arith), ((omega arith, omega arith), tt))

load_edges-some_iff_example :
    ((s : List (List ℕ) × List (List ℕ)) × (load_edges 3
          (codes "0,7" ∷ [])
          (replicate 3 [], replicate 3 [])
        ≡ some s))
    ↔ All (IsLine 3) (codes "0,7" ∷ [])
load_edges-some_iff_example =
    load_edges-some_iff 3 (codes "0,7" ∷ []) (replicate 3 []) (replicate 3 []) refl refl

load_sample_graph-dump_edge_example :
    (lines : List Text) × (h : Graph) × (dump_edge two_edges_graph ≡ some lines)
    × (load_sample_graph 2 two_edges_graph (some lines) ≡ some h)
    × (length h.r_adj ≡ 3)
    × ((u v : ℕ) → edges h.r_adj v u ≡ edges two_edges_graph.r_adj u v)
load_sample_graph-dump_edge_example =
    load_sample_graph-dump_edge 2 two_edges_graph two_edges_graph refl refl
      (tt, ((omega arith, (omega arith, tt)), (tt, tt)))

-- A generator that always draws 0.
abbrev always_first : Rng
always_first = record { State = Unit {0}; draw = λ st n. (st, 0) }

always_first-DrawsBelow : DrawsBelow always_first
always_first-DrawsBelow st n h = h

get_sample_graph-AreSamplesOf_example :
    (h : Graph) × (lines : List Text) × (st' : Unit {0}) × (get_sample_graph always_first 4
        two_edges_graph tt
      ≡ some (h, lines, st'))
    × (dump_edge h ≡ some lines)
    × AreSamplesOf 4 two_edges_graph.r_adj h.r_adj
get_sample_graph-AreSamplesOf_example =
    get_sample_graph-AreSamplesOf always_first always_first-DrawsBelow 4 two_edges_graph tt refl
