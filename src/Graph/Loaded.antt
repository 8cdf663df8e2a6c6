-- ===== src/Graph/Loaded.antt =====
-- graph.cpp, `LoadGraph`: what the two vectors of edges hold.
use hy_gcn_a_gcn_accelerator.Base.{
  ℕ, ◌+◌, ◌<◌, ◌≡◌, sym, subst, ◌∙◌, Option, some, List, [], ◌∷◌, arith, true, check, length,
  sum_by, All, >>=-eq-some, some-eq, replicate, ap, ℤ, pos, negsuc,
}
use hy_gcn_a_gcn_accelerator.Text.{Text}
use hy_gcn_a_gcn_accelerator.Graph.{Graph}
use hy_gcn_a_gcn_accelerator.Graph.Load.{
  two_ids, index_of, is_below, load_edges, load_graph, with_edges, given, load_info, no_info,
  is_known, Info, push_at,
}
use hy_gcn_a_gcn_accelerator.Graph.Edges.{
  edges, PushOf, push_at-PushOf, push_at-All, edges-replicate, length-replicate, total-replicate,
  All-replicate,
}

-- The two vectors of a graph of `n` vertices and `k` edges: each is the transpose of the other, and
-- every source is a vertex.
pub record IsGraph (n k : ℕ) (adj r_adj : List (List ℕ)) : Type 0 where
  pub num_rows : length adj ≡ n
  pub num_r_rows : length r_adj ≡ n
  pub num_out : sum_by length adj ≡ k
  pub num_in : sum_by length r_adj ≡ k
  pub transposed : (u v : ℕ) → edges adj u v ≡ edges r_adj v u
  pub sources : All (All (λ u. u < n)) r_adj

-- One edge more.
push-IsGraph :
    (n k src dst : ℕ) (adj r_adj : List (List ℕ)) {adj' r_adj' : List (List ℕ)}
    → src < n
    → push_at r_adj dst src ≡ some r_adj'
    → push_at adj src dst ≡ some adj'
    → IsGraph n k adj r_adj
    → IsGraph n (k + 1) adj' r_adj'
push-IsGraph n k src dst adj r_adj h p q g =
    let (_, r_long, r_total, r_at) =
      subst (PushOf r_adj dst src) p (push_at-PushOf r_adj dst src) in
    let (_, long, total, at) = subst (PushOf adj src dst) q (push_at-PushOf adj src dst) in
    record {
      num_rows = long ∙ g.num_rows;
      num_r_rows = r_long ∙ g.num_r_rows;
      num_out = omega (arith, total, g.num_out);
      num_in = omega (arith, r_total, g.num_in);
      transposed = λ u v. ground (arith, at u v, r_at v u, g.transposed u v);
      sources = push_at-All _ r_adj dst src p h g.sources;
    }

-- A number that passes the assertion and is an index.
index_of-below :
    (z : ℤ) (n : ℕ) {i : ℕ} {u : Unit {0}}
    → index_of z ≡ some i
    → check (is_below z n) ≡ some u
    → (z ≡ pos i) × (i < n)
index_of-below (pos k) n e h = (ap pos (some-eq e), ground (arith, h, e))
index_of-below (negsuc k) n e h = cc

-- A round of the loop that succeeds.
pub load_edges-cons :
    (n : ℕ) (line : Text) (lines : List Text) (adj r_adj : List (List ℕ))
    {s : List (List ℕ) × List (List ℕ)}
    → load_edges n (line ∷ lines) (adj, r_adj) ≡ some s
    → (src : ℕ) × (dst : ℕ) × (adj' : List (List ℕ)) × (r_adj' : List (List ℕ)) × (src < n)
      × (two_ids line ≡ (pos src, pos dst))
      × (dst < n)
      × (push_at r_adj dst src ≡ some r_adj')
      × (push_at adj src dst ≡ some adj')
      × (load_edges n lines (adj', r_adj') ≡ some s)
unfolding load_edges
load_edges-cons n line lines adj r_adj e =
    let (from, to) = two_ids line in
    let (_, dst_ok, e₁) = >>=-eq-some (check (is_below to n)) _ e in
    let (_, src_ok, e₂) = >>=-eq-some (check (is_below from n)) _ e₁ in
    let (dst, to_at, e₃) = >>=-eq-some (index_of to) _ e₂ in
    let (src, from_at, e₄) = >>=-eq-some (index_of from) _ e₃ in
    let (r_adj', p, e₅) = >>=-eq-some (push_at r_adj dst src) _ e₄ in
    let (adj', q, e₆) = >>=-eq-some (push_at adj src dst) _ e₅ in
    let (from_is, src_in) = index_of-below from n from_at src_ok in
    let (to_is, dst_in) = index_of-below to n to_at dst_ok in
    (src, dst, adj', r_adj', src_in, λ i. (from_is i, to_is i), dst_in, p, q, e₆)

load_edges-IsGraph_from :
    (n k : ℕ) (lines : List Text) (adj r_adj : List (List ℕ)) {s : List (List ℕ) × List (List ℕ)}
    → load_edges n lines (adj, r_adj) ≡ some s
    → IsGraph n k adj r_adj
    → IsGraph n (k + length lines) s.0 s.1
unfolding load_edges
load_edges-IsGraph_from n k [] adj r_adj {s} e g =
    let same : k ≡ k + 0 = omega arith in
    subst (λ t. IsGraph n (k + 0) t.0 t.1) (some-eq e) (subst (λ m. IsGraph n m adj r_adj) same g)
load_edges-IsGraph_from n k (line ∷ lines) adj r_adj {s} e g =
    let (src, dst, adj', r_adj', h, _, _, p, q, e') = load_edges-cons n line lines adj r_adj e in
    let w =
      load_edges-IsGraph_from n (k + 1) lines adj' r_adj' e'
        (push-IsGraph n k src dst adj r_adj h p q g) in
    subst (λ m. IsGraph n m s.0 s.1) (omega arith) w

empty-IsGraph : (n : ℕ) → IsGraph n 0 (replicate n []) (replicate n [])
empty-IsGraph n = record {
  num_rows = length-replicate n;
  num_r_rows = length-replicate n;
  num_out = total-replicate n;
  num_in = total-replicate n;
  transposed = λ u v. edges-replicate n u v ∙ sym (edges-replicate n v u);
  sources = All-replicate (All (λ u. u < n)) n tt;
}

load_edges-IsGraph :
    (n : ℕ) (lines : List Text) {s : List (List ℕ) × List (List ℕ)}
    → load_edges n lines (replicate n [], replicate n []) ≡ some s
    → IsGraph n (length lines) s.0 s.1
load_edges-IsGraph n lines {s} e =
    let start = replicate {A = List ℕ} n [] in
    let w = load_edges-IsGraph_from n 0 lines start start e (empty-IsGraph n) in
    subst (λ m. IsGraph n m s.0 s.1) (omega arith) w

with_edges-IsGraph :
    (info : Info) (lines : List Text) {g : Graph}
    → with_edges info lines ≡ some g
    → IsGraph g.num_vertex (length lines) g.adj g.r_adj
unfolding with_edges
with_edges-IsGraph info lines {g} e =
    let (num_edge, _, e₁) = >>=-eq-some (given info.num_edge) _ e in
    let (n, _, e₂) = >>=-eq-some (given info.num_vertex) _ e₁ in
    let (num_class, _, e₃) = >>=-eq-some (given info.num_class) _ e₂ in
    let (len_feature, _, e₄) = >>=-eq-some (given info.len_feature) _ e₃ in
    let start = replicate {A = List ℕ} n [] in
    let (s, run, e₅) = >>=-eq-some (load_edges n lines (start, start)) _ e₄ in
    subst (λ g. IsGraph g.num_vertex (length lines) g.adj g.r_adj) (some-eq e₅)
      (load_edges-IsGraph n lines run)

-- A graph that is loaded comes from a known name and two files that could be opened. It has one edge
-- for each line of the edge file; `adj` and `r_adj` have a row for each vertex and are transposes of
-- each other, edge by edge with repetitions; and every source is a vertex.
pub load_graph-IsGraph :
    (name : Text) (info_file edge_file : Option (List Text)) {g : Graph}
    → load_graph name info_file edge_file ≡ some g
    → (lines : List Text) × (info_lines : List Text) × (edge_file ≡ some lines)
      × (info_file ≡ some info_lines)
      × (is_known name ≡ true)
      × IsGraph g.num_vertex (length lines) g.adj g.r_adj
unfolding load_graph
load_graph-IsGraph name info_file edge_file {g} e =
    let (_, known, e₁) = >>=-eq-some (check (is_known name)) _ e in
    let (info_lines, there, e₂) = >>=-eq-some info_file _ e₁ in
    let (lines, opened, e₃) = >>=-eq-some edge_file _ e₂ in
    let (info, _, e₄) = >>=-eq-some (load_info info_lines no_info) _ e₃ in
    (lines, info_lines, opened, there, ground (arith, known), with_edges-IsGraph info lines e₄)
