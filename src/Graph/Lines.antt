-- ===== src/Graph/Lines.antt =====
-- graph.cpp: which edge files are read, and that printed edges are read back.
use mathlib.Core.List.{append-nil}
use hy_gcn_a_gcn_accelerator.Base.{
  ℕ, ◌+◌, ◌<◌, ◌≡◌, ◌↔◌, pos, refl, ap, sym, subst, ◌∙◌, inl, inr, some, List, [], ◌∷◌, arith, map,
  ◌==◌, ◌&&◌, if◌then◌else◌, length, sum_by, All, Option-cases, lt→ltb,
}
use hy_gcn_a_gcn_accelerator.Text.{Text, to_string, atoi}
use hy_gcn_a_gcn_accelerator.Text.Decimal.{atoi-to_string, fields-line}
use hy_gcn_a_gcn_accelerator.Graph.Load.{edge_line, two_ids, load_edges, push_at}
use hy_gcn_a_gcn_accelerator.Graph.Loaded.{load_edges-cons}
use hy_gcn_a_gcn_accelerator.Graph.Edges.{edges, PushOf, push_at-PushOf}

pub two_ids-edge_line : (a b : ℕ) → two_ids (edge_line (a, b)) ≡ (pos a, pos b)
unfolding two_ids edge_line
two_ids-edge_line a b =
    let read = λ (n : ℕ). ap atoi (sym (append-nil (to_string n))) ∙ atoi-to_string n [] tt in
    rw (fields-line a b, read a, read b)

-- A `push_back` into a row that is there.
pub push_at-some :
    (rows : List (List ℕ)) (i x : ℕ)
    → i < length rows
    → (rows' : List (List ℕ)) × (push_at rows i x ≡ some rows') × PushOf rows i x (some rows')
push_at-some rows i x h =
    let w = push_at-PushOf rows i x in
    elim (Option-cases (push_at rows i x)) [
      | inl e ↦ absurd (omega (arith, subst (PushOf rows i x) e w))
      | inr (rows', e) ↦ (rows', e, subst (PushOf rows i x) e w)
    ]

-- How often a pair stands in a list.
abbrev pub pairs : List (ℕ × ℕ) → ℕ → ℕ → ℕ
pairs es u v = sum_by (λ e. if u == e.0 && e.1 == v then 1 else 0) es

-- A file of lines that print pairs of vertices is read, and the edges that it adds are these pairs:
-- `src,dst` is an edge from `src` to `dst`.
pub load_edges-edge_line :
    (n : ℕ) (es : List (ℕ × ℕ)) (adj r_adj : List (List ℕ))
    → length adj ≡ n
    → length r_adj ≡ n
    → All (λ e. (e.0 < n) × (e.1 < n)) es
    → (adj' : List (List ℕ)) × (r_adj' : List (List ℕ)) × (load_edges n
          (map edge_line es)
          (adj, r_adj)
        ≡ some (adj', r_adj'))
      × ((u v : ℕ) → edges adj' u v ≡ edges adj u v + pairs es u v)
      × ((u v : ℕ) → edges r_adj' v u ≡ edges r_adj v u + pairs es u v)
unfolding load_edges
load_edges-edge_line n [] adj r_adj p q a =
    (adj, r_adj, refl, λ u v. omega arith, λ u v. omega arith)
load_edges-edge_line n ((src, dst) ∷ es) adj r_adj p q a =
    let (r', r_run, (_, r_long, _, r_at)) = push_at-some r_adj dst src (omega (arith, a.0.1, q)) in
    let (a', a_run, (_, a_long, _, a_at)) = push_at-some adj src dst (omega (arith, a.0.0, p)) in
    let (adj', r_adj', run, out, into) =
      load_edges-edge_line n es a' r' (a_long ∙ p) (r_long ∙ q) a.1 in
    (
      adj',
      r_adj',
      rw
          (
            two_ids-edge_line src dst,
            lt→ltb dst n a.0.1,
            lt→ltb src n a.0.0,
            r_run,
            a_run,
            run,
            load_edges,
          )
          refl,
      λ u v. omega (arith, out u v, a_at u v),
      λ u v. ground (arith, into u v, r_at v u),
    )

-- A line that names two vertices.
abbrev pub IsLine : ℕ → Text → Type 0
IsLine n line = (src : ℕ) × (dst : ℕ) × (two_ids line ≡ (pos src, pos dst)) × (src < n) × (dst < n)

load_edges-IsLine :
    (n : ℕ) (lines : List Text) (adj r_adj : List (List ℕ)) {s : List (List ℕ) × List (List ℕ)}
    → load_edges n lines (adj, r_adj) ≡ some s
    → All (IsLine n) lines
load_edges-IsLine n [] adj r_adj e = tt
load_edges-IsLine n (line ∷ lines) adj r_adj e =
    let (src, dst, adj', r_adj', h, l, k, _, _, e') = load_edges-cons n line lines adj r_adj e in
    ((src, dst, l, h, k), load_edges-IsLine n lines adj' r_adj' e')

IsLine-load_edges :
    (n : ℕ) (lines : List Text) (adj r_adj : List (List ℕ))
    → length adj ≡ n
    → length r_adj ≡ n
    → All (IsLine n) lines
    → (s : List (List ℕ) × List (List ℕ)) × (load_edges n lines (adj, r_adj) ≡ some s)
unfolding load_edges
IsLine-load_edges n [] adj r_adj p q a = ((adj, r_adj), refl)
IsLine-load_edges n (line ∷ lines) adj r_adj p q ((src, dst, l, h, k), a) =
    let (r', r_run, (_, r_long, _, _)) = push_at-some r_adj dst src (omega (arith, k, q)) in
    let (a', a_run, (_, a_long, _, _)) = push_at-some adj src dst (omega (arith, h, p)) in
    let (s, run) = IsLine-load_edges n lines a' r' (a_long ∙ p) (r_long ∙ q) a in
    (s, rw (l, lt→ltb dst n k, lt→ltb src n h, r_run, a_run, run, load_edges) refl)

-- The loop over the lines of an edge file meets neither a failed assertion nor an access outside of the
-- vectors, which have a row for each vertex, exactly if both numbers of every line are at least 0 and below the number of vertices.
pub load_edges-some_iff :
    (n : ℕ) (lines : List Text) (adj r_adj : List (List ℕ))
    → length adj ≡ n
    → length r_adj ≡ n
    → ((s : List (List ℕ) × List (List ℕ)) × (load_edges n lines (adj, r_adj) ≡ some s))
      ↔ All (IsLine n) lines
load_edges-some_iff n lines adj r_adj p q =
    (λ r. load_edges-IsLine n lines adj r_adj r.1, IsLine-load_edges n lines adj r_adj p q)
