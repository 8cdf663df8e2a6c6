-- ===== src/Graph/Hash/Undirected.antt =====
-- graph.cpp, `ToUndirected`: every edge gets its reverse, and nothing else is added.
use hy_gcn_a_gcn_accelerator.Base.{
  ℕ, zero, suc, ◌+◌, ◌<◌, ◌≡◌, ◌⊎◌, ◌↔◌, refl, subst, sym, ◌∙◌, inl, inr, false, some, List, arith,
  length, get_elem?_of_lt, sum_by,
}
use hy_gcn_a_gcn_accelerator.SortedSet.{Member}
use hy_gcn_a_gcn_accelerator.Graph.{first_rows-all}
use hy_gcn_a_gcn_accelerator.Graph.Hash.{HashGraph, undirect, to_undirected}
use hy_gcn_a_gcn_accelerator.Graph.Hash.Rows.{
  HasEdge, HasEdge-get_elem?, HasEdge-lt, insert_back_lem, All-Member,
}

-- The targets are vertices.
abbrev pub InRange : ℕ → List (List ℕ) → Type 0
InRange n adj = (u v : ℕ) → HasEdge adj u v → v < n

-- The rows after the vertices below `i` were served, from the rows `orig` at first.
abbrev Served : List (List ℕ) → ℕ → List (List ℕ) → Type 0
Served orig i adj = (u v : ℕ) → HasEdge adj u v ↔ (HasEdge orig u v ⊎ (HasEdge orig v u × (v < i)))

lt-cases : (a b : ℕ) → a < b + 1 → (a < b) ⊎ (a ≡ b)
lt-cases a b h = grind arith

round-Served :
    (orig adj adj' : List (List ℕ)) (i : ℕ) (row : List ℕ)
    → Served orig i adj
    → ((v : ℕ) → HasEdge adj i v ↔ Member v row)
    → ((u v : ℕ) → HasEdge adj' u v ↔ ((Member u row × (v ≡ i)) ⊎ HasEdge adj u v))
    → Served orig (i + 1) adj'
round-Served orig adj adj' i row served here at u v = (there, back)
  where
    there : HasEdge adj' u v → HasEdge orig u v ⊎ (HasEdge orig v u × (v < i + 1))
    there e = elim ((at u v).0 e) [
      | inl (m, p) ↦ elim ((served i u).0 ((here u).1 m)) [
        | inl o ↦ inr (subst (λ w. HasEdge orig w u) (sym p) o, omega arith)
        | inr (o, _) ↦ inl (subst (HasEdge orig u) (sym p) o)
      ]
      | inr old ↦ elim ((served u v).0 old) [ inl o ↦ inl o | inr (o, lt) ↦ inr (o, omega arith) ]
    ]

    back : HasEdge orig u v ⊎ (HasEdge orig v u × (v < i + 1)) → HasEdge adj' u v
    back (inl o) = (at u v).1 (inr ((served u v).1 (inl o)))
    back (inr (o, lt)) = elim (lt-cases v i lt) [
      | inl below ↦ (at u v).1 (inr ((served u v).1 (inr (o, below))))
      | inr p ↦
          (at u v).1
            (inl ((here u).0 ((served i u).1 (inl (subst (λ w. HasEdge orig w u) p o))), p))
    ]

undirect_lem :
    (n i : ℕ) (orig adj : List (List ℕ))
    → length adj ≡ i + n
    → InRange (i + n) adj
    → Served orig i adj
    → (adj' : List (List ℕ)) × (undirect n i adj ≡ some adj')
      × (length adj' ≡ length adj)
      × Served orig (i + n) adj'
unfolding undirect
undirect_lem zero i orig adj long range served =
    (adj, refl, refl, subst (λ k. Served orig k adj) (omega arith) served)
undirect_lem (suc n) i orig adj long range served =
    let (row, here) = get_elem?_of_lt adj i (omega (arith, long)) in
    let edge = λ (v : ℕ). HasEdge-get_elem? adj i v here in
    let below =
      All-Member (λ d. d < length adj) row (λ d m. omega (arith, long, range i d ((edge d).1 m))) in
    let (adj', run, long', at) = insert_back_lem i row adj below in
    let next : length adj' ≡ i + 1 + n = omega (arith, long, long') in
    let range' : InRange (i + 1 + n) adj' = λ u v e. elim ((at u v).0 e) [
      | inl (_, p) ↦ omega arith
      | inr old ↦ omega (arith, range u v old)
    ] in
    let (adj'', run', long'', served') =
      undirect_lem n (i + 1) orig adj' next range'
        (round-Served orig adj adj' i row served edge at) in
    (
      adj'',
      rw (here, run, run') refl,
      long'' ∙ long',
      subst (λ k. Served orig k adj'') (omega arith) served',
    )

-- Where the graph has a set for each vertex and all targets are vertices, the result has exactly the
-- edges of the graph and their reverses, its count is that of all the elements, and it is marked as
-- undirected.
pub to_undirected-HasEdge :
    (h : HashGraph)
    → length h.adj ≡ h.num_vertex
    → InRange h.num_vertex h.adj
    → (h' : HashGraph) × (to_undirected h ≡ some h')
      × ((u v : ℕ) → HasEdge h'.adj u v ↔ (HasEdge h.adj u v ⊎ HasEdge h.adj v u))
      × (h'.num_edge ≡ sum_by length h'.adj)
      × (h'.is_directed ≡ false)
unfolding to_undirected
to_undirected-HasEdge h long range =
    let (adj, run, same, served) =
      undirect_lem h.num_vertex 0 h.adj h.adj (omega (arith, long))
        (λ u v e. omega (arith, range u v e)) (λ u v. ground arith) in
    (
      record h { adj = adj; num_edge = sum_by length adj; is_directed = false },
      rw (run, first_rows-all h.num_vertex adj (same ∙ long)) refl,
      λ u v. (
        λ e. elim ((served u v).0 e) [ inl o ↦ inl o | inr (o, _) ↦ inr o ],
        λ o. (served u v).1 (elim o [
          | inl e ↦ inl e
          | inr e ↦ inr (e, omega (arith, long, HasEdge-lt h.adj v u e))
        ]),
      ),
      refl,
      refl,
    )
