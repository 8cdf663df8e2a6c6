-- ===== src/Graph/Hash/Loops.antt =====
-- graph.h, `SelfLoopLess`: the edges from a vertex to itself go, all others stay.
use hy_gcn_a_gcn_accelerator.Base.{
  ℕ, zero, suc, ◌+◌, ◌≤◌, ◌≡◌, ◌≢◌, ◌↔◌, refl, inl, inr, some, List, [], ◌∷◌, arith, ◌==◌, length,
  All, Bool-cases, subst,
}
use hy_gcn_a_gcn_accelerator.SortedSet.{Ascending, Member}
use hy_gcn_a_gcn_accelerator.Graph.Hash.{HashGraph, erase, erase_loops, self_loop_less}
use hy_gcn_a_gcn_accelerator.Graph.Hash.Rows.{HasEdge}

Member-le : (n a : ℕ) (s : List ℕ) → Ascending n s → Member a s → n ≤ a
Member-le n a [] h m = elim m [ ]
Member-le n a (x ∷ s) h (inl e) = omega (arith, e, h.0)
Member-le n a (x ∷ s) h (inr m) = omega (arith, h.0, Member-le (suc x) a s h.1 m)

Member-erase :
    (n x a : ℕ) (s : List ℕ) → Ascending n s → Member a (erase x s) ↔ (Member a s × (x ≢ a))
unfolding erase
Member-erase n x a [] h = (λ m. elim m [ ], λ (m, _). elim m [ ])
Member-erase n x a (y ∷ s) h = elim (Bool-cases (x == y)) [
  | inl t ↦
      let same : x ≡ y = ground (arith, t) in
      rw (t, erase)
        (
          λ m. (inr m, λ e. omega (arith, e, same, Member-le (suc y) a s h.1 m)),
          λ (m, ne). elim m [ inl e ↦ absurd (omega (arith, ne, e, same)) | inr m' ↦ m' ],
        )
  | inr t ↦
      let other : x ≢ y = ground (arith, t) in
      let ih = Member-erase (suc y) x a s h.1 in
      rw (t, erase)
        (
          λ m. elim m [
            | inl e ↦ (inl e, λ e'. omega (arith, other, e, e'))
            | inr m' ↦ let (k, ne) = ih.0 m' in (inr k, ne)
          ],
          λ (m, ne). elim m [ inl e ↦ inl e | inr m' ↦ inr (ih.1 (m', ne)) ],
        )
]

erase_loops_lem :
    (n i : ℕ) (adj : List (List ℕ))
    → length adj ≡ n
    → All (Ascending 0) adj
    → (adj' : List (List ℕ)) × (erase_loops n i adj ≡ some adj')
      × ((u v w : ℕ) → i + u ≡ w → HasEdge adj' u v ↔ (HasEdge adj u v × (w ≢ v)))
unfolding erase_loops
erase_loops_lem zero i [] e a = ([], refl, λ u v w q. (λ h. elim h [ ], λ (h, _). elim h [ ]))
erase_loops_lem zero i (row ∷ adj) e a = absurd (omega (arith, e))
erase_loops_lem (suc n) i [] e a = absurd (omega (arith, e))
erase_loops_lem (suc n) i (row ∷ adj) e a =
    let (adj', run, at) = erase_loops_lem n (i + 1) adj (omega (arith, e)) a.1 in
    (erase i row ∷ adj', rw run refl, has_edge adj' at)
  where
    has_edge :
        (adj' : List (List ℕ))
        → ((u v w : ℕ) → i + 1 + u ≡ w → HasEdge adj' u v ↔ (HasEdge adj u v × (w ≢ v)))
        → (u v w : ℕ) → i + u ≡ w
        → HasEdge (erase i row ∷ adj') u v ↔ (HasEdge (row ∷ adj) u v × (w ≢ v))
    has_edge adj' at zero v w q =
        subst (λ x. Member v (erase i row) ↔ (Member v row × (x ≢ v))) (omega arith)
          (Member-erase 0 i v row a.0)
    has_edge adj' at (suc u) v w q = at u v w (omega arith)

-- For a graph with a set for each vertex: the operation succeeds, and the edges that are left are those
-- between two different vertices.
self_loop_less-HasEdge :
    (h : HashGraph)
    → length h.adj ≡ h.num_vertex
    → All (Ascending 0) h.adj
    → (h' : HashGraph) × (self_loop_less h ≡ some h')
      × ((u v : ℕ) → HasEdge h'.adj u v ↔ (HasEdge h.adj u v × (u ≢ v)))
unfolding self_loop_less
self_loop_less-HasEdge h long sets =
    let (adj, run, at) = erase_loops_lem h.num_vertex 0 h.adj long sets in
    (record h { adj = adj }, rw run refl, λ u v. at u v u (omega arith))
