-- ===== src/Graph/Hash/Directed.antt =====
-- graph.cpp, the constructor of `HashGraph`: when it succeeds, and what it finds.
use hy_gcn_a_gcn_accelerator.Base.{
  ℕ, zero, suc, ◌+◌, ◌<◌, ◌≡◌, ◌↔◌, refl, subst, sym, ◌∙◌, inl, inr, Bool, true, false, not, some,
  List, [], ◌∷◌, arith, length, All, get_elem?_of_lt, length-map, Bool-cases, ◌&&◌, ◌==◌,
}
use hy_gcn_a_gcn_accelerator.SortedSet.{
  Member, insert, insert_all, Member-insert, Member-insert_all,
}
use hy_gcn_a_gcn_accelerator.Graph.{Graph, first_rows-all}
use hy_gcn_a_gcn_accelerator.Graph.Hash.{
  HashGraph, has, has_all, sets_of, same_rows, one_way_row, one_way, new_hash_graph,
}
use hy_gcn_a_gcn_accelerator.Graph.Hash.Rows.{
  HasEdge, has-Member, HasEdge-get_elem?, HasEdge-sets_of,
}

-- No entry twice.
abbrev pub Distinct : List ℕ → Type 0
Distinct [] = Unit {0}
Distinct (x ∷ xs) = ¬ Member x xs × Distinct xs

length-insert : (x : ℕ) (s : List ℕ) → ¬ Member x s → length (insert x s) ≡ length s + 1
unfolding insert
length-insert x [] n = omega arith
length-insert x (y ∷ s) n = ground (arith, length-insert x s (λ m. n (inr m)))

length-insert_all :
    (xs s : List ℕ)
    → Distinct xs
    → All (λ x. ¬ Member x s) xs
    → length (insert_all xs s) ≡ length xs + length s
unfolding insert_all
length-insert_all [] s d a = omega arith
length-insert_all (x ∷ xs) s d a =
    omega (arith, length-insert x s a.0, length-insert_all xs (insert x s) d.1 (fresh xs d.0 a.1))
  where
    fresh :
        (ys : List ℕ)
        → ¬ Member x ys
        → All (λ y. ¬ Member y s) ys
        → All (λ y. ¬ Member y (insert x s)) ys
    fresh [] n b = tt
    fresh (y ∷ ys) n b = (
      λ m. elim ((Member-insert y x s).0 m) [ inl p ↦ n (inl (sym p)) | inr old ↦ b.0 old ],
      fresh ys (λ m. n (inr m)) b.1,
    )

has_all-true : (xs s : List ℕ) → ((x : ℕ) → Member x xs → Member x s) → has_all xs s ≡ true
unfolding has_all
has_all-true [] s f = refl
has_all-true (x ∷ xs) s f =
    rw ((has-Member x s).1 (f x (inl refl)), has_all-true xs s (λ y m. f y (inr m))) refl

none_in : (xs : List ℕ) → All (λ x. ¬ Member x []) xs
none_in [] = tt
none_in (x ∷ xs) = ((λ m. m), none_in xs)

same_rows-Distinct :
    (rows : List (List ℕ)) → All Distinct rows → same_rows rows (sets_of rows) ≡ true
unfolding same_rows
same_rows-Distinct [] a = refl
same_rows-Distinct (row ∷ rows) a =
    let long : (length (insert_all row []) == length row) ≡ true =
      ground (arith, length-insert_all row [] a.0 (none_in row)) in
    let all =
      has_all-true row (insert_all row []) (λ x m. (Member-insert_all x row []).1 (inl m)) in
    rw (long, all, same_rows-Distinct rows a.1) refl

one_way_row_lem :
    (sets : List (List ℕ)) (src : ℕ) (row : List ℕ)
    → All (λ d. d < length sets) row
    → (b : Bool) × (one_way_row sets src row ≡ some b)
      × ((b ≡ false) ↔ ((d : ℕ) → Member d row → HasEdge sets d src))
unfolding one_way_row
one_way_row_lem sets src [] a = (false, refl, (λ _ d m. elim m [ ], λ _. refl))
one_way_row_lem sets src (dst ∷ row) a =
    let (back, at) = get_elem?_of_lt sets dst a.0 in
    let edge = HasEdge-get_elem? sets dst src at in
    let (b, run, same) = one_way_row_lem sets src row a.1 in
    elim (Bool-cases (has src back)) [
      | inl e ↦ (
        b,
        rw (at, e) run,
        (
          λ p d m. elim m [
            | inl q ↦ subst (λ w. HasEdge sets w src) (sym q) (edge.1 ((has-Member src back).0 e))
            | inr m' ↦ same.0 p d m'
          ],
          λ f. same.1 (λ d m. f d (inr m)),
        ),
      )
      | inr e ↦ (
        true,
        rw (at, e) refl,
        (λ p. cc, λ f. let h = (has-Member src back).1 (edge.0 (f dst (inl refl))) in cc),
      )
    ]

one_way_lem :
    (sets : List (List ℕ)) (i : ℕ) (rows : List (List ℕ))
    → All (All (λ d. d < length sets)) rows
    → (b : Bool) × (one_way sets i rows ≡ some b)
      × ((b ≡ false) ↔ ((u v w : ℕ) → i + u ≡ w → HasEdge rows u v → HasEdge sets v w))
unfolding one_way
one_way_lem sets i [] a = (false, refl, (λ _ u v w p h. elim h [ ], λ _. refl))
one_way_lem sets i (row ∷ rows) a =
    let (found, run, here) = one_way_row_lem sets i row a.0 in
    let (b, run', there) = one_way_lem sets (i + 1) rows a.1 in
    elim (Bool-cases found) [
      | inl e ↦ (
        true,
        rw (run, e) refl,
        (λ p. cc, λ f. let h = here.1 (λ d m. f zero d i (omega arith) m) in cc),
      )
      | inr e ↦ (b, rw (run, e) run', (forth here there e, back there))
    ]
  where
    forth :
        {found b : Bool}
        → ((found ≡ false) ↔ ((d : ℕ) → Member d row → HasEdge sets d i))
        → ((b ≡ false) ↔ ((u v w : ℕ) → i + 1 + u ≡ w → HasEdge rows u v → HasEdge sets v w))
        → found ≡ false
        → b ≡ false
        → (u v w : ℕ) → i + u ≡ w
        → HasEdge (row ∷ rows) u v
        → HasEdge sets v w
    forth here there e p zero v w q h = subst (HasEdge sets v) (omega arith) (here.0 e v h)
    forth here there e p (suc u) v w q h = there.0 p u v w (omega arith) h

    back :
        {b : Bool}
        → ((b ≡ false) ↔ ((u v w : ℕ) → i + 1 + u ≡ w → HasEdge rows u v → HasEdge sets v w))
        → ((u v w : ℕ) → i + u ≡ w → HasEdge (row ∷ rows) u v → HasEdge sets v w)
        → b ≡ false
    back there f = there.1 (λ u v w q h. f (suc u) v w (omega arith) h)

-- A graph with at least one vertex, one row for each, whose rows list vertices and none of them twice,
-- has a hash graph: its sets hold the edges of the graph, and it is marked as undirected exactly if
-- the graph has the reverse of every edge.
pub new_hash_graph-HasEdge :
    (g : Graph)
    → 0 < g.num_vertex
    → length g.adj ≡ g.num_vertex
    → All (All (λ d. d < g.num_vertex)) g.adj
    → All Distinct g.adj
    → (h : HashGraph) × (new_hash_graph g ≡ some h)
      × ((u v : ℕ) → HasEdge h.adj u v ↔ HasEdge g.adj u v)
      × ((h.is_directed ≡ false) ↔ ((u v : ℕ) → HasEdge g.adj u v → HasEdge g.adj v u))
unfolding new_hash_graph
new_hash_graph-HasEdge g pos long below distinct =
    let sets = sets_of g.adj in
    let same = λ (u v : ℕ). HasEdge-sets_of g.adj u v in
    let many : length sets ≡ g.num_vertex = length-map _ g.adj ∙ long in
    let (b, run, iff) =
      one_way_lem sets 0 g.adj (subst (λ n. All (All (λ d. d < n)) g.adj) (sym many) below) in
    let guard : (not (length g.adj == 0) && not (g.num_vertex == 0)) ≡ true =
      ground (arith, long) in
    (
      record {
        adj = sets;
        num_vertex = g.num_vertex;
        num_edge = g.num_edge;
        num_class = g.num_class;
        len_feature = g.len_feature;
        is_directed = b;
      },
      rw (guard, first_rows-all g.num_vertex g.adj long, same_rows-Distinct g.adj distinct, run)
          refl,
      same,
      (
        λ p u v h. (same v u).0 (iff.0 p u v u (omega arith) h),
        λ f. iff.1 (λ u v w q h. subst (HasEdge sets v) (omega arith) ((same v u).1 (f u v h))),
      ),
    )
