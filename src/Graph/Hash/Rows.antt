-- ===== src/Graph/Hash/Rows.antt =====
-- The edges of rows as a relation, and what an insertion adds to them.
use hy_gcn_a_gcn_accelerator.Base.{
  ℕ, zero, suc, ◌<◌, ◌≡◌, ◌⊎◌, ◌↔◌, refl, ap, ◌∙◌, inl, inr, true, some, List, [], ◌∷◌, arith,
  length, get_elem?, All, All-mono, subst, sym, some-eq,
}
use hy_gcn_a_gcn_accelerator.SortedSet.{insert, Member, Member-insert, Member-insert_all}
use hy_gcn_a_gcn_accelerator.Graph.Hash.{has, insert_at, insert_back, sets_of}

-- `v` is an entry of row `u`.
abbrev pub HasEdge : List (List ℕ) → ℕ → ℕ → Type 0
HasEdge [] u v = ⊥
HasEdge (row ∷ rows) zero v = Member v row
HasEdge (row ∷ rows) (suc u) v = HasEdge rows u v

pub has-Member : (x : ℕ) (s : List ℕ) → (has x s ≡ true) ↔ Member x s
unfolding has
has-Member x [] = ground arith
has-Member x (y ∷ s) = ground (arith, has-Member x s)

pub HasEdge-get_elem? :
    (rows : List (List ℕ)) (u v : ℕ) {row : List ℕ}
    → get_elem? rows u ≡ some row
    → HasEdge rows u v ↔ Member v row
HasEdge-get_elem? [] u v e = cc
HasEdge-get_elem? (row ∷ rows) zero v e =
    (λ m. subst (Member v) (some-eq e) m, λ m. subst (Member v) (sym (some-eq e)) m)
HasEdge-get_elem? (row ∷ rows) (suc u) v e = HasEdge-get_elem? rows u v e

pub HasEdge-lt : (rows : List (List ℕ)) (u v : ℕ) → HasEdge rows u v → u < length rows
HasEdge-lt [] u v h = elim h [ ]
HasEdge-lt (row ∷ rows) zero v h = omega arith
HasEdge-lt (row ∷ rows) (suc u) v h = omega (arith, HasEdge-lt rows u v h)

pub HasEdge-sets_of :
    (rows : List (List ℕ)) (u v : ℕ) → HasEdge (sets_of rows) u v ↔ HasEdge rows u v
HasEdge-sets_of [] u v = ground arith
HasEdge-sets_of (row ∷ rows) zero v = ground (arith, Member-insert_all v row [])
HasEdge-sets_of (row ∷ rows) (suc u) v = HasEdge-sets_of rows u v

pub insert_at_lem :
    (rows : List (List ℕ)) (i x : ℕ)
    → i < length rows
    → (rows' : List (List ℕ)) × (insert_at rows i x ≡ some rows')
      × (length rows' ≡ length rows)
      × ((u v : ℕ) → HasEdge rows' u v ↔ (((u ≡ i) × (v ≡ x)) ⊎ HasEdge rows u v))
unfolding insert_at
insert_at_lem [] i x h = elim h [ ]
insert_at_lem (row ∷ rows) zero x h = (insert x row ∷ rows, refl, refl, has_edge)
  where
    has_edge :
        (u v : ℕ)
        → HasEdge (insert x row ∷ rows) u v ↔ (((u ≡ zero) × (v ≡ x)) ⊎ HasEdge (row ∷ rows) u v)
    has_edge zero v = ground (arith, Member-insert v x row)
    has_edge (suc u) v = ground arith
insert_at_lem (row ∷ rows) (suc i) x h =
    let (rows', run, long, at) = insert_at_lem rows i x (omega arith) in
    (row ∷ rows', rw run refl, ap suc long, has_edge rows' at)
  where
    has_edge :
        (rows' : List (List ℕ))
        → ((u v : ℕ) → HasEdge rows' u v ↔ (((u ≡ i) × (v ≡ x)) ⊎ HasEdge rows u v))
        → (u v : ℕ)
        → HasEdge (row ∷ rows') u v ↔ (((u ≡ suc i) × (v ≡ x)) ⊎ HasEdge (row ∷ rows) u v)
    has_edge rows' at zero v = ground arith
    has_edge rows' at (suc u) v = ground (arith, at u v)

pub insert_back_lem :
    (src : ℕ) (row : List ℕ) (adj : List (List ℕ))
    → All (λ d. d < length adj) row
    → (adj' : List (List ℕ)) × (insert_back src row adj ≡ some adj')
      × (length adj' ≡ length adj)
      × ((u v : ℕ) → HasEdge adj' u v ↔ ((Member u row × (v ≡ src)) ⊎ HasEdge adj u v))
unfolding insert_back
insert_back_lem src [] adj a = (adj, refl, refl, λ u v. ground arith)
insert_back_lem src (dst ∷ row) adj a =
    let (adj', run, long, at) = insert_at_lem adj dst src a.0 in
    let (adj'', run', long', at') =
      insert_back_lem src row adj' (All-mono _ _ row (λ d h. omega (arith, long)) a.1) in
    (adj'', rw (run, run') refl, long' ∙ long, λ u v. ground (arith, at u v, at' u v))

pub All-Member : (P : ℕ → Type 0) (xs : List ℕ) → ((x : ℕ) → Member x xs → P x) → All P xs
All-Member P [] f = tt
All-Member P (x ∷ xs) f = (f x (inl refl), All-Member P xs (λ y m. f y (inr m)))
