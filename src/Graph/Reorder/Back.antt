-- ===== src/Graph/Reorder/Back.antt =====
-- graph.cpp, `Reorder`: the renaming by an inverse map undoes a renaming.
use hy_gcn_a_gcn_accelerator.Base.{
  ℕ, zero, suc, ◌<◌, ◌≡◌, refl, ap, ap₂, subst, sym, ◌∙◌, some, List, [], ◌∷◌, arith, length,
  get_elem?, map, All, some-eq, get_elem?-lt,
}
use hy_gcn_a_gcn_accelerator.Graph.{Graph}
use hy_gcn_a_gcn_accelerator.Graph.Reorder.{reordered, reorder, IsInverse, reordered_lem}

flip : {n : ℕ} {f back : ℕ → ℕ} → IsInverse n f back → IsInverse n back f
flip inverse v h = let i = inverse v h in (i.1, i.0, i.3, i.2)

map-back :
    (n : ℕ) (f back : ℕ → ℕ)
    → IsInverse n f back
    → (row : List ℕ) → All (λ e. e < n) row
    → map back (map f row) ≡ row
map-back n f back inverse [] a = refl
map-back n f back inverse (e ∷ row) a =
    ap₂ ◌∷◌ (inverse e a.0).2 (map-back n f back inverse row a.1)

get_elem?-ext :
    (xs ys : List (List ℕ))
    → length xs ≡ length ys
    → ((i : ℕ) (x : List ℕ) → get_elem? xs i ≡ some x → get_elem? ys i ≡ some x)
    → ys ≡ xs
get_elem?-ext [] [] e f = refl
get_elem?-ext [] (y ∷ ys) e f = absurd (omega (arith, e))
get_elem?-ext (x ∷ xs) [] e f = absurd (omega (arith, e))
get_elem?-ext (x ∷ xs) (y ∷ ys) e f =
    ap₂ ◌∷◌ (some-eq (f zero x refl)) (get_elem?-ext xs ys (omega (arith, e)) (λ i. f (suc i)))

get_elem?-All :
    (P : List ℕ → Type 0) (xs : List (List ℕ)) (i : ℕ) {x : List ℕ}
    → All P xs
    → get_elem? xs i ≡ some x
    → P x
get_elem?-All P [] i a e = cc
get_elem?-All P (x ∷ xs) zero a e = subst P (some-eq e) a.0
get_elem?-All P (x ∷ xs) (suc i) a e = get_elem?-All P xs i a.1 e

reordered-back :
    (n : ℕ) (f back : ℕ → ℕ)
    → IsInverse n f back
    → (adj : List (List ℕ)) → length adj ≡ n
    → All (All (λ e. e < n)) adj
    → (a : List (List ℕ)) × (reordered f n adj ≡ some a) × (reordered back n a ≡ some adj)
reordered-back n f back inverse adj long below =
    let (a, run, size, at) = reordered_lem n f back inverse adj long in
    let (b, run', size', at') = reordered_lem n back f (flip inverse) a size in
    let same : b ≡ adj = get_elem?-ext adj b (long ∙ sym size') (λ u row e.
      let u_lt : u < n = omega (arith, long, get_elem?-lt adj u e) in
      subst (λ v. get_elem? b v ≡ some (map back (map f row))) (inverse u u_lt).2
        (at' (f u) (map f row) (at u row e))
      ∙ ap some (map-back n f back inverse row (get_elem?-All _ adj u below e))) in
    (a, run, run' ∙ ap some same)

-- For a graph with a row for each vertex, whose rows list vertices, and a renaming of its vertices that
-- has an inverse: both reorderings succeed, and the second gives the graph back.
pub reorder-back :
    (g : Graph) (f back : ℕ → ℕ)
    → IsInverse g.num_vertex f back
    → length g.adj ≡ g.num_vertex
    → length g.r_adj ≡ g.num_vertex
    → All (All (λ e. e < g.num_vertex)) g.adj
    → All (All (λ e. e < g.num_vertex)) g.r_adj
    → (h : Graph) × (reorder f g ≡ some h) × (reorder back h ≡ some g)
unfolding reorder
reorder-back g f back inverse long r_long below r_below =
    let (a, run, back_run) = reordered-back g.num_vertex f back inverse g.adj long below in
    let (r_a, r_run, r_back_run) =
      reordered-back g.num_vertex f back inverse g.r_adj r_long r_below in
    (record g { adj = a; r_adj = r_a }, rw (run, r_run) refl, rw (back_run, r_back_run) refl)
