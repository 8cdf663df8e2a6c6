-- ===== src/Graph/Reorder.antt =====
-- graph.cpp, `Reorder`: the vertices of a graph renamed. The map is the function `reorder_map`: a key
-- that the source's map lacks is inserted with 0 when it is read.
pub mod Back
use hy_gcn_a_gcn_accelerator.Base.{
  ℕ, zero, suc, ◌+◌, ◌≤◌, ◌<◌, ◌≡◌, ◌≢◌, refl, ap, ap₂, subst, sym, ◌∙◌, Option, none, some, List,
  [], ◌∷◌, ◌++◌, arith, ◌>>=◌, length, get_elem?, map, replicate, All, some-eq, get_elem?_of_lt,
  get_elem?-lt,
}
use hy_gcn_a_gcn_accelerator.Graph.{Graph, first_rows, first_rows-all}
use hy_gcn_a_gcn_accelerator.Graph.Edges.{length-replicate}

-- `a[i].reserve(...)` and a `push_back` of every entry of `xs`.
unfoldable pub append_at : List (List ℕ) → ℕ → List ℕ → Option (List (List ℕ))
append_at [] i xs = none
append_at (row ∷ a) zero xs = some ((row ++ xs) ∷ a)
append_at (row ∷ a) (suc i) xs = append_at a i xs >>= λ a'. some (row ∷ a')

-- The loop over the vertices from `v` on.
unfoldable pub reorder_rows : (ℕ → ℕ) → ℕ → List (List ℕ) → List (List ℕ) → Option (List (List ℕ))
reorder_rows reorder_map v [] a = some a
reorder_rows reorder_map v (row ∷ rows) a =
    append_at a (reorder_map v) (map reorder_map row) >>= reorder_rows reorder_map (v + 1) rows

-- The renamed rows of a vector of `n`.
unfoldable pub reordered : (ℕ → ℕ) → ℕ → List (List ℕ) → Option (List (List ℕ))
reordered reorder_map n adj = do
  rows ← first_rows n adj
  reorder_rows reorder_map 0 rows (replicate n [])

unfoldable pub reorder : (ℕ → ℕ) → Graph → Option Graph
reorder reorder_map g = do
  a ← reordered reorder_map g.num_vertex g.adj
  r_a ← reordered reorder_map g.num_vertex g.r_adj
  some (record g { adj = a; r_adj = r_a })

append_at_lem :
    (a : List (List ℕ)) (i : ℕ) (row xs : List ℕ)
    → get_elem? a i ≡ some row
    → (a' : List (List ℕ)) × (append_at a i xs ≡ some a')
      × (length a' ≡ length a)
      × (get_elem? a' i ≡ some (row ++ xs))
      × ((j : ℕ) → i ≢ j → get_elem? a' j ≡ get_elem? a j)
unfolding append_at
append_at_lem [] i row xs e = cc
append_at_lem (first ∷ a) zero row xs e =
    ((first ++ xs) ∷ a, refl, refl, ap (λ r. some (r ++ xs)) (some-eq e), other)
  where
    other : (j : ℕ) → zero ≢ j → get_elem? ((first ++ xs) ∷ a) j ≡ get_elem? (first ∷ a) j
    other zero n = absurd (n refl)
    other (suc j) n = refl
append_at_lem (first ∷ a) (suc i) row xs e =
    let (a', run, long, at, rest) = append_at_lem a i row xs e in
    (first ∷ a', rw run refl, ap suc long, at, other a' rest)
  where
    other :
        (a' : List (List ℕ))
        → ((j : ℕ) → i ≢ j → get_elem? a' j ≡ get_elem? a j)
        → (j : ℕ) → suc i ≢ j
        → get_elem? (first ∷ a') j ≡ get_elem? (first ∷ a) j
    other a' rest zero n = refl
    other a' rest (suc j) n = rest j (λ p. n (ap suc p))

-- `back` undoes `f` on the vertices below `n`.
abbrev pub IsInverse : ℕ → (ℕ → ℕ) → (ℕ → ℕ) → Type 0
IsInverse n f back =
    (v : ℕ) → v < n → (f v < n) × (back v < n) × (back (f v) ≡ v) × (f (back v) ≡ v)

module _ (n : ℕ) (f back : ℕ → ℕ) (inverse : IsInverse n f back) where
  distinct : (u v : ℕ) → u < n → v < n → u ≢ v → f u ≢ f v
  distinct u v h k ne p = ne (sym (inverse u h).2 ∙ ap back p ∙ (inverse v k).2)

  reorder_rows_lem :
      (i : ℕ) (rows a : List (List ℕ))
      → i + length rows ≤ n
      → ((k : ℕ) → k < length rows → get_elem? a (f (i + k)) ≡ some [])
      → (a' : List (List ℕ)) × (reorder_rows f i rows a ≡ some a')
        × (length a' ≡ length a)
        × ((k : ℕ) (row : List ℕ)
            → get_elem? rows k ≡ some row
            → get_elem? a' (f (i + k)) ≡ some (map f row))
        × ((u : ℕ) → u < i → get_elem? a' (f u) ≡ get_elem? a (f u))
  unfolding reorder_rows
  reorder_rows_lem i [] a h fresh = (a, refl, refl, (λ k row e. cc), λ u lt. refl)
  reorder_rows_lem i (row ∷ rows) a h fresh =
      let first : get_elem? a (f i) ≡ some [] =
        subst (λ v. get_elem? a (f v) ≡ some []) (omega arith) (fresh 0 (omega arith)) in
      let (b, ran, same, at, other) = append_at_lem a (f i) [] (map f row) first in
      let fresh' : (k : ℕ) → k < length rows → get_elem? b (f (i + 1 + k)) ≡ some [] = λ k lt.
        other (f (i + 1 + k))
          (distinct i (i + 1 + k) (omega arith) (omega arith) (λ p. omega arith))
        ∙ subst (λ v. get_elem? a (f v) ≡ some []) (omega arith) (fresh (suc k) (omega arith)) in
      let (a', run, long, here, kept) = reorder_rows_lem (i + 1) rows b (omega arith) fresh' in
      (
        a',
        rw (ran, run) refl,
        long ∙ same,
        shifted a' here (kept i (omega arith) ∙ at),
        λ u lt.
            kept u (omega arith)
            ∙ other (f u) (distinct i u (omega arith) (omega arith) (λ p. omega arith)),
      )
    where
      shifted :
          (a' : List (List ℕ))
          → ((k : ℕ) (r : List ℕ)
              → get_elem? rows k ≡ some r
              → get_elem? a' (f (i + 1 + k)) ≡ some (map f r))
          → get_elem? a' (f i) ≡ some (map f row)
          → (k : ℕ) (r : List ℕ) → get_elem? (row ∷ rows) k ≡ some r
          → get_elem? a' (f (i + k)) ≡ some (map f r)
      shifted a' here first zero r e =
          subst (λ v. get_elem? a' (f v) ≡ some (map f r)) (omega arith)
            (first ∙ ap (λ r'. some (map f r')) (some-eq e))
      shifted a' here first (suc k) r e =
          subst (λ v. get_elem? a' (f v) ≡ some (map f r)) (omega arith) (here k r e)

  get_elem?-replicate : (m i : ℕ) → i < m → get_elem? (replicate {A = List ℕ} m []) i ≡ some []
  get_elem?-replicate zero i h = elim h [ ]
  get_elem?-replicate (suc m) zero h = refl
  get_elem?-replicate (suc m) (suc i) h = get_elem?-replicate m i (omega arith)

  -- The row of a vertex is, renamed, the row of its new name.
  pub reordered_lem :
      (adj : List (List ℕ))
      → length adj ≡ n
      → (a : List (List ℕ)) × (reordered f n adj ≡ some a)
        × (length a ≡ n)
        × ((u : ℕ) (row : List ℕ)
            → get_elem? adj u ≡ some row
            → get_elem? a (f u) ≡ some (map f row))
  unfolding reordered
  reordered_lem adj long =
      let (a, run, same, at, _) =
        reorder_rows_lem 0 adj (replicate n []) (omega (arith, long))
          (λ k h. get_elem?-replicate n (f (0 + k)) (inverse (0 + k) (omega (arith, long))).0) in
      (
        a,
        rw (first_rows-all n adj long) run,
        same ∙ length-replicate n,
        λ u row e. subst (λ v. get_elem? a (f v) ≡ some (map f row)) (omega arith) (at u row e),
      )
