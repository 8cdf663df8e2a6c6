-- ===== src/Graph/Edges.antt =====
-- The edges of a graph as counts, and what a `push_back` into a row adds to them.
use hy_gcn_a_gcn_accelerator.Base.{
  ℕ, zero, suc, ◌+◌, ◌≤◌, ◌<◌, ◌≡◌, refl, ap, subst, inl, inr, Option, none, some, List, [], ◌∷◌,
  ◌++◌, arith, ◌==◌, ◌&&◌, if◌then◌else◌, length, length-append, sum_by, sum_by-append, count, All,
  All-append, Option-cases, replicate, >>=-eq-some, some-eq,
}
use hy_gcn_a_gcn_accelerator.Graph.Load.{push_at}

-- How often `v` stands in row `u`; a row that is not there has no entry.
abbrev pub edges : List (List ℕ) → ℕ → ℕ → ℕ
edges [] u v = 0
edges (row ∷ rows) zero v = count v row
edges (row ∷ rows) (suc u) v = edges rows u v

-- What `push_at` makes of the rows.
abbrev pub PushOf : List (List ℕ) → ℕ → ℕ → Option (List (List ℕ)) → Type 0
PushOf rows i x none = length rows ≤ i
PushOf rows i x (some rows') =
    (i < length rows)
    × (length rows' ≡ length rows)
    × (sum_by length rows' ≡ sum_by length rows + 1)
    × ((u v : ℕ) → edges rows' u v ≡ edges rows u v + (if u == i && x == v then 1 else 0))

-- A row in front moves the rows by one.
edges-cons :
    (row : List ℕ) (rows rows' : List (List ℕ)) (i x : ℕ)
    → ((u v : ℕ) → edges rows' u v ≡ edges rows u v + (if u == i && x == v then 1 else 0))
    → (u v : ℕ)
    → edges (row ∷ rows') u v ≡ edges (row ∷ rows) u v + (if u == suc i && x == v then 1 else 0)
edges-cons row rows rows' i x at zero v = ground arith
edges-cons row rows rows' i x at (suc u) v = ground (arith, at u v)

pub push_at-PushOf : (rows : List (List ℕ)) (i x : ℕ) → PushOf rows i x (push_at rows i x)
unfolding push_at
push_at-PushOf [] i x = omega arith
push_at-PushOf (row ∷ rows) zero x =
    (omega arith, refl, omega (arith, length-append row (x ∷ [])), in_row)
  where
    in_row :
        (u v : ℕ)
        → edges ((row ++ (x ∷ [])) ∷ rows) u v
          ≡ edges (row ∷ rows) u v + (if u == zero && x == v then 1 else 0)
    in_row zero v = ground (arith, sum_by-append (λ y. if y == v then 1 else 0) row (x ∷ []))
    in_row (suc u) v = ground arith
push_at-PushOf (row ∷ rows) (suc i) x =
    let w = push_at-PushOf rows i x in
    elim (Option-cases (push_at rows i x)) [
      | inl e ↦ rw (e, push_at) (omega (arith, subst (PushOf rows i x) e w))
      | inr (rows', e) ↦
          let (lt, long, total, at) = subst (PushOf rows i x) e w in
          rw (e, push_at)
            (
              omega arith,
              omega (arith, long),
              omega (arith, total),
              edges-cons row rows rows' i x at,
            )
    ]

-- A property of all entries and of the new one.
pub push_at-All :
    (P : ℕ → Type 0) (rows : List (List ℕ)) (i x : ℕ) {rows' : List (List ℕ)}
    → push_at rows i x ≡ some rows'
    → P x
    → All (All P) rows
    → All (All P) rows'
unfolding push_at
push_at-All P [] i x e p a = cc
push_at-All P (row ∷ rows) zero x e p a =
    subst (All (All P)) (some-eq e) (All-append P row (x ∷ []) a.0 (p, tt), a.1)
push_at-All P (row ∷ rows) (suc i) x {rows'} e p a =
    let (tail, run, e') = >>=-eq-some (push_at rows i x) (λ r. some (row ∷ r)) e in
    subst (All (All P)) (some-eq e') (a.0, push_at-All P rows i x run p a.1)

pub edges-out : (rows : List (List ℕ)) (u v : ℕ) → length rows ≤ u → edges rows u v ≡ 0
edges-out [] u v h = refl
edges-out (row ∷ rows) zero v h = elim h [ ]
edges-out (row ∷ rows) (suc u) v h = edges-out rows u v (omega arith)

pub edges-replicate : (n u v : ℕ) → edges (replicate n []) u v ≡ 0
edges-replicate zero u v = refl
edges-replicate (suc n) zero v = refl
edges-replicate (suc n) (suc u) v = edges-replicate n u v

pub length-replicate : (n : ℕ) → length (replicate {A = List ℕ} n []) ≡ n
length-replicate zero = refl
length-replicate (suc n) = ap suc (length-replicate n)

pub total-replicate : (n : ℕ) → sum_by length (replicate {A = List ℕ} n []) ≡ 0
total-replicate zero = refl
total-replicate (suc n) = omega (arith, total-replicate n)

pub All-replicate : (P : List ℕ → Type 0) (n : ℕ) → P [] → All P (replicate n [])
All-replicate P zero p = tt
All-replicate P (suc n) p = (p, All-replicate P n p)
