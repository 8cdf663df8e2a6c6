-- ===== src/Partition/Rows.antt =====
-- aggr.cpp, `Partition`: what one round does to the rows.
use hy_gcn_a_gcn_accelerator.Base.{
  ℕ, zero, suc, ◌+◌, ◌≤◌, ◌<◌, ◌≡◌, inl, inr, refl, ap₂, false, List, [], ◌∷◌, ◌++◌, arith, leb,
  min, take, drop, length, length-drop, take-append-drop, All, All-mono, Bool-cases,
}
use hy_gcn_a_gcn_accelerator.Partition.{
  start_edge, stop_point, part_of, rest_of, all_empty, entries,
}

-- Two cuts of the same rows, put together again.
unfoldable pub glue : List (List ℕ) → List (List ℕ) → List (List ℕ)
glue [] ys = ys
glue (x ∷ xs) [] = x ∷ xs
glue (x ∷ xs) (y ∷ ys) = (x ++ y) ∷ glue xs ys

-- Ascending, from `n` on, with repetitions.
abbrev pub Sorted : ℕ → List ℕ → Type 0
Sorted n [] = Unit {0}
Sorted n (x ∷ xs) = (n ≤ x) × Sorted x xs

pub glue-part-rest :
    (i e : ℕ) (rows : List (List ℕ)) → glue (part_of i e rows) (rest_of i e rows) ≡ rows
unfolding glue
glue-part-rest i e [] = refl
glue-part-rest i e (row ∷ rows) =
    ap₂ ◌∷◌ (take-append-drop (stop_point i e row) row) (glue-part-rest i e rows)

pub entries-rest_le : (i e : ℕ) (rows : List (List ℕ)) → entries (rest_of i e rows) ≤ entries rows
unfolding entries
entries-rest_le i e [] = omega arith
entries-rest_le i e (row ∷ rows) =
    omega (arith, length-drop (stop_point i e row) row, entries-rest_le i e rows)

-- A row whose first entry lies below the end loses it.
drop-head :
    (i e x : ℕ) (row : List ℕ)
    → 0 < i
    → x < e
    → length (drop (stop_point i e (x ∷ row)) (x ∷ row)) < length (x ∷ row)
unfolding stop_point
drop-head zero e x row h p = elim h [ ]
drop-head (suc i) e x row h p =
    ground (arith, length-drop (stop_point (suc i) e (x ∷ row)) (x ∷ row))

-- A round whose end lies above its start takes an entry, where the start is one of the entries.
pub entries-rest_start :
    (n i e : ℕ) (rows : List (List ℕ))
    → 0 < i
    → start_edge n rows < e
    → e ≤ n
    → entries (rest_of i e rows) < entries rows
unfolding entries start_edge
entries-rest_start n i e [] h p q = absurd (omega arith)
entries-rest_start n i e ([] ∷ rows) h p q =
    omega (arith, entries-rest_start n i e rows h p q, length-drop {A = ℕ} (stop_point i e []) [])
entries-rest_start n i e ((x ∷ row) ∷ rows) h p q = elim (Bool-cases (leb e x)) [
  | inl above ↦ omega (
    arith,
    length-drop (stop_point i e (x ∷ row)) (x ∷ row),
    entries-rest_start (min n x) i e rows h p (ground arith),
  )
  | inr below ↦ omega (arith, drop-head i e x row h (ground arith), entries-rest_le i e rows)
]

-- So does one whose end lies above all entries, where there are any.
pub entries-rest_of_empty :
    (i e : ℕ) (rows : List (List ℕ))
    → 0 < i
    → All (All (λ x. x < e)) rows
    → all_empty rows ≡ false
    → entries (rest_of i e rows) < entries rows
unfolding entries all_empty
entries-rest_of_empty i e [] h p q = cc
entries-rest_of_empty i e ([] ∷ rows) h p q =
    omega
      (arith, entries-rest_of_empty i e rows h p.1 q, length-drop {A = ℕ} (stop_point i e []) [])
entries-rest_of_empty i e ((x ∷ row) ∷ rows) h p q =
    omega (arith, drop-head i e x row h p.0.0, entries-rest_le i e rows)

All-drop : (P : ℕ → Type 0) (k : ℕ) (row : List ℕ) → All P row → All P (drop k row)
All-drop P zero row h = h
All-drop P (suc k) [] h = tt
All-drop P (suc k) (x ∷ row) h = All-drop P k row h.1

pub All-rest :
    (P : ℕ → Type 0) (i e : ℕ) (rows : List (List ℕ))
    → All (All P) rows
    → All (All P) (rest_of i e rows)
All-rest P i e [] h = tt
All-rest P i e (row ∷ rows) h = (All-drop P (stop_point i e row) row h.0, All-rest P i e rows h.1)

Sorted-mono : (m n : ℕ) (row : List ℕ) → m ≤ n → Sorted n row → Sorted m row
Sorted-mono m n [] h s = tt
Sorted-mono m n (x ∷ row) h s = (omega arith, s.1)

Sorted-drop : (n k : ℕ) (row : List ℕ) → Sorted n row → Sorted n (drop k row)
Sorted-drop n zero row s = s
Sorted-drop n (suc k) [] s = tt
Sorted-drop n (suc k) (x ∷ row) s = Sorted-mono n x (drop k row) s.0 (Sorted-drop x k row s.1)

pub Sorted-rest :
    (n i e : ℕ) (rows : List (List ℕ)) → All (Sorted n) rows → All (Sorted n) (rest_of i e rows)
Sorted-rest n i e [] h = tt
Sorted-rest n i e (row ∷ rows) h =
    (Sorted-drop n (stop_point i e row) row h.0, Sorted-rest n i e rows h.1)

-- The start lies below every entry of sorted rows.
start_edge-le : (n : ℕ) (rows : List (List ℕ)) → start_edge n rows ≤ n
unfolding start_edge
start_edge-le n [] = omega arith
start_edge-le n ([] ∷ rows) = start_edge-le n rows
start_edge-le n ((x ∷ row) ∷ rows) = omega (arith, start_edge-le (min n x) rows)

pub start_edge-Sorted :
    (n s : ℕ) (rows : List (List ℕ))
    → s ≤ start_edge n rows
    → All (Sorted 0) rows
    → All (Sorted s) rows
unfolding start_edge
start_edge-Sorted n s [] h a = tt
start_edge-Sorted n s ([] ∷ rows) h a = (tt, start_edge-Sorted n s rows h a.1)
start_edge-Sorted n s ((x ∷ row) ∷ rows) h a =
    ((omega (arith, start_edge-le (min n x) rows), a.0.1), start_edge-Sorted (min n x) s rows h a.1)

-- A part of the window `[s, s + i)`: its entries lie in it, and no row has more than `i` of them.
abbrev pub InWindow : ℕ → ℕ → List (List ℕ) → Type 0
InWindow s i = All (λ row. (length row ≤ i) × All (λ x. (s ≤ x) × (x < s + i)) row)

take-window :
    (s i e : ℕ) (row : List ℕ)
    → Sorted s row
    → (length (take (stop_point i e row) row) ≤ i)
      × All (λ x. (s ≤ x) × (x < e)) (take (stop_point i e row) row)
unfolding stop_point
take-window s i e [] o = (omega arith, tt)
take-window s zero e (x ∷ row) o = (omega arith, tt)
take-window s (suc i) e (x ∷ row) o =
    let (p, q) = take-window x i e row o.1 in
    elim (Bool-cases (leb e x)) [
      | inl above ↦ rw above (omega arith, tt)
      | inr below ↦
          rw below (omega arith, ((o.0, ground arith), All-mono _ _ _ (λ y h. omega arith) q))
    ]

pub part_of-InWindow :
    (s i : ℕ) (rows : List (List ℕ)) → All (Sorted s) rows → InWindow s i (part_of i (s + i) rows)
part_of-InWindow s i [] a = tt
part_of-InWindow s i (row ∷ rows) a =
    (take-window s i (s + i) row a.0, part_of-InWindow s i rows a.1)
