-- ===== src/Partition/Sources.antt =====
-- aggr.cpp, `SparsityElimination`: the sources of a part, once each.
use hy_gcn_a_gcn_accelerator.Base.{
  ℕ, ◌+◌, ◌≤◌, ◌<◌, ◌≡◌, ◌⊎◌, ◌↔◌, inl, inr, refl, List, [], ◌∷◌, arith, length, All, All-mono,
  some,
}
use hy_gcn_a_gcn_accelerator.SortedSet.{
  Ascending, Member, insert_all, insert_all-Ascending, Member-insert_all, length-Ascending,
}
use hy_gcn_a_gcn_accelerator.Partition.{insert_rows, sparsity_elimination, partition}
use hy_gcn_a_gcn_accelerator.Partition.Rows.{Sorted, InWindow}
use hy_gcn_a_gcn_accelerator.Partition.Correct.{partition-Cut}

-- A source of some row.
abbrev pub Source : ℕ → List (List ℕ) → Type 0
Source a [] = ⊥
Source a (row ∷ rows) = Member a row ⊎ Source a rows

insert_rows-Ascending :
    (rows : List (List ℕ)) (s : List ℕ) → Ascending 0 s → Ascending 0 (insert_rows rows s)
unfolding insert_rows
insert_rows-Ascending [] s a = a
insert_rows-Ascending (row ∷ rows) s a =
    insert_rows-Ascending rows (insert_all row s) (insert_all-Ascending row s a)

Member-insert_rows :
    (a : ℕ) (rows : List (List ℕ)) (s : List ℕ)
    → Member a (insert_rows rows s) ↔ (Source a rows ⊎ Member a s)
unfolding insert_rows
Member-insert_rows a [] s = ground arith
Member-insert_rows a (row ∷ rows) s =
    ground (arith, Member-insert_all a row s, Member-insert_rows a rows (insert_all row s))

-- `SparsityElimination` gives the sources of the edges, all of them and nothing else, in ascending
-- order and once each.
pub sparsity_elimination-sources :
    (rows : List (List ℕ))
    → Ascending 0 (sparsity_elimination rows)
      × ((a : ℕ) → Member a (sparsity_elimination rows) ↔ Source a rows)
unfolding sparsity_elimination
sparsity_elimination-sources rows =
    (insert_rows-Ascending rows [] tt, λ a. ground (arith, Member-insert_rows a rows []))

All-of-Member : (P : ℕ → Type 0) (xs : List ℕ) → ((a : ℕ) → Member a xs → P a) → All P xs
All-of-Member P [] f = tt
All-of-Member P (x ∷ xs) f = (f x (inl refl), All-of-Member P xs (λ a m. f a (inr m)))

Member-All : (P : ℕ → Type 0) (a : ℕ) (xs : List ℕ) → All P xs → Member a xs → P a
Member-All P a [] h m = elim m [ ]
Member-All P a (x ∷ xs) h (inl e) = rw e h.0
Member-All P a (x ∷ xs) h (inr m) = Member-All P a xs h.1 m

Source-InWindow :
    (s i a : ℕ) (part : List (List ℕ)) → InWindow s i part → Source a part → (s ≤ a) × (a < s + i)
Source-InWindow s i a [] h m = elim m [ ]
Source-InWindow s i a (row ∷ rows) h (inl m) = Member-All (λ x. (s ≤ x) × (x < s + i)) a row h.0.1 m
Source-InWindow s i a (row ∷ rows) h (inr m) = Source-InWindow s i a rows h.1 m

Ascending-from : (m s : ℕ) (xs : List ℕ) → Ascending m xs → All (λ x. s ≤ x) xs → Ascending s xs
Ascending-from m s [] a h = tt
Ascending-from m s (x ∷ xs) a h = (h.0, a.1)

part-sources :
    (s i : ℕ) (part : List (List ℕ)) → InWindow s i part → length (sparsity_elimination part) ≤ i
part-sources s i part w =
    let (sorted, members) = sparsity_elimination-sources part in
    let set = sparsity_elimination part in
    let inside : All (λ x. (s ≤ x) × (x < s + i)) set =
      All-of-Member _ set (λ a m. Source-InWindow s i a part w ((members a).0 m)) in
    length-Ascending s i set (Ascending-from 0 s set sorted (All-mono _ _ set (λ x p. p.0) inside))
      (All-mono _ _ set (λ x p. p.1) inside)

-- Each part of the partition of sorted rows has at most `interval` sources, so that the features
-- which the input buffer is filled with for it are at most `interval` vectors.
pub partition-sources :
    (n i : ℕ) (rows : List (List ℕ)) {parts : List (List (List ℕ))}
    → 0 < i
    → All (All (λ x. x < n)) rows
    → All (Sorted 0) rows
    → partition n i rows ≡ some parts
    → All (λ part. length (sparsity_elimination part) ≤ i) parts
partition-sources n i rows {parts} h a o e =
    let (parts', e', cut) = partition-Cut n i rows h a o in
    let same : parts' ≡ parts = ground (arith, e, e') in
    rw (← same) (All-mono _ _ parts' (λ part w. part-sources w.0 i part w.1) cut.windows)
