-- ===== src/Partition/Correct.antt =====
-- aggr.cpp, `Partition`: the loop over the rounds, and the parts that it gives.
use native.Mathlib.Decide.{dec_le}
use hy_gcn_a_gcn_accelerator.Base.{
  ℕ, zero, suc, ◌+◌, ◌<◌, ◌≡◌, refl, ap, ap₂, take, drop, All-mono, ◌∙◌, true, false, some, List,
  [], ◌∷◌, arith, All, Bool-cases, inl, inr,
}
use hy_gcn_a_gcn_accelerator.Partition.{
  start_edge, stop_point, part_of, rest_of, is_empty, all_empty, entries, partition_loop, partition,
}
use hy_gcn_a_gcn_accelerator.Partition.Rows.{
  glue, glue-part-rest, entries-rest_start, entries-rest_of_empty, All-rest, Sorted, Sorted-rest,
  start_edge-Sorted, InWindow, part_of-InWindow,
}

-- All parts, put together again row by row.
unfoldable pub glue_all : List (List (List ℕ)) → List (List ℕ)
glue_all [] = []
glue_all (part ∷ parts) = glue part (glue_all parts)

take-all : (k : ℕ) (row : List ℕ) → is_empty (drop k row) ≡ true → take k row ≡ row
take-all zero [] h = refl
take-all zero (x ∷ row) h = cc
take-all (suc k) [] h = refl
take-all (suc k) (x ∷ row) h = ap (◌∷◌ x) (take-all k row h)

-- Where nothing is left the part is all of the rows.
part_of-all :
    (i e : ℕ) (rows : List (List ℕ)) → all_empty (rest_of i e rows) ≡ true → part_of i e rows ≡ rows
unfolding all_empty
part_of-all i e [] h = refl
part_of-all i e (row ∷ rows) h =
    ap₂ ◌∷◌ (take-all (stop_point i e row) row (ground arith)) (part_of-all i e rows (ground arith))

glue-nil : (rows : List (List ℕ)) → glue rows [] ≡ rows
unfolding glue
glue-nil [] = refl
glue-nil (row ∷ rows) = refl

drop-empty : (k : ℕ) (row : List ℕ) → is_empty row ≡ true → is_empty (drop k row) ≡ true
drop-empty zero row h = h
drop-empty (suc k) [] h = refl
drop-empty (suc k) (x ∷ row) h = cc

rest_of-empty :
    (i e : ℕ) (rows : List (List ℕ)) → all_empty rows ≡ true → all_empty (rest_of i e rows) ≡ true
unfolding all_empty
rest_of-empty i e [] h = refl
rest_of-empty i e (row ∷ rows) h =
    ground (arith, drop-empty (stop_point i e row) row, rest_of-empty i e rows)

-- Every round but the last takes an entry.
round-shrinks :
    (n i : ℕ) (rows : List (List ℕ))
    → 0 < i
    → All (All (λ x. x < n)) rows
    → all_empty (rest_of i (start_edge n rows + i) rows) ≡ false
    → entries (rest_of i (start_edge n rows + i) rows) < entries rows
round-shrinks n i rows h a more =
    let e = start_edge n rows + i in
    elim (dec_le e n) [
      | yes p ↦ entries-rest_start n i e rows h (omega arith) p
      | no p ↦
          entries-rest_of_empty i e rows h
            (All-mono _ _ rows (λ row q. All-mono _ _ row (λ x k. omega arith) q) a)
            (ground (arith, rest_of-empty i e rows))
    ]

pub record Cut (i : ℕ) (rows : List (List ℕ)) (parts : List (List (List ℕ))) : Type 0 where
  pub lossless : glue_all parts ≡ rows
  pub windows : All (λ part. (s : ℕ) × InWindow s i part) parts

window_at :
    (n i : ℕ) (rows : List (List ℕ))
    → All (Sorted 0) rows
    → (s : ℕ) × InWindow s i (part_of i (start_edge n rows + i) rows)
window_at n i rows o =
    let s = start_edge n rows in
    (s, part_of-InWindow s i rows (start_edge-Sorted n s rows (omega arith) o))

-- The loop with enough fuel, on sorted rows whose entries are vertices.
partition_loop-Cut :
    (fuel n i : ℕ) (rows : List (List ℕ))
    → entries rows < fuel
    → 0 < i
    → All (All (λ x. x < n)) rows
    → All (Sorted 0) rows
    → (parts : List (List (List ℕ))) × (partition_loop fuel n i rows ≡ some parts)
      × Cut i rows parts
unfolding partition_loop glue_all
partition_loop-Cut zero n i rows f h a o = absurd (omega arith)
partition_loop-Cut (suc fuel) n i rows f h a o =
    let e = start_edge n rows + i in
    let rest = rest_of i e rows in
    let part = part_of i e rows in
    let window = window_at n i rows o in
    elim (Bool-cases (all_empty rest)) [
      | inl done ↦ (
        part ∷ [],
        rw (done, partition_loop),
        record { lossless = glue-nil part ∙ part_of-all i e rows done; windows = (window, tt) },
      )
      | inr more ↦
          let (parts, run, cut) =
            partition_loop-Cut fuel n i rest (omega (arith, round-shrinks n i rows h a more)) h
              (All-rest (λ x. x < n) i e rows a) (Sorted-rest 0 i e rows o) in
          (
            part ∷ parts,
            rw (more, run, partition_loop),
            record {
              lossless = ap (glue part) cut.lossless ∙ glue-part-rest i e rows;
              windows = (window, cut.windows);
            },
          )
    ]

-- For sorted rows of vertices and an interval that is not 0 the partition ends. Its parts, put
-- together again row by row, are the rows it was given, so no edge is lost, doubled or moved; and
-- in each part every source lies in one window of `interval` vertices and no row is longer than it.
pub partition-Cut :
    (n i : ℕ) (rows : List (List ℕ))
    → 0 < i
    → All (All (λ x. x < n)) rows
    → All (Sorted 0) rows
    → (parts : List (List (List ℕ))) × (partition n i rows ≡ some parts) × Cut i rows parts
unfolding partition
partition-Cut n i rows h a o = partition_loop-Cut (entries rows + 1) n i rows (omega arith) h a o
