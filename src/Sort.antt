-- ===== src/Sort.antt =====
-- `std::sort` of a vector of `int`s: the list of the same entries, in the order of a comparison.
use hy_gcn_a_gcn_accelerator.Base.{
  ℕ, ◌+◌, ◌≤◌, ◌≡◌, List, [], ◌∷◌, Bool, arith, leb, ◌==◌, if◌then◌else◌, length, count, All,
  All-mono, inl, inr, refl, Bool-cases,
}
use hy_gcn_a_gcn_accelerator.Partition.Rows.{Sorted}

-- The entry in front of the first that need not stand before it.
unfoldable pub insert_by : (ℕ → ℕ → Bool) → ℕ → List ℕ → List ℕ
insert_by before x [] = x ∷ []
insert_by before x (y ∷ ys) =
    let rest = insert_by before x ys in if before x y then x ∷ y ∷ ys else y ∷ rest

unfoldable pub sort_by : (ℕ → ℕ → Bool) → List ℕ → List ℕ
unfolding insert_by
sort_by before [] = []
sort_by before (x ∷ xs) = insert_by before x (sort_by before xs)

-- The default comparison.
abbrev pub sort : List ℕ → List ℕ
sort = sort_by leb

-- The comparison `a > b`.
abbrev pub sort_down : List ℕ → List ℕ
sort_down = sort_by (λ a b. leb b a)

insert_by-Sorted : (n x : ℕ) (ys : List ℕ) → n ≤ x → Sorted n ys → Sorted n (insert_by leb x ys)
unfolding insert_by
insert_by-Sorted n x [] h s = (h, tt)
insert_by-Sorted n x (y ∷ ys) h s = elim (Bool-cases (leb x y)) [
  | inl k ↦ rw (k, insert_by) (h, (ground (arith, k), s.1))
  | inr k ↦ rw (k, insert_by) (s.0, insert_by-Sorted y x ys (ground (arith, k)) s.1)
]

pub sort-Sorted : (xs : List ℕ) → Sorted 0 (sort xs)
unfolding sort_by
sort-Sorted [] = tt
sort-Sorted (x ∷ xs) = insert_by-Sorted 0 x (sort xs) (omega arith) (sort-Sorted xs)

-- Descending: no entry is above one in front of it.
abbrev pub Descending : List ℕ → Type 0
Descending [] = Unit {0}
Descending (x ∷ xs) = All (λ y. y ≤ x) xs × Descending xs

insert_by-All :
    (P : ℕ → Type 0) (before : ℕ → ℕ → Bool) (x : ℕ) (ys : List ℕ)
    → P x
    → All P ys
    → All P (insert_by before x ys)
unfolding insert_by
insert_by-All P before x [] p a = (p, tt)
insert_by-All P before x (y ∷ ys) p a = elim (Bool-cases (before x y)) [
  | inl k ↦ rw (k, insert_by) (p, a)
  | inr k ↦ rw (k, insert_by) (a.0, insert_by-All P before x ys p a.1)
]

insert_by-Descending :
    (x : ℕ) (ys : List ℕ) → Descending ys → Descending (insert_by (λ a b. leb b a) x ys)
unfolding insert_by
insert_by-Descending x [] d = (tt, tt)
insert_by-Descending x (y ∷ ys) d = elim (Bool-cases (leb y x)) [
  | inl k ↦
      rw (k, insert_by) ((ground (arith, k), All-mono _ _ ys (λ z h. ground (arith, k)) d.0), d)
  | inr k ↦
      rw (k, insert_by)
        (
          insert_by-All (λ z. z ≤ y) (λ a b. leb b a) x ys (ground (arith, k)) d.0,
          insert_by-Descending x ys d.1,
        )
]

pub sort_down-Descending : (xs : List ℕ) → Descending (sort_down xs)
unfolding sort_by
sort_down-Descending [] = tt
sort_down-Descending (x ∷ xs) = insert_by-Descending x (sort_down xs) (sort_down-Descending xs)

pub sort_by-All :
    (P : ℕ → Type 0) (before : ℕ → ℕ → Bool) (xs : List ℕ) → All P xs → All P (sort_by before xs)
unfolding sort_by
sort_by-All P before [] a = tt
sort_by-All P before (x ∷ xs) a =
    insert_by-All P before x (sort_by before xs) a.0 (sort_by-All P before xs a.1)

length-insert_by :
    (before : ℕ → ℕ → Bool) (x : ℕ) (ys : List ℕ) → length (insert_by before x ys) ≡ length ys + 1
unfolding insert_by
length-insert_by before x [] = omega arith
length-insert_by before x (y ∷ ys) = ground (arith, length-insert_by before x ys)

pub length-sort_by : (before : ℕ → ℕ → Bool) (xs : List ℕ) → length (sort_by before xs) ≡ length xs
unfolding sort_by
length-sort_by before [] = refl
length-sort_by before (x ∷ xs) =
    omega (arith, length-sort_by before xs, length-insert_by before x (sort_by before xs))

count-insert_by :
    (a : ℕ) (before : ℕ → ℕ → Bool) (x : ℕ) (ys : List ℕ)
    → count a (insert_by before x ys) ≡ count a ys + (if x == a then 1 else 0)
unfolding insert_by
count-insert_by a before x [] = omega arith
count-insert_by a before x (y ∷ ys) = ground (arith, count-insert_by a before x ys)

-- The entries are the same, as often.
pub count-sort_by :
    (a : ℕ) (before : ℕ → ℕ → Bool) (xs : List ℕ) → count a (sort_by before xs) ≡ count a xs
unfolding sort_by
count-sort_by a before [] = refl
count-sort_by a before (x ∷ xs) =
    omega (arith, count-sort_by a before xs, count-insert_by a before x (sort_by before xs))
