-- ===== src/SortedSet.antt =====
-- `std::set<int>` as the list of its elements in ascending order.
use hy_gcn_a_gcn_accelerator.Base.{
  ℕ, zero, suc, ◌+◌, ◌≤◌, ◌<◌, ◌≡◌, ◌⊎◌, ◌↔◌, List, [], ◌∷◌, arith, ltb, ◌==◌, if◌then◌else◌,
  length, All, All-mono,
}

unfoldable pub insert : ℕ → List ℕ → List ℕ
insert x [] = x ∷ []
insert x (y ∷ ys) =
    let rest = insert x ys in if ltb x y then x ∷ y ∷ ys else if x == y then y ∷ ys else y ∷ rest

-- Insert the entries of a sequence, in order.
unfoldable pub insert_all : List ℕ → List ℕ → List ℕ
insert_all [] s = s
insert_all (x ∷ xs) s = insert_all xs (insert x s)

-- Strictly ascending, from `n` on.
abbrev pub Ascending : ℕ → List ℕ → Type 0
Ascending n [] = Unit {0}
Ascending n (x ∷ xs) = (n ≤ x) × Ascending (suc x) xs

abbrev pub Member : ℕ → List ℕ → Type 0
Member a [] = ⊥
Member a (x ∷ xs) = (a ≡ x) ⊎ Member a xs

pub Ascending-mono : (m n : ℕ) (xs : List ℕ) → m ≤ n → Ascending n xs → Ascending m xs
Ascending-mono m n [] h a = tt
Ascending-mono m n (x ∷ xs) h a = (omega arith, a.1)

pub insert-Ascending : (n x : ℕ) (s : List ℕ) → n ≤ x → Ascending n s → Ascending n (insert x s)
unfolding insert
insert-Ascending n x [] h a = (h, tt)
insert-Ascending n x (y ∷ ys) h a = ground (arith, insert-Ascending (suc y) x ys)

pub insert_all-Ascending : (xs s : List ℕ) → Ascending 0 s → Ascending 0 (insert_all xs s)
unfolding insert_all
insert_all-Ascending [] s a = a
insert_all-Ascending (x ∷ xs) s a =
    insert_all-Ascending xs (insert x s) (insert-Ascending 0 x s (omega arith) a)

pub Member-insert : (a x : ℕ) (s : List ℕ) → Member a (insert x s) ↔ ((a ≡ x) ⊎ Member a s)
unfolding insert
Member-insert a x [] = ground arith
Member-insert a x (y ∷ ys) = ground (arith, Member-insert a x ys)

pub Member-insert_all :
    (a : ℕ) (xs s : List ℕ) → Member a (insert_all xs s) ↔ (Member a xs ⊎ Member a s)
unfolding insert_all
Member-insert_all a [] s = ground arith
Member-insert_all a (x ∷ xs) s =
    ground (arith, Member-insert a x s, Member-insert_all a xs (insert x s))

-- A set within a window of `k` numbers has at most `k` elements.
pub length-Ascending :
    (n k : ℕ) (s : List ℕ) → Ascending n s → All (λ x. x < n + k) s → length s ≤ k
length-Ascending n k [] a h = omega arith
length-Ascending n zero (x ∷ xs) a h = absurd (omega arith)
length-Ascending n (suc k) (x ∷ xs) a h = omega (
  arith,
  length-Ascending (suc n) k xs (Ascending-mono (suc n) (suc x) xs (omega arith) a.1)
      (All-mono _ _ xs (λ y p. omega arith) h.1),
)
