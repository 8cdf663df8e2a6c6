-- ===== src/Config/Mapper/Slices.antt =====
-- Slices of a vector and the last entry of one, as the cut into edge chunks uses them.
use mathlib.Core.List.{append_assoc, append-nil}
use hy_gcn_a_gcn_accelerator.Base.{
  ℕ, zero, suc, ◌+◌, ◌≤◌, ◌≡◌, refl, ap, sym, ◌∙◌, List, [], ◌∷◌, ◌++◌, arith, some, length,
  get_elem?, take, drop,
}
use hy_gcn_a_gcn_accelerator.Config.Mapper.{last_end}

take-nil {ℓ} : (A : Type ℓ) (n : ℕ) → take {A = A} n [] ≡ []
take-nil A zero = refl
take-nil A (suc n) = refl

suc_add : (e k : ℕ) → suc e + k ≡ suc (e + k)
suc_add e k = omega arith

pub take-slice {ℓ} :
    {A : Type ℓ} (e k : ℕ) (xs : List A) → take e xs ++ take k (drop e xs) ≡ take (e + k) xs
take-slice zero k xs = ap (λ n. take n xs) (omega arith)
take-slice (suc e) k [] = take-nil _ k ∙ sym (take-nil _ (suc e + k))
take-slice (suc e) k (x ∷ xs) =
    ap (◌∷◌ x) (take-slice e k xs) ∙ ap (λ n. take n (x ∷ xs)) (sym (suc_add e k))

pub take-all {ℓ} : {A : Type ℓ} (n : ℕ) (xs : List A) → length xs ≤ n → take n xs ≡ xs
take-all zero [] h = refl
take-all zero (x ∷ xs) h = elim h [ ]
take-all (suc n) [] h = refl
take-all (suc n) (x ∷ xs) h = ap (◌∷◌ x) (take-all n xs (omega arith))

pub take-suc {ℓ} :
    {A : Type ℓ} (n : ℕ) (xs : List A) {x : A}
    → get_elem? xs n ≡ some x
    → take (suc n) xs ≡ take n xs ++ (x ∷ [])
take-suc zero [] e = cc
take-suc zero (y ∷ xs) e = cc
take-suc (suc n) [] e = cc
take-suc (suc n) (y ∷ xs) e = ap (◌∷◌ y) (take-suc n xs e)

pub get_elem?-drop {ℓ} :
    {A : Type ℓ} (e k : ℕ) (xs : List A) → get_elem? (drop e xs) k ≡ get_elem? xs (e + k)
get_elem?-drop zero k xs = ap (get_elem? xs) (omega arith)
get_elem?-drop (suc e) k [] = refl
get_elem?-drop (suc e) k (x ∷ xs) =
    get_elem?-drop e k xs ∙ ap (get_elem? (x ∷ xs)) (sym (suc_add e k))

pub last_end-snoc : (es : List ℕ) (e : ℕ) → last_end (es ++ (e ∷ [])) ≡ e
last_end-snoc [] e = refl
last_end-snoc (x ∷ []) e = refl
last_end-snoc (x ∷ y ∷ es) e = last_end-snoc (y ∷ es) e

-- The entries of all lists, in order.
abbrev pub concat {ℓ} : {A : Type ℓ} → List (List A) → List A
concat [] = []
concat (xs ∷ xss) = xs ++ concat xss

pub concat-snoc {ℓ} :
    {A : Type ℓ} (xss : List (List A)) (ys : List A) → concat (xss ++ (ys ∷ [])) ≡ concat xss ++ ys
concat-snoc [] ys = append-nil ys
concat-snoc (xs ∷ xss) ys =
    ap (λ zs. xs ++ zs) (concat-snoc xss ys) ∙ sym (append_assoc xs (concat xss) ys)

-- Where the chunks end, as vertex numbers: each is the end of the one before and its own length.
abbrev pub EndsOf {ℓ} : {A : Type ℓ} → ℕ → List ℕ → List (List A) → Type 0
EndsOf from [] [] = Unit
EndsOf from [] (c ∷ cs) = ⊥
EndsOf from (e ∷ es) [] = ⊥
EndsOf from (e ∷ es) (c ∷ cs) = (e ≡ from + length c) × EndsOf e es cs

abbrev pub last_from : ℕ → List ℕ → ℕ
last_from n [] = n
last_from n (e ∷ es) = last_from e es

pub last_end-from : (es : List ℕ) → last_end es ≡ last_from 0 es
last_end-from [] = refl
last_end-from (e ∷ []) = refl
last_end-from (e ∷ f ∷ es) = last_end-from (f ∷ es)

pub EndsOf-snoc {ℓ} :
    {A : Type ℓ} (from : ℕ) (es : List ℕ) (cs : List (List A)) (e : ℕ) (c : List A)
    → EndsOf from es cs
    → e ≡ last_from from es + length c
    → EndsOf from (es ++ (e ∷ [])) (cs ++ (c ∷ []))
EndsOf-snoc from [] [] e c h q = (q, tt)
EndsOf-snoc from [] (d ∷ cs) e c h q = elim h [ ]
EndsOf-snoc from (f ∷ es) [] e c h q = elim h [ ]
EndsOf-snoc from (f ∷ es) (d ∷ cs) e c h q = (h.0, EndsOf-snoc f es cs e c h.1 q)
