-- ===== src/Text/Split/Parts.antt =====
-- hygcn/tool.cpp, `SplitString`: the parts of a text.
use hy_gcn_a_gcn_accelerator.Base.{
  ℕ, zero, suc, ◌+◌, ◌≤◌, ◌<◌, ◌≡◌, ◌⊎◌, refl, ap, sym, subst, ◌∙◌, inl, inr, true, false, none,
  some, List, [], ◌∷◌, ◌++◌, arith, ◌==◌, length, length-drop, take, drop, Bool-cases, Option-cases,
  some-eq, All,
}
use mathlib.Core.List.{append_assoc, append-nil}
use hy_gcn_a_gcn_accelerator.Text.{Text}
use hy_gcn_a_gcn_accelerator.Text.Split.{starts_with, find, last_part, split_from, split_string}

starts_with-append :
    (d s : Text) → starts_with d s ≡ true → (s ≡ d ++ drop (length d) s) × (length d ≤ length s)
unfolding starts_with
starts_with-append [] s e = (refl, omega arith)
starts_with-append (x ∷ ds) [] e = cc
starts_with-append (x ∷ ds) (c ∷ s) e =
    let (same, long) = starts_with-append ds s (ground (arith, e)) in
    let first : x ≡ c = ground (arith, e) in
    (ap (◌∷◌ c) same ∙ ap (λ y. y ∷ (ds ++ drop (length ds) s)) (sym first), omega (arith, long))

-- How `find` goes on after a byte.
find-cons :
    (d : Text) (c : ℕ) (s : Text) (k : ℕ)
    → find d (c ∷ s) ≡ some k
    → ((starts_with d (c ∷ s) ≡ true) × (k ≡ 0))
      ⊎ ((j : ℕ) × (starts_with d (c ∷ s) ≡ false) × (find d s ≡ some j) × (k ≡ suc j))
unfolding find
find-cons d c s k e = elim (Bool-cases (starts_with d (c ∷ s))) [
  | inl t ↦ inl (t, sym (some-eq (rw t at e)))
  | inr t ↦
      let e' = rw t at e in
      elim (Option-cases (find d s)) [
        | inl n ↦ let e'' = rw n at e' in cc
        | inr (j, n) ↦ inr (j, t, n, sym (some-eq (rw n at e')))
      ]
]

-- A text that is cut off does not start with more.
starts_with-take :
    (d : Text) (k : ℕ) (s : Text) → starts_with d s ≡ false → starts_with d (take k s) ≡ false
unfolding starts_with
starts_with-take [] k s e = e
starts_with-take (x ∷ ds) zero s e = refl
starts_with-take (x ∷ ds) (suc k) [] e = refl
starts_with-take (x ∷ ds) (suc k) (c ∷ s) e = elim (Bool-cases (x == c)) [
  | inl t ↦ rw t (starts_with-take ds k s (rw t at e))
  | inr t ↦ rw t refl
]

find-none :
    (d : Text) (c : ℕ) (s : Text)
    → starts_with d (c ∷ s) ≡ false
    → find d s ≡ none
    → find d (c ∷ s) ≡ none
unfolding find
find-none d c s e n = rw (e, n) refl

find-nil : (x : ℕ) (ds : Text) → find (x ∷ ds) [] ≡ none
unfolding find starts_with
find-nil x ds = refl

-- The place that `find` gives: what stands in front of it has no delimiter.
find-some :
    (x : ℕ) (ds s : Text) (k : ℕ)
    → find (x ∷ ds) s ≡ some k
    → (s ≡ take k s ++ ((x ∷ ds) ++ drop (k + length (x ∷ ds)) s))
      × (k + length (x ∷ ds) ≤ length s)
      × (find (x ∷ ds) (take k s) ≡ none)
find-some x ds [] k e = let e' = sym (find-nil x ds) ∙ e in cc
find-some x ds (c ∷ s) k e =
    let d : Text = x ∷ ds in
    elim (find-cons d c s k e) [
      | inl (t, z) ↦
          let (same, long) = starts_with-append d (c ∷ s) t in
          let at_start : length d ≡ 0 + length d = omega arith in
          subst
            (λ k.
              (c ∷ s ≡ take k (c ∷ s) ++ (d ++ drop (k + length d) (c ∷ s)))
              × (k + length d ≤ length (c ∷ s))
              × (find d (take k (c ∷ s)) ≡ none))
            (sym z)
            (same ∙ ap (λ n. d ++ drop n (c ∷ s)) at_start, omega (arith, long), find-nil x ds)
      | inr (j, t, n, z) ↦
          let (same, long, free) = find-some x ds s j n in
          let shift : suc (j + length d) ≡ suc j + length d = omega arith in
          subst
            (λ k.
              (c ∷ s ≡ take k (c ∷ s) ++ (d ++ drop (k + length d) (c ∷ s)))
              × (k + length d ≤ length (c ∷ s))
              × (find d (take k (c ∷ s)) ≡ none))
            (sym z)
            (
              ap (◌∷◌ c) same ∙ ap (λ n. (c ∷ take j s) ++ (d ++ drop n (c ∷ s))) shift,
              omega (arith, long),
              find-none d c (take j s) (starts_with-take d (suc j) (c ∷ s) t) free,
            )
    ]

-- All parts, each with a delimiter after it.
abbrev pub with_ends : Text → List Text → Text
with_ends d [] = []
with_ends d (part ∷ parts) = part ++ (d ++ with_ends d parts)

-- The parts of a text: put together again, they are the text, or the text with a last delimiter; and
-- no part has the delimiter in it.
abbrev pub IsSplit : Text → Text → List Text → Type 0
IsSplit d s parts =
    ((with_ends d parts ≡ s) ⊎ (with_ends d parts ≡ s ++ d))
    × All (λ part. find d part ≡ none) parts

last_part-IsSplit : (d s : Text) → find d s ≡ none → IsSplit d s (last_part s)
last_part-IsSplit d [] e = (inl refl, tt)
last_part-IsSplit d (c ∷ s) e = (inr (ap (λ r. (c ∷ s) ++ r) (append-nil d)), (e, tt))

split_from-IsSplit :
    (fuel x : ℕ) (ds s : Text)
    → length s < fuel
    → (parts : List Text) × (split_from fuel (x ∷ ds) s ≡ some parts) × IsSplit (x ∷ ds) s parts
unfolding split_from
split_from-IsSplit zero x ds s h = elim h [ ]
split_from-IsSplit (suc fuel) x ds s h =
    let d : Text = x ∷ ds in
    elim (Option-cases (find d s)) [
      | inl n ↦ (last_part s, rw (n, split_from) refl, last_part-IsSplit d s n)
      | inr (k, n) ↦
          let (same, long, free) = find-some x ds s k n in
          let rest = drop (k + length d) s in
          let (parts, run, (ends, all)) =
            split_from-IsSplit fuel x ds rest (omega (arith, length-drop (k + length d) s, long)) in
          (
            take k s ∷ parts,
            rw (n, run, split_from) refl,
            (
              elim ends [
                | inl e ↦ inl (ap (λ r. take k s ++ (d ++ r)) e ∙ sym same)
                | inr e ↦ inr (
                    ap (λ r. take k s ++ (d ++ r)) e
                    ∙ ap (◌++◌ (take k s)) (sym (append_assoc d rest d))
                    ∙ sym (append_assoc (take k s) (d ++ rest) d)
                    ∙ ap (λ r. r ++ d) (sym same))
              ],
              (free, all),
            ),
          )
    ]

-- With a delimiter that is not empty, the loop ends. Put together again, with a delimiter after each,
-- the parts are the text, or the text with a delimiter added at its end; and no part has the delimiter
-- in it.
pub split_string-IsSplit :
    (s delimiter : Text)
    → 0 < length delimiter
    → (parts : List Text) × (split_string s delimiter ≡ some parts) × IsSplit delimiter s parts
unfolding split_string
split_string-IsSplit s [] h = elim h [ ]
split_string-IsSplit s (x ∷ ds) h = split_from-IsSplit (suc (length s)) x ds s (omega arith)
