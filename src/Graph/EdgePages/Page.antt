-- ===== src/Graph/EdgePages/Page.antt =====
-- graph.cpp, `FillEdgePage`: what one call does to the page that is being filled.
use hy_gcn_a_gcn_accelerator.Base.{
  ℕ, ◌+◌, ◌*◌, ◌≤◌, ◌<◌, ◌≡◌, ◌⊎◌, refl, ap, subst, sym, ◌∙◌, inl, inr, true, false, List, [], ◌∷◌,
  ◌++◌, arith, ◌==◌, length, length-append, All, All-append, ℤ, minus_one, Bool-cases,
}
use mathlib.Core.List.{append-nil, append_assoc}
use hy_gcn_a_gcn_accelerator.Graph.EdgePages.{
  StorCell, int_cell, zero_cell, Pages, push_page, add_cells, is_empty, full_page, new_row,
  new_edge,
}
use hy_gcn_a_gcn_accelerator.Graph.EdgePages.Read.{
  read, read_pages, Lists, Lists-head, Lists-edge, Lists-only_head, Lists-read, read_pages-append,
}

-- A page that is filled: nothing yet, or the edges `es` and a last head `row`.
abbrev pub Open : List (ℤ × ℤ) → ℤ → List StorCell → Type 0
Open es row [] = es ≡ []
Open es row (x ∷ xs) = Lists es row (x ∷ xs)

-- Pages for `2 * e` cells, after the edges `done` were laid out, the last of them in row `row`.
pub record Laid (e : ℕ) (done : List (ℤ × ℤ)) (row : ℤ) (p : Pages) : Type 0 where
  pub k : ℕ
  pub es : List (ℤ × ℤ)
  pub even : length p.current ≡ 2 * k
  pub room : k ≤ e
  pub full : All (λ page. length page ≡ 2 * e) p.edge_pages
  pub open_page : Open es row p.current
  pub all : read_pages p.edge_pages ++ es ≡ done

Open-read :
    (es : List (ℤ × ℤ)) (row : ℤ) (cells : List StorCell)
    → Open es row cells
    → (start : ℤ) → read start cells ≡ es
unfolding read
Open-read es row [] o start = sym o
Open-read es row (x ∷ xs) o start = Lists-read es row (x ∷ xs) o start

-- The page that is being filled, moved to the others.
pub push_page-all :
    (e : ℕ) (done : List (ℤ × ℤ)) (row : ℤ) (p : Pages)
    → (l : Laid e done row p) → read_pages (push_page p).edge_pages ≡ done
push_page-all e done row p l =
    read_pages-append p.edge_pages p.current
    ∙ ap (◌++◌ (read_pages p.edge_pages)) (Open-read l.es row p.current l.open_page minus_one)
    ∙ l.all

pub full_page-Laid :
    (e : ℕ) (done : List (ℤ × ℤ)) (row : ℤ) (p : Pages)
    → 0 < e
    → Laid e done row p
    → (l : Laid e done row (full_page (2 * e) p)) × (l.k < e)
unfolding full_page
full_page-Laid e done row p h l = elim (Bool-cases (length p.current == 2 * e)) [
  | inl t ↦
      rw (t, full_page)
        (
          record {
            k = 0;
            es = [];
            even = omega arith;
            room = omega arith;
            full = All-append _ p.edge_pages (p.current ∷ []) l.full (ground (arith, t), tt);
            open_page = refl;
            all = append-nil _ ∙ push_page-all e done row p l;
          },
          h,
        )
  | inr t ↦ rw (t, full_page) (l, ground (arith, t, l.even, l.room))
]

Open-head :
    (es : List (ℤ × ℤ)) (old row : ℤ) (cells : List StorCell)
    → Open es old cells
    → Open es row (cells ++ (int_cell row ∷ int_cell minus_one ∷ []))
Open-head es old row [] o =
    subst (λ fs. Lists fs row (int_cell row ∷ int_cell minus_one ∷ [])) (sym o)
      (Lists-only_head row)
Open-head es old row (x ∷ xs) o = Lists-head es old row (x ∷ xs) o

Open-edge :
    (es : List (ℤ × ℤ)) (row col : ℤ) (cells : List StorCell)
    → 0 < length cells
    → Open es row cells
    → Open (es ++ ((row, col) ∷ [])) row (cells ++ (int_cell col ∷ zero_cell ∷ []))
Open-edge es row col [] h o = elim h [ ]
Open-edge es row col (x ∷ xs) h o = Lists-edge es row col (x ∷ xs) o

add_head :
    (e : ℕ) (done : List (ℤ × ℤ)) (old row : ℤ) (p : Pages)
    → (l : Laid e done old p) → l.k < e
    → (l' : Laid e done row (add_cells (int_cell row) (int_cell minus_one) p)) × (l'.k ≡ l.k + 1)
add_head e done old row p l h = (
  record {
    k = l.k + 1;
    es = l.es;
    even = omega (arith, l.even, length-append p.current (int_cell row ∷ int_cell minus_one ∷ []));
    room = omega arith;
    full = l.full;
    open_page = Open-head l.es old row p.current l.open_page;
    all = l.all;
  },
  refl,
)

add_edge :
    (e : ℕ) (done : List (ℤ × ℤ)) (row col : ℤ) (p : Pages)
    → (l : Laid e done row p) → 0 < l.k
    → l.k < e
    → Laid e (done ++ ((row, col) ∷ [])) row (add_cells (int_cell col) zero_cell p)
add_edge e done row col p l some_cells h = record {
  k = l.k + 1;
  es = l.es ++ ((row, col) ∷ []);
  even = omega (arith, l.even, length-append p.current (int_cell col ∷ zero_cell ∷ []));
  room = omega arith;
  full = l.full;
  open_page = Open-edge l.es row col p.current (omega (arith, l.even)) l.open_page;
  all =
      sym (append_assoc (read_pages p.edge_pages) l.es ((row, col) ∷ []))
      ∙ ap (λ es. es ++ ((row, col) ∷ [])) l.all;
}

is_empty-length :
    (cells : List StorCell)
    → ((is_empty cells ≡ true) × (length cells ≡ 0))
      ⊎ ((is_empty cells ≡ false) × (0 < length cells))
unfolding is_empty
is_empty-length [] = inl (refl, refl)
is_empty-length (x ∷ xs) = inr (refl, omega arith)

-- An edge: it gets a head in front where it opens a page.
pub fill_edge-Laid :
    (e : ℕ) (done : List (ℤ × ℤ)) (row col : ℤ) (p : Pages)
    → 1 < e
    → (l : Laid e done row p) → l.k < e
    → Laid e (done ++ ((row, col) ∷ [])) row (new_edge col false (new_row row false p))
unfolding new_row new_edge
fill_edge-Laid e done row col p many l h = elim (is_empty-length p.current) [
  | inl (t, none_yet) ↦
      let (l', grown) = add_head e done row row p l h in
      rw t (
        add_edge e done row col (add_cells (int_cell row) (int_cell minus_one) p) l'
          (omega (arith, grown)) (omega (arith, grown, none_yet, l.even)))
  | inr (t, some_cells) ↦ rw t (add_edge e done row col p l (omega (arith, l.even)) h)
]

pub fill_head-Laid :
    (e : ℕ) (done : List (ℤ × ℤ)) (old row col : ℤ) (p : Pages)
    → (l : Laid e done old p) → l.k < e
    → Laid e done row (new_edge col true (new_row row true p))
unfolding new_row new_edge
fill_head-Laid e done old row col p l h = elim (is_empty-length p.current) [
  | inl (t, _) ↦ rw t (add_head e done old row p l h).0
  | inr (t, _) ↦ rw t (add_head e done old row p l h).0
]
