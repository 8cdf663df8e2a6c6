-- ===== src/Graph/EdgePages/Read.antt =====
-- A reader of the pages of `EdgeCompress`: the edges that a page lists.
use hy_gcn_a_gcn_accelerator.Base.{
  ◌≡◌, refl, ap, sym, ◌∙◌, List, [], ◌∷◌, ◌++◌, ℤ, pos, negsuc, minus_one, zero, suc,
}
use mathlib.Core.List.{append-nil, append_assoc}
use hy_gcn_a_gcn_accelerator.Graph.EdgePages.{StorCell, int_cell, zero_cell}

-- The edges of the cells, those before the first head with the row `row`. The cells have no marks: two
-- cells of which the second is -1 are the head of a row, and any other two are an edge.
unfoldable pub read : ℤ → List StorCell → List (ℤ × ℤ)
read row [] = []
read row (a ∷ []) = []
read row (head ∷ negsuc zero ∷ cells) = read head cells
read row (col ∷ negsuc (suc n) ∷ cells) = (row, col) ∷ read row cells
read row (col ∷ pos n ∷ cells) = (row, col) ∷ read row cells

unfoldable pub read_pages : List (List StorCell) → List (ℤ × ℤ)
read_pages [] = []
read_pages (page ∷ pages) = read minus_one page ++ read_pages pages

-- A page that lists the edges `es` and whose last head is `last`.
abbrev pub Lists : List (ℤ × ℤ) → ℤ → List StorCell → Type 0
Lists es last cells =
    (row : ℤ) (rest : List StorCell) → read row (cells ++ rest) ≡ es ++ read last rest

pub Lists-head :
    (es : List (ℤ × ℤ)) (last row : ℤ) (cells : List StorCell)
    → Lists es last cells
    → Lists es row (cells ++ (int_cell row ∷ int_cell minus_one ∷ []))
unfolding read
Lists-head es last row cells l first rest =
    ap (read first) (append_assoc cells (int_cell row ∷ int_cell minus_one ∷ []) rest)
    ∙ l first (int_cell row ∷ int_cell minus_one ∷ rest)

pub Lists-edge :
    (es : List (ℤ × ℤ)) (row col : ℤ) (cells : List StorCell)
    → Lists es row cells
    → Lists (es ++ ((row, col) ∷ [])) row (cells ++ (int_cell col ∷ zero_cell ∷ []))
unfolding read
Lists-edge es row col cells l first rest =
    ap (read first) (append_assoc cells (int_cell col ∷ zero_cell ∷ []) rest)
    ∙ l first (int_cell col ∷ zero_cell ∷ rest)
    ∙ sym (append_assoc es ((row, col) ∷ []) (read row rest))

pub Lists-only_head : (row : ℤ) → Lists [] row (int_cell row ∷ int_cell minus_one ∷ [])
unfolding read
Lists-only_head row first rest = refl

-- A page that is read alone.
pub Lists-read :
    (es : List (ℤ × ℤ)) (last : ℤ) (cells : List StorCell)
    → Lists es last cells
    → (row : ℤ) → read row cells ≡ es
unfolding read
Lists-read es last cells l row = ap (read row) (sym (append-nil cells)) ∙ l row [] ∙ append-nil es

pub read_pages-append :
    (pages : List (List StorCell)) (page : List StorCell)
    → read_pages (pages ++ (page ∷ [])) ≡ read_pages pages ++ read minus_one page
unfolding read_pages
read_pages-append [] page = append-nil (read minus_one page)
read_pages-append (first ∷ pages) page =
    ap (◌++◌ (read minus_one first)) (read_pages-append pages page)
    ∙ sym (append_assoc (read minus_one first) (read_pages pages) (read minus_one page))
