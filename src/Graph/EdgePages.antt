-- ===== src/Graph/EdgePages.antt =====
-- graph.h and graph.cpp, `EdgeCompress`: the rows of a graph laid out in pages of cells. `int`s as
-- sizes are natural numbers; a division by zero is a fault.
pub mod Read
pub mod Page
pub mod Layout
use hy_gcn_a_gcn_accelerator.Base.{
  ℕ, zero, suc, ◌+◌, ◌/◌, Bool, true, false, Option, none, some, List, [], ◌∷◌, ◌++◌, leb, ltb, not,
  ◌==◌, ◌||◌, if◌then◌else◌, ◌>>=◌, ◌>>◌, check, length, ℤ, pos, minus_one,
}

-- A cell is a union of an `int` and a `float`, which does not tell which of them it holds: it is the
-- `int` that its four bytes are.
abbrev pub StorCell : Type 0
StorCell = ℤ

abbrev pub int_cell : ℤ → StorCell
int_cell n = n

-- The only `float` that is stored is 0, all of whose bits are 0.
abbrev pub zero_cell : StorCell
zero_cell = pos 0

-- The page that is being filled and the full ones, `current_page_cells_` and `edge_pages_`.
pub record Pages : Type 0 where
  pub current : List StorCell
  pub edge_pages : List (List StorCell)

-- The constructor's arguments.
pub record EdgeCompress : Type 0 where
  pub sz_page : ℕ
  pub data_bytes : ℕ
  pub idx_bytes : ℕ

unfoldable pub ele_per_page : EdgeCompress → Option ℕ
ele_per_page c =
    check (ltb 0 (c.data_bytes + c.idx_bytes)) >> some (c.sz_page / (c.data_bytes + c.idx_bytes))

unfoldable pub is_empty : List StorCell → Bool
is_empty [] = true
is_empty (x ∷ xs) = false

-- `edge_pages_.push_back(current_page_cells_)` and the `clear` after it.
abbrev pub push_page : Pages → Pages
push_page p = record { current = []; edge_pages = p.edge_pages ++ (p.current ∷ []) }

abbrev pub add_cells : StorCell → StorCell → Pages → Pages
add_cells a b p = record p { current = p.current ++ (a ∷ b ∷ []) }

-- A full page.
unfoldable pub full_page : ℕ → Pages → Pages
full_page ele p = if length p.current == ele then push_page p else p

-- A new page or a new row.
unfoldable pub new_row : ℤ → Bool → Pages → Pages
new_row row vertex_head p =
    if is_empty p.current || vertex_head then add_cells (int_cell row) (int_cell minus_one) p else p

-- The general case.
unfoldable pub new_edge : ℤ → Bool → Pages → Pages
new_edge col vertex_head p = if not vertex_head then add_cells (int_cell col) zero_cell p else p

unfoldable pub fill_edge_page : EdgeCompress → ℤ → ℤ → Bool → Bool → Pages → Option Pages
fill_edge_page c row col vertex_head over p = do
  ele ← ele_per_page c
  let p' = new_edge col vertex_head (new_row row vertex_head (full_page ele p))
  if over then some (push_page p') else check (leb (length p'.current) c.sz_page) >> some p'

-- The entries of a row.
unfoldable pub fill_row : EdgeCompress → ℕ → List ℕ → Pages → Option Pages
fill_row c row [] p = some p
fill_row c row (col ∷ cols) p =
    fill_edge_page c (pos row) (pos col) false false p >>= fill_row c row cols

-- The rows from `row` on.
unfoldable pub fill_rows : EdgeCompress → ℕ → List (List ℕ) → Pages → Option Pages
fill_rows c row [] p = some p
fill_rows c row (cols ∷ csr) p = do
  p' ← fill_edge_page c (pos row) (pos row) true false p
  p'' ← fill_row c row cols p'
  fill_rows c (row + 1) csr p''

-- `GenEdgeLayout`, for the cells that an earlier call left in the page.
unfoldable pub gen_edge_layout :
    EdgeCompress → List (List ℕ) → ℕ → List StorCell → Option (List (List StorCell))
gen_edge_layout c csr vertex_start_idx cells = do
  p ← fill_rows c vertex_start_idx csr (record { current = cells; edge_pages = [] })
  p' ← fill_edge_page c minus_one minus_one true true p
  some p'.edge_pages
