-- ===== src/Text/Table.antt =====
-- A reader of texts of lines of cells, with a comma between two cells and a line break after a line: what
-- the records of hygcn/dataflow/hy_rec.h are written for.
use hy_gcn_a_gcn_accelerator.Base.{
  ℕ, ◌≡◌, refl, ap, ◌∙◌, Bool, true, not, ◌&&◌, List, [], ◌∷◌, ◌++◌, ◌==◌, arith, All,
  if◌then◌else◌,
}
use hy_gcn_a_gcn_accelerator.Text.{Text, is_digit, to_string}
use hy_gcn_a_gcn_accelerator.Text.Decimal.{to_string-AllDigits}

-- A byte in front of the first cell.
abbrev push_byte : ℕ → List (List Text) → List (List Text)
push_byte c [] = []
push_byte c ([] ∷ rows) = [] ∷ rows
push_byte c ((cell ∷ row) ∷ rows) = ((c ∷ cell) ∷ row) ∷ rows

-- A cell in front of the first row.
abbrev pub push_cell : Text → List (List Text) → List (List Text)
push_cell cell [] = []
push_cell cell (row ∷ rows) = (cell ∷ row) ∷ rows

-- The rows of cells. What follows the last line break is a row too.
unfoldable pub table : Text → List (List Text)
table [] = ([] ∷ []) ∷ []
table (c ∷ s) =
    let rest = table s in
    if c == 10 then ([] ∷ []) ∷ rest else if c == b',' then push_cell [] rest else push_byte c rest

-- A text that can stand in a cell.
unfoldable pub is_plain : Text → Bool
is_plain [] = true
is_plain (c ∷ s) = not (c == b',') && not (c == 10) && is_plain s

abbrev pub IsPlain : Text → Type 0
IsPlain s = is_plain s ≡ true

push_byte-push_cell :
    (c : ℕ) (cell : Text) (rows : List (List Text))
    → push_byte c (push_cell cell rows) ≡ push_cell (c ∷ cell) rows
push_byte-push_cell c cell [] = refl
push_byte-push_cell c cell (row ∷ rows) = refl

table-byte :
    (c : ℕ) (s : Text)
    → is_plain (c ∷ s) ≡ true
    → (t : Text) → table (c ∷ t) ≡ push_byte c (table t)
unfolding table is_plain
table-byte c s p t = ground (arith, p)

pub IsPlain-tail : (c : ℕ) (s : Text) → IsPlain (c ∷ s) → IsPlain s
unfolding is_plain
IsPlain-tail c s p = ground (arith, p)

-- A cell that is followed by another.
pub table-cell :
    (cell t : Text) → IsPlain cell → table (cell ++ (b',' ∷ t)) ≡ push_cell cell (table t)
unfolding table
table-cell [] t p = refl
table-cell (c ∷ cell) t p =
    table-byte c cell p (cell ++ (b',' ∷ t))
    ∙ ap (push_byte c) (table-cell cell t (IsPlain-tail c cell p))
    ∙ push_byte-push_cell c cell (table t)

-- The last cell of a row.
pub table-end : (cell t : Text) → IsPlain cell → table (cell ++ (10 ∷ t)) ≡ (cell ∷ []) ∷ table t
unfolding table
table-end [] t p = refl
table-end (c ∷ cell) t p =
    table-byte c cell p (cell ++ (10 ∷ t))
    ∙ ap (push_byte c) (table-end cell t (IsPlain-tail c cell p))

IsPlain-digits : (s : Text) → All (λ c. is_digit c ≡ true) s → IsPlain s
unfolding is_plain
IsPlain-digits [] a = refl
IsPlain-digits (c ∷ s) a = ground (arith, a.0, IsPlain-digits s a.1)

pub to_string-IsPlain : (n : ℕ) → IsPlain (to_string n)
to_string-IsPlain n = IsPlain-digits (to_string n) (to_string-AllDigits n)
