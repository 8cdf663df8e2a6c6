-- ===== src/Comb/Protocol.antt =====
-- comb.cpp, the control of the combination engine: which buffers it fills, which the array uses, and at
-- which block of the weights it stands, without what the buffers hold.
pub mod Buffers
pub mod Blocks
use hy_gcn_a_gcn_accelerator.Base.{
  ℕ, ◌+◌, ◌≤◌, ◌<◌, ◌≡◌, Bool, true, false, Option, none, some, List, ◌==◌, get_elem?, set,
  if◌then◌else◌,
}
use hy_gcn_a_gcn_accelerator.Comb.Slots.{Kind, free, load, drain, Slots}

pub record Control : Type 0 where
  pub rows : ℕ
  pub cols : ℕ
  pub wide : ℕ
  pub row : ℕ
  pub col : ℕ
  pub opened : Bool
  pub in_at : Option ℕ
  pub w_at : Option ℕ
  pub fill_at : Option ℕ
  pub write_at : Option ℕ
  pub ins : List Kind
  pub ws : List Kind
  pub outs : List Kind
  pub busy : Bool
  pub cur_in : Option ℕ
  pub cur_w : Option ℕ
  pub cur_out : Option ℕ
  pub chunk : ℕ

-- To the block that follows: through the columns, and then to the next row.
abbrev pub next_block : Control → Control
next_block t =
    let u =
      if (t.col + 1) == t.cols
      then record t { col = 0; row = t.row + 1; in_at = none; w_at = none }
      else record t { col = t.col + 1; w_at = none } in
    if u.row == u.rows then u else record u { opened = true }

abbrev pub launched : ℕ → ℕ → ℕ → Control → Control
launched i j k t = record t {
  ins = set t.ins i drain;
  ws = set t.ws j drain;
  outs = set t.outs k load;
  fill_at = some k;
  busy = true;
  cur_in = t.in_at;
  cur_w = t.w_at;
  cur_out = some k;
  chunk = t.col;
}

abbrev pub collected : ℕ → ℕ → ℕ → Control → Control
collected i j k t = record t {
  ins = set t.ins i (if (t.chunk + 1) == t.cols then free else load);
  ws = set t.ws j free;
  outs = set t.outs k drain;
  write_at = t.fill_at;
  busy = false;
}

-- What a cycle of the engine may do, in small steps.
pub data Move (t : Control) (u : Control) : Type 0 where
  take_both :
      (i j : ℕ)
      → t.opened ≡ true
      → t.col ≡ 0
      → get_elem? t.ins i ≡ some free
      → get_elem? t.ws j ≡ some free
      → u ≡ record t {
        in_at = some i;
        ins = set t.ins i load;
        w_at = some j;
        ws = set t.ws j load;
        opened = false;
      }
      → Move t u
  take_weights :
      (j : ℕ)
      → t.opened ≡ true
      → 0 < t.col
      → get_elem? t.ws j ≡ some free
      → u ≡ record t { w_at = some j; ws = set t.ws j load; opened = false }
      → Move t u
  both_ready :
      (i j : ℕ)
      → t.in_at ≡ some i
      → t.w_at ≡ some j
      → t.col ≡ 0
      → u ≡ record t { ins = set t.ins i load; ws = set t.ws j load }
      → Move t u
  weights_ready : (j : ℕ) → t.w_at ≡ some j → u ≡ record t { ws = set t.ws j load } → Move t u
  launch :
      (i j k : ℕ)
      → t.busy ≡ false
      → get_elem? t.ins i ≡ some load
      → get_elem? t.ws j ≡ some load
      → get_elem? t.outs k ≡ some free
      → u ≡ next_block (launched i j k t)
      → Move t u
  collect :
      (i j k : ℕ)
      → t.busy ≡ true
      → t.write_at ≡ none
      → t.cur_in ≡ some i
      → t.cur_w ≡ some j
      → t.cur_out ≡ some k
      → u ≡ collected i j k t
      → Move t u
  written :
      (k : ℕ)
      → t.write_at ≡ some k
      → u ≡ record t { outs = set t.outs k free; write_at = none }
      → Move t u
  batch : t.row ≡ t.rows → u ≡ record t { row = 0; col = 0; opened = true } → Move t u

-- Moves one after another.
pub data Moves (t : Control) : Control → Type 0 where
  done : Moves t t
  more : {u v : Control} → Moves t u → Move u v → Moves t v

pub Moves-trans : {t u v : Control} → Moves t u → Moves u v → Moves t v
Moves-trans p done = p
Moves-trans p (more q m) = more (Moves-trans p q) m

-- A pointer that counts only while the array works.
abbrev pub while_busy : Bool → Option ℕ → Option ℕ
while_busy true o = o
while_busy false o = none

-- The buffer of inputs that is loaded, `l`, beside the pointer of the engine: it stays with the inputs
-- of a row until the array has the last block of the row.
pub data Link (busy : Bool) (in_at w_at cur_in : Option ℕ) (col cols chunk : ℕ) (l : Option ℕ)
    : Type 0 where
  between :
      busy ≡ false
      → in_at ≡ l
      → (col ≡ 0 → w_at ≡ none → l ≡ none)
      → (0 < col → (i : ℕ) × (l ≡ some i))
      → Link busy in_at w_at cur_in col cols chunk l
  after_last :
      busy ≡ true
      → in_at ≡ l
      → chunk + 1 ≡ cols
      → col ≡ 0
      → (w_at ≡ none → l ≡ none)
      → Link busy in_at w_at cur_in col cols chunk l
  within :
      busy ≡ true
      → l ≡ none
      → in_at ≡ cur_in
      → chunk + 1 ≡ col
      → Link busy in_at w_at cur_in col cols chunk l

-- What holds between any two moves, for a tiling of `rows` by `cols` blocks whose slices
-- are `wide` bytes.
pub record Inv (rows cols wide : ℕ) (t : Control) : Type 0 where
  pub rows_is : t.rows ≡ rows
  pub cols_is : t.cols ≡ cols
  pub wide_is : t.wide ≡ wide
  pub row_le : t.row ≤ rows
  pub col_lt : t.col < cols
  pub row_end : t.row ≡ rows → t.col ≡ 0
  pub open_row : t.opened ≡ true → (t.row < rows) × (t.w_at ≡ none)
  pub w_row : (j : ℕ) → t.w_at ≡ some j → t.row < rows
  pub w_in : (j : ℕ) → t.w_at ≡ some j → (i : ℕ) × (t.in_at ≡ some i)
  pub ws : Slots t.w_at (while_busy t.busy t.cur_w) t.ws
  pub ins :
      (l : Option ℕ) × Slots l (while_busy t.busy t.cur_in) t.ins
      × Link t.busy t.in_at t.w_at t.cur_in t.col t.cols t.chunk l
  pub outs : Slots (while_busy t.busy t.cur_out) t.write_at t.outs
  pub fill : t.busy ≡ true → t.fill_at ≡ t.cur_out
  pub cur :
      t.busy ≡ true
      → ((i : ℕ) × (t.cur_in ≡ some i))
        × ((j : ℕ) × (t.cur_w ≡ some j))
        × ((k : ℕ) × (t.cur_out ≡ some k))
