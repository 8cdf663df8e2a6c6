-- ===== src/SystolicArray/Walk.antt =====
-- systolic_arr.cpp, `GenDataFlow`: where the walk over the tiles stands, and how one tile is issued.
use native.Mathlib.Nat.{mul-le-mul_right}
use hy_gcn_a_gcn_accelerator.Base.{
  ℕ, suc, ◌+◌, ◌-◌, ◌*◌, ◌≤◌, ◌<◌, ◌≡◌, ◌⊎◌, ap, ◌∙◌, pos, arith, Bool-cases, if◌then◌else◌, ◌==◌,
  sub_ℕ, inl, inr, refl,
}
use hy_gcn_a_gcn_accelerator.SystolicArray.{
  SystolicArray, Tiling, ArrayState, filling, ready, finished, issue_tile, gen_data_flow,
  clock_tick, sz_row,
}
use hy_gcn_a_gcn_accelerator.SystolicArray.Tiles.{
  InRange, Next, next_h, next_w, next_batch, end, count_tile-Next, position, num_tiles, index_lt,
}

-- The output rows that the position has taken room for.
abbrev pub rows : Tiling → ℕ
rows t = t.batch_cnt * t.num_w_tile + t.w_tile_cnt

-- The walk stands before a tile, and all the rows of the block fit in the output buffer.
pub record WalksAt (t : Tiling) (height width cap_outbuf data_bytes : ℕ) : Type 0 where
  pub range : InRange t
  pub tall : 0 < height
  pub wide : 0 < width
  pub at_head : t.h_tile_cnt ≡ 0 → t.sz_output ≡ rows t * (t.w.w * data_bytes)
  pub inside : 0 < t.h_tile_cnt → t.sz_output ≡ (rows t + 1) * (t.w.w * data_bytes)
  pub fits : t.num_batch * t.num_w_tile * (t.w.w * data_bytes) ≤ cap_outbuf

abbrev pub Walks : SystolicArray → Type 0
Walks s = WalksAt s.tiling s.height s.width s.cap_outbuf s.data_bytes

-- Room for the next row is left.
room :
    (s : SystolicArray)
    → Walks s
    → s.tiling.sz_output ≡ rows s.tiling * sz_row s
    → s.tiling.sz_output + sz_row s ≤ s.cap_outbuf
room s v e =
    let t = s.tiling in
    let below : rows t < t.num_batch * t.num_w_tile =
      index_lt t.batch_cnt t.w_tile_cnt t.num_w_tile t.num_batch v.range.batch_in v.range.w_in in
    omega (
      arith,
      e,
      v.fits,
      mul-le-mul_right {m = rows t + 1} {n = t.num_batch * t.num_w_tile} (sz_row s)
          (omega (arith, below)),
    )

abbrev pub next_batch_size : Tiling → ℕ
next_batch_size t = if (t.batch_cnt + 1) == t.num_batch then t.ele_last_batch else t.ele_batch

-- The tile that is issued, in a state whose row has room: what `clock_tick` makes of `ready`.
abbrev pub with_row : SystolicArray → SystolicArray
with_row s =
    if s.tiling.h_tile_cnt == 0
    then record s { tiling = record s.tiling { sz_output = s.tiling.sz_output + sz_row s } }
    else s

pub clock_tick-ready :
    (s : SystolicArray) → Walks s → s.state ≡ ready → clock_tick s ≡ issue_tile (with_row s)
unfolding clock_tick gen_data_flow
clock_tick-ready s v e = ground (arith, e, room s v)

-- A tile in the array takes one cycle to fill and a positive number of cycles to compute.
record InArray (s : SystolicArray) (d : ℕ) : Type 0 where
  in_state : s.state ≡ filling
  in_fill : s.fill_weight_cycle ≡ pos 0
  in_compute : s.compute_cycle ≡ pos (suc d)

cycles_pos : (b h w : ℕ) → 0 < h → 0 < w → sub_ℕ (b + h + w) 1 ≡ pos (suc (b + h + w - 2))
cycles_pos b h w p q = ground arith

issue_tile-compute :
    (s : SystolicArray)
    → 0 < s.height
    → 0 < s.width
    → (issue_tile s).compute_cycle ≡ pos (suc (next_batch_size s.tiling + s.height + s.width - 2))
unfolding issue_tile
issue_tile-compute s h w = cycles_pos (next_batch_size s.tiling) s.height s.width h w

-- The row of the tile at hand has its room.
pub record Taken (s : SystolicArray) : Type 0 where
  pub range : InRange s.tiling
  pub tall : 0 < s.height
  pub wide : 0 < s.width
  pub row : s.tiling.sz_output ≡ (rows s.tiling + 1) * sz_row s
  pub fits : s.tiling.num_batch * s.tiling.num_w_tile * sz_row s ≤ s.cap_outbuf

pub with_row-Taken : (s : SystolicArray) → Walks s → Taken (with_row s)
with_row-Taken s v = elim (Bool-cases (s.tiling.h_tile_cnt == 0)) [
  | inl z ↦ rw z (record {
    range = omega (arith, v.range);
    tall = v.tall;
    wide = v.wide;
    row = omega (arith, v.at_head (ground arith));
    fits = v.fits;
  })
  | inr p ↦ rw p (record {
    range = v.range;
    tall = v.tall;
    wide = v.wide;
    row = v.inside (ground arith);
    fits = v.fits;
  })
]

-- One tile is issued: the walk goes on behind it, or is finished.
abbrev Issued : SystolicArray → Tiling → ArrayState → Type 0
Issued s t st =
    ((st ≡ filling)
      × Walks (record s { tiling = t })
      × (position t ≡ position s.tiling + 1)
      × (num_tiles t ≡ num_tiles s.tiling))
    ⊎ (st ≡ finished)

Next-Issued :
    (s : SystolicArray) (t : Tiling) (st : ArrayState)
    → Taken s
    → Next s.tiling t filling st
    → Issued s t st
Next-Issued s t st v (next_h p e f) =
    rw (e, f)
      (inl (
        refl,
        record {
          range = omega (arith, v.range);
          tall = v.tall;
          wide = v.wide;
          at_head = λ z. absurd (omega arith);
          inside = λ _. v.row;
          fits = v.fits;
        },
        omega arith,
        refl,
      ))
Next-Issued s t st v (next_w p q e f) =
    rw (e, f)
      (inl (
        refl,
        record {
          range = omega (arith, v.range);
          tall = v.tall;
          wide = v.wide;
          at_head = λ z. omega (arith, v.row);
          inside = λ z. absurd (omega arith);
          fits = v.fits;
        },
        grind arith,
        refl,
      ))
Next-Issued s t st v (next_batch p q r e f) =
    rw (e, f)
      (inl (
        refl,
        record {
          range = omega (arith, v.range);
          tall = v.tall;
          wide = v.wide;
          at_head = λ z. omega (arith, v.row, ap (λ n. n * sz_row s) q);
          inside = λ z. absurd (omega arith);
          fits = v.fits;
        },
        omega (arith, ap (λ n. n * s.tiling.num_h_tile) q),
        refl,
      ))
Next-Issued s t st v (end p q r e f) = inr f

pub with_row-position :
    (s : SystolicArray)
    → (position (with_row s).tiling ≡ position s.tiling)
      × (num_tiles (with_row s).tiling ≡ num_tiles s.tiling)
with_row-position s = ground arith

-- What a cycle in `ready` leads to: the array works on a tile and the walk stands behind it, or the
-- block is finished.
pub clock_tick-Walks :
    (s : SystolicArray)
    → Walks s
    → s.state ≡ ready
    → let t = clock_tick s in
      ((t.state ≡ filling)
        × (t.fill_weight_cycle ≡ pos 0)
        × ((d : ℕ) × (t.compute_cycle ≡ pos (suc d)))
        × Walks t
        × (position t.tiling ≡ position s.tiling + 1)
        × (num_tiles t.tiling ≡ num_tiles s.tiling))
      ⊎ (t.state ≡ finished)
unfolding issue_tile
clock_tick-Walks s v e =
    let u = with_row s in
    let k = with_row-Taken s v in
    let issued = Next-Issued u _ _ k (count_tile-Next u.tiling filling k.range) in
    let cycle = issue_tile-compute u k.tall k.wide in
    let (same, total) = with_row-position s in
    rw (clock_tick-ready s v e) (elim issued [
      | inl (f, w, p, n) ↦ inl (f, refl, (_, cycle), w, p ∙ ap (λ m. m + 1) same, n ∙ total)
      | inr f ↦ inr f
    ])
