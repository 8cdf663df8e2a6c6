-- ===== src/SystolicArray/Run.antt =====
-- systolic_arr.cpp: a block that fits in the output buffer is worked off to the end.
use hy_gcn_a_gcn_accelerator.Base.{
  ℕ, zero, suc, ◌+◌, ◌-◌, ◌*◌, ◌<◌, ◌≡◌, ap, ◌∙◌, pos, sym, arith, u64, sub_ℕ, refl,
}
use hy_gcn_a_gcn_accelerator.SystolicArray.{
  SystolicArray, Tiling, ArrayState, filling, ready, finished, count_tile, issue_tile, clock_tick,
}
use hy_gcn_a_gcn_accelerator.SystolicArray.Tiles.{
  InRange, Next, next_h, next_w, next_batch, end, count_tile-Next, position, num_tiles,
  InRange-position,
}
use hy_gcn_a_gcn_accelerator.SystolicArray.Walk.{
  Walks, next_batch_size, with_row, clock_tick-ready, with_row-Taken, with_row-position,
}

pub ticks : ℕ → SystolicArray → SystolicArray
ticks zero s = s
ticks (suc n) s = ticks n (clock_tick s)

-- While a tile is in the array the walk stands still.
record Same (s s' : SystolicArray) : Type 0 where
  same_tiling : s'.tiling ≡ s.tiling
  same_height : s'.height ≡ s.height
  same_width : s'.width ≡ s.width
  same_cap : s'.cap_outbuf ≡ s.cap_outbuf
  same_bytes : s'.data_bytes ≡ s.data_bytes

ticks-finished : (n : ℕ) (s : SystolicArray) → s.state ≡ finished → ticks n s ≡ s
unfolding ticks clock_tick
ticks-finished zero s e = refl
ticks-finished (suc n) s e = ground (arith, ticks-finished n s e)

cycles_eq : (b h w : ℕ) → 0 < h → 0 < w → sub_ℕ (b + h + w) 1 ≡ pos (b + h + w - 1)
cycles_eq b h w p q = ground arith

Next-last :
    {t t' : Tiling} {st : ArrayState}
    → Next t t' filling st
    → InRange t
    → position t + 1 ≡ num_tiles t
    → st ≡ finished
Next-last {t} (next_h p e f) v last =
    let t' = record t { h_tile_cnt = t.h_tile_cnt + 1 } in
    absurd (omega (arith, last, InRange-position t' (omega (arith, v))))
Next-last {t} (next_w p q e f) v last =
    let t' = record t { h_tile_cnt = 0; w_tile_cnt = t.w_tile_cnt + 1 } in
    absurd (grind (arith, last, InRange-position t' (omega (arith, v))))
Next-last {t} (next_batch p q r e f) v last =
    let t' = record t { h_tile_cnt = 0; w_tile_cnt = 0; batch_cnt = t.batch_cnt + 1 } in
    absurd
      (omega (arith, last, ap (λ n. n * t.num_h_tile) q, InRange-position t' (omega (arith, v))))
Next-last (end p q r e f) v last = f

issue_tile-fields :
    (s : SystolicArray)
    → 0 < s.height
    → 0 < s.width
    → let k = next_batch_size s.tiling + s.height + s.width - 1 in
      let t = issue_tile s in
      (t.computing_cycle ≡ s.computing_cycle)
      × (t.compute_cycle ≡ pos k)
      × (t.mac_op_cnt ≡ u64 (s.mac_op_cnt + k * s.height * s.width))
      × (t.add_op_cnt ≡ u64 (s.add_op_cnt + next_batch_size s.tiling * s.width))
unfolding issue_tile
issue_tile-fields s h w =
    let e = cycles_eq (next_batch_size s.tiling) s.height s.width h w in (refl, e, rw e refl, refl)

-- The last tile of a block is issued and never computed: in the cycle that issues it the array
-- already goes to `DONE`, with all the compute cycles of the tile left and `computing_cycle_` as it
-- was, though its multiplications and additions are counted; and no later cycle changes any part of
-- the array.
pub last_tile-not_computed :
    (s : SystolicArray) (n : ℕ)
    → Walks s
    → s.state ≡ ready
    → position s.tiling + 1 ≡ num_tiles s.tiling
    → let t = ticks (suc n) s in
      (t.state ≡ finished)
      × (t.computing_cycle ≡ s.computing_cycle)
      × (t.compute_cycle ≡ pos (next_batch_size s.tiling + s.height + s.width - 1))
      × (t.mac_op_cnt
          ≡ u64 (
              s.mac_op_cnt
              + (next_batch_size s.tiling + s.height + s.width - 1) * s.height * s.width))
      × (t.add_op_cnt ≡ u64 (s.add_op_cnt + next_batch_size s.tiling * s.width))
      × (t ≡ ticks 1 s)
unfolding ticks
last_tile-not_computed s n v e last =
    let u = with_row s in
    let k = with_row-Taken s v in
    let (p, q) = with_row-position s in
    let st : (count_tile u.tiling filling).1 ≡ finished =
      Next-last (count_tile-Next u.tiling filling k.range) k.range (omega (arith, p, q, last)) in
    let f : (issue_tile u).state ≡ finished = unfold issue_tile in st in
    let run : ticks (suc n) s ≡ issue_tile u =
      ap (ticks n) (clock_tick-ready s v e) ∙ ticks-finished n (issue_tile u) f in
    let (x, y, z, a) = issue_tile-fields u k.tall k.wide in
    rw run (
      f,
      ground (arith, x),
      ground (arith, y),
      ground (arith, z),
      ground (arith, a),
      sym (clock_tick-ready s v e),
    )
