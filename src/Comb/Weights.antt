-- ===== src/Comb/Weights.antt =====
-- comb.cpp, `FetchWeights`: the `assert` on the address of a slice of the weights.
use native.Mathlib.Nat.{mul-le-mul_right, mod-eq_of_lt}
use hy_gcn_a_gcn_accelerator.Base.{
  ℕ, ◌+◌, ◌*◌, ◌≤◌, ◌<◌, ◌≡◌, ◌∙◌, refl, ap, sym, [], ◌∷◌, ◌++◌, length, arith, false, some, leb,
  lt→ltb, u64, u64_mod,
}
use hy_gcn_a_gcn_accelerator.Event
use hy_gcn_a_gcn_accelerator.Event.{Event, dram, read, weight}
use hy_gcn_a_gcn_accelerator.Coordinator.{Coordinator}
use hy_gcn_a_gcn_accelerator.Coordinator.Requests.{add_event-weight}
use hy_gcn_a_gcn_accelerator.Config.Layers.{HyConfig}
use hy_gcn_a_gcn_accelerator.Config.Tiles.{IsTiling}
use hy_gcn_a_gcn_accelerator.Comb.{Comb, World}
use hy_gcn_a_gcn_accelerator.Comb.Traffic.{fetch_weights}

-- Where the slice that the counters stand at lies, as a number of bytes.
abbrev pub weight_addr : HyConfig → Comb → ℕ
weight_addr hy c =
    hy.mapper.weight_start_addr
    + (c.input_chunk_cnt * c.num_output_chunk + c.output_chunk_cnt)
      * hy.tile_config.space_weight_block
    + c.w_slice_cnt * c.sz_output_chunk

-- A block before the last, and a slice of it.
slice_inside :
    (i o s rows cols high block wide : ℕ)
    → i < rows
    → o < cols
    → s < high
    → block ≡ high * wide
    → (i * cols + o) * block + s * wide + wide ≤ rows * cols * block
slice_inside i o s rows cols high block wide p q r e =
    let by_rows : (i + 1) * cols ≤ rows * cols = mul-le-mul_right cols (omega arith) in
    let blocks : (i * cols + o + 1) * block ≤ rows * cols * block =
      mul-le-mul_right block (omega (arith, by_rows)) in
    let slices : (s + 1) * wide ≤ high * wide = mul-le-mul_right wide (omega arith) in
    omega (arith, blocks, slices, e)

-- The counters of the combination engine within the tiling, and the region of the weights.
pub record InRange (hy : HyConfig) (c : Comb) : Type 0 where
  pub rows : c.num_input_chunk ≡ hy.tile_config.num_comb_h_chunk
  pub cols : c.num_output_chunk ≡ hy.tile_config.num_comb_w_chunk
  pub wide : c.sz_output_chunk ≡ hy.tile_config.sz_comb_w_chunk
  pub row : c.input_chunk_cnt < c.num_input_chunk
  pub col : c.output_chunk_cnt < c.num_output_chunk
  pub slice : c.w_slice_cnt < hy.tile_config.ele_comb_h_chunk
  pub region :
      hy.mapper.weight_end_addr ≡ hy.mapper.weight_start_addr + hy.tile_config.space_aligned_weight
  pub no_wrap : hy.mapper.weight_end_addr < u64_mod

weight_addr-le :
    (hy : HyConfig) (c : Comb)
    → IsTiling hy.sys_config hy.layer_config hy.tile_config
    → InRange hy c
    → weight_addr hy c + hy.tile_config.sz_comb_w_chunk ≤ hy.mapper.weight_end_addr
weight_addr-le hy c t r =
    let inside =
      slice_inside c.input_chunk_cnt c.output_chunk_cnt c.w_slice_cnt c.num_input_chunk
        c.num_output_chunk hy.tile_config.ele_comb_h_chunk hy.tile_config.space_weight_block
        c.sz_output_chunk r.row r.col r.slice
        (t.slices ∙ ap (λ n. hy.tile_config.ele_comb_h_chunk * n) (sym r.wide)) in
    let all : hy.tile_config.space_aligned_weight
        ≡ c.num_input_chunk * c.num_output_chunk * hy.tile_config.space_weight_block =
      rw (r.rows, r.cols) t.blocks in
    omega (arith, inside, all, r.region, r.wide)

-- While the counters are within the tiling, `FetchWeights` issues a request and its `assert` holds: the
-- slice that is asked for lies in the region of the weights, all of it, and the request waits behind
-- the other requests of weights.
pub fetch_weights-issues :
    (hy : HyConfig) (w : World)
    → IsTiling hy.sys_config hy.layer_config hy.tile_config
    → InRange hy w.comb
    → let addr = weight_addr hy w.comb in
      (c : Coordinator) × (fetch_weights hy w
        ≡ some (record w {
          coordinator = c;
          comb = record w.comb { w_slice_cnt = w.comb.w_slice_cnt + 1 };
        }))
      × (c.store
          ≡ w.coordinator.store
            ++ (Event.new hy.sys_config.block_size addr hy.tile_config.sz_comb_w_chunk dram read
                  weight
                ∷ []))
      × (c.weights ≡ w.coordinator.weights ++ (length w.coordinator.store ∷ []))
      × (hy.mapper.weight_start_addr ≤ addr)
      × (addr + hy.tile_config.sz_comb_w_chunk ≤ hy.mapper.weight_end_addr)
unfolding fetch_weights
fetch_weights-issues hy w t r =
    let addr = weight_addr hy w.comb in
    let inside = weight_addr-le hy w.comb t r in
    let (c, run, stored, waits) =
      add_event-weight w.coordinator hy.sys_config.block_size addr hy.tile_config.sz_comb_w_chunk in
    let small : addr < hy.mapper.weight_end_addr = omega (arith, inside, t.slice_pos) in
    let exact : u64 (weight_addr hy w.comb) ≡ weight_addr hy w.comb =
      mod-eq_of_lt (omega (arith, small, r.no_wrap)) in
    let open_slices : leb hy.tile_config.ele_comb_h_chunk w.comb.w_slice_cnt ≡ false =
      ground (arith, r.slice) in
    (
      c,
      rw (open_slices, exact, lt→ltb addr hy.mapper.weight_end_addr small, run, fetch_weights) refl,
      stored,
      waits,
      omega arith,
      inside,
    )
