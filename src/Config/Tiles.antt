-- ===== src/Config/Tiles.antt =====
-- config.cpp, `TileConfig`: the tiles, the buffers of the engines and the weights.
use native.Mathlib.Nat.{mul-le-mul_right, div-mul-le_self}
use hy_gcn_a_gcn_accelerator.Base.{
  >>=-eq-some, ℕ, ◌*◌, ◌/◌, ◌≤◌, ◌<◌, ◌≡◌, ap, subst, inl, inr, arith, Option, none, some, ltb, min,
  ◌&&◌, ceil_div, Bool-cases, Option-cases,
}
use hy_gcn_a_gcn_accelerator.Tool.{upper_align}
use hy_gcn_a_gcn_accelerator.Tool.Align.{le-ceil_div-mul}
use hy_gcn_a_gcn_accelerator.Config.{
  SysConfig, LayerConfig, TileConfig, divide, comb_chunk, new_tile_config, space_aligned_vertex,
}
use hy_gcn_a_gcn_accelerator.Config.Blocks.{AreaOf, divide-some, comb_chunk-AreaOf}

-- What the tiling promises to the engines.
pub record IsTiling (sys : SysConfig) (layer : LayerConfig) (t : TileConfig) : Type 0 where
  pub weights_fit : t.space_weight_block ≤ sys.cap_wbuf
  pub inputs_fit : t.sz_comb_batch * t.sz_comb_h_chunk ≤ sys.cap_comb_inbuf
  pub outputs_fit : t.sz_comb_batch * t.sz_comb_w_chunk ≤ sys.cap_outbuf
  pub features_fit :
      t.ele_aggr_h_interval * space_aligned_vertex layer sys.block_size ≤ sys.cap_inbuf
  pub sums_fit : t.ele_aggr_w_interval * space_aligned_vertex layer sys.block_size ≤ sys.cap_aggrbuf
  pub height_covered : layer.weight_h ≤ t.num_comb_h_chunk * t.ele_comb_h_chunk
  pub width_covered : layer.weight_w ≤ t.num_comb_w_chunk * t.ele_comb_w_chunk
  pub batch : 1 < t.sz_comb_batch
  pub slice_pos : 0 < t.sz_comb_w_chunk
  pub slices : t.space_weight_block ≡ t.ele_comb_h_chunk * t.sz_comb_w_chunk
  pub blocks :
      t.space_aligned_weight ≡ t.num_comb_h_chunk * t.num_comb_w_chunk * t.space_weight_block

-- A quotient times what it was divided by, or less of it.
share-le : (a b q m : ℕ) → q ≡ a / b → m ≤ q → m * b ≤ a
share-le a b q m e h = omega (arith, mul-le-mul_right b h, ap (◌* b) e, div-mul-le_self a b)

upper_align-le : (n c : ℕ) → 0 < c → n ≤ upper_align n c
unfolding upper_align
upper_align-le n c h = le-ceil_div-mul n c h

-- The record that the constructor fills.
abbrev tile_of : LayerConfig → (num_vertex block h w hi wi ib ob : ℕ) → TileConfig
tile_of layer num_vertex block h w hi wi ib ob =
    let aligned_h = upper_align layer.weight_h block in
    let aligned_w = upper_align layer.weight_w block in
    record {
      sz_comb_batch = min ib ob;
      sz_comb_h_chunk = h * layer.data_bytes;
      sz_comb_w_chunk = w * layer.data_bytes;
      ele_comb_h_chunk = h;
      ele_comb_w_chunk = w;
      num_comb_h_chunk = ceil_div aligned_h h;
      num_comb_w_chunk = ceil_div aligned_w w;
      aligned_weight_h = aligned_h;
      aligned_weight_w = aligned_w;
      space_weight_block = h * w * layer.data_bytes;
      space_aligned_weight = w * h * layer.data_bytes * ceil_div aligned_h h * ceil_div aligned_w w;
      ele_aggr_h_interval = hi;
      ele_aggr_w_interval = min wi (ceil_div num_vertex 2);
    }

abbrev TilingOf : SysConfig → LayerConfig → Option TileConfig → Type 0
TilingOf sys layer none = Unit
TilingOf sys layer (some t) = IsTiling sys layer t

min-le_left : (a b : ℕ) → min a b ≤ a
min-le_left a b = omega arith

min-le_right : (a b : ℕ) → min a b ≤ b
min-le_right a b = omega arith

-- The tiling from what its divisions give.
tiling :
    (sys : SysConfig) (layer : LayerConfig) (num_vertex block h w hi wi ib ob : ℕ)
    → 0 < block
    → h * w * layer.data_bytes ≤ sys.cap_wbuf
    → 0 < h
    → 0 < w
    → hi ≡ sys.cap_inbuf / space_aligned_vertex layer sys.block_size
    → wi ≡ sys.cap_aggrbuf / space_aligned_vertex layer sys.block_size
    → ib ≡ sys.cap_comb_inbuf / (h * layer.data_bytes)
    → ob ≡ sys.cap_outbuf / (w * layer.data_bytes)
    → 1 < min ib ob
    → 0 < w * layer.data_bytes
    → IsTiling sys layer (tile_of layer num_vertex block h w hi wi ib ob)
tiling sys layer num_vertex block h w hi wi ib ob block_pos area h_pos w_pos e_hi e_wi e_ib e_ob
      batch slice_pos =
    record {
      weights_fit = area;
      inputs_fit =
          share-le sys.cap_comb_inbuf (h * layer.data_bytes) ib (min ib ob) e_ib (omega arith);
      outputs_fit =
          share-le sys.cap_outbuf (w * layer.data_bytes) ob (min ib ob) e_ob (omega arith);
      features_fit = share-le sys.cap_inbuf _ hi hi e_hi (omega arith);
      sums_fit = share-le sys.cap_aggrbuf _ wi (min wi (ceil_div num_vertex 2)) e_wi (omega arith);
      height_covered = omega (
        arith,
        upper_align-le layer.weight_h block block_pos,
        le-ceil_div-mul (upper_align layer.weight_h block) h h_pos,
      );
      width_covered = omega (
        arith,
        upper_align-le layer.weight_w block block_pos,
        le-ceil_div-mul (upper_align layer.weight_w block) w w_pos,
      );
      batch = batch;
      slice_pos = slice_pos;
      slices = omega arith;
      blocks = omega arith;
    }

new_tile_config-TilingOf :
    (sys : SysConfig) (layer : LayerConfig) (num_vertex : ℕ)
    → TilingOf sys layer (new_tile_config sys layer num_vertex)
unfolding new_tile_config
new_tile_config-TilingOf sys layer num_vertex =
    let db = layer.data_bytes in
    let vector = space_aligned_vertex layer sys.block_size in
    elim (Option-cases (divide sys.block_size db)) [
      | inl a ↦ rw (a, new_tile_config) tt
      | inr (block, a) ↦ elim (Bool-cases (ltb 0 block)) [
        | inr b ↦ rw (a, b, new_tile_config) tt
        | inl b ↦
            let height = upper_align layer.weight_h block in
            let width = upper_align layer.weight_w block in
            let area = comb_chunk-AreaOf sys db height width in
            elim (Option-cases (comb_chunk sys db height width)) [
              | inl c ↦ rw (a, b, c, new_tile_config) tt
              | inr ((h, w), c) ↦ elim (Bool-cases (ltb 0 h && ltb 0 w)) [
                | inr d ↦ rw (a, b, c, d, new_tile_config) tt
                | inl d ↦ elim (Option-cases (divide sys.cap_inbuf vector)) [
                  | inl p ↦ rw (a, b, c, d, p, new_tile_config) tt
                  | inr (hi, p) ↦ elim (Option-cases (divide sys.cap_aggrbuf vector)) [
                    | inl q ↦ rw (a, b, c, d, p, q, new_tile_config) tt
                    | inr (wi, q) ↦ elim (Option-cases (divide sys.cap_comb_inbuf (h * db))) [
                      | inl r ↦ rw (a, b, c, d, p, q, r, new_tile_config) tt
                      | inr (ib, r) ↦ elim (Option-cases (divide sys.cap_outbuf (w * db))) [
                        | inl s ↦ rw (a, b, c, d, p, q, r, s, new_tile_config) tt
                        | inr (ob, s) ↦ elim (Bool-cases (ltb 1 (min ib ob))) [
                          | inr m ↦ rw (a, b, c, d, p, q, r, s, m, new_tile_config) tt
                          | inl m ↦
                              rw (a, b, c, d, p, q, r, s, m, new_tile_config)
                                (tiling sys layer num_vertex block h w hi wi ib ob
                                  (ground (arith, b)) (subst (AreaOf sys.cap_wbuf db) c area)
                                  (ground (arith, d)) (ground (arith, d)) (divide-some _ _ p).1
                                  (divide-some _ _ q).1 (divide-some _ _ r).1 (divide-some _ _ s).1
                                  (ground (arith, m)) (divide-some _ _ s).0)
                        ]
                      ]
                    ]
                  ]
                ]
              ]
            ]
      ]
    ]

-- A tiling that the constructor comes to: a block of the weights fits the weight buffer, a batch of
-- input slices and one of output slices fit theirs, the features of a window of sources fit the input
-- buffer and the sums of a chunk of vertices the aggregation buffer; the blocks cover the weights; a
-- batch has at least two vertices; and the space of the weights is that of the blocks, that of a block
-- is that of its slices, which are not empty.
pub new_tile_config-IsTiling :
    (sys : SysConfig) (layer : LayerConfig) (num_vertex : ℕ) {t : TileConfig}
    → new_tile_config sys layer num_vertex ≡ some t
    → IsTiling sys layer t
new_tile_config-IsTiling sys layer num_vertex e =
    subst (TilingOf sys layer) e (new_tile_config-TilingOf sys layer num_vertex)

-- A tiling is of elements of at least a byte.
pub new_tile_config-sized :
    (sys : SysConfig) (layer : LayerConfig) (num_vertex : ℕ) {t : TileConfig}
    → new_tile_config sys layer num_vertex ≡ some t
    → 0 < layer.data_bytes
unfolding new_tile_config
new_tile_config-sized sys layer num_vertex e =
    let (_, run, _) = >>=-eq-some (divide sys.block_size layer.data_bytes) _ e in
    (divide-some sys.block_size layer.data_bytes run).0
