-- ===== src/Config/Tests.antt =====
-- The tiling of 20 by 10 weights on small buffers.
use hy_gcn_a_gcn_accelerator.Base.{◌≡◌, refl, some, minus_one}
use hy_gcn_a_gcn_accelerator.Config.{
  SysConfig, LayerConfig, TileConfig, gcn, new_tile_config, comb_chunk, sqrt, space_aligned_vertex,
}
use hy_gcn_a_gcn_accelerator.Config.Tiles.{IsTiling, new_tile_config-IsTiling}
use hy_gcn_a_gcn_accelerator.Tool.{upper_align, lower_align}

abbrev pub small : SysConfig
small = record {
  block_size = 32;
  cap_hbm = 65536;
  num_simd = 2;
  num_core_per_simd = 4;
  systolic_h = 4;
  systolic_w = 4;
  cap_inbuf = 960;
  cap_edgebuf = 256;
  cap_wbuf = 1024;
  cap_outbuf = 1024;
  cap_aggrbuf = 960;
  cap_comb_inbuf = 1024;
}

abbrev pub layer : LayerConfig
layer = record {
  model_name = gcn;
  sample = minus_one;
  weight_h = 20;
  weight_w = 10;
  data_bytes = 4;
  idx_bytes = 4;
  num_layer = 1;
  layers_done = 0;
}

-- The weights take two blocks of 16 by 16, in batches of 16 vertices.
abbrev pub tiles : TileConfig
tiles = record {
  sz_comb_batch = 16;
  sz_comb_h_chunk = 64;
  sz_comb_w_chunk = 64;
  ele_comb_h_chunk = 16;
  ele_comb_w_chunk = 16;
  num_comb_h_chunk = 2;
  num_comb_w_chunk = 1;
  aligned_weight_h = 24;
  aligned_weight_w = 16;
  space_weight_block = 1024;
  space_aligned_weight = 2048;
  ele_aggr_h_interval = 10;
  ele_aggr_w_interval = 10;
}

pub comes : new_tile_config small layer 100 ≡ some tiles
unfolding new_tile_config comb_chunk sqrt space_aligned_vertex upper_align lower_align
comes = refl

new_tile_config-IsTiling_example : IsTiling small layer tiles
new_tile_config-IsTiling_example = new_tile_config-IsTiling small layer 100 comes
