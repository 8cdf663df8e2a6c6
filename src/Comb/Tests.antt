-- ===== src/Comb/Tests.antt =====
-- The request of a slice of the weights in the tiling of 20 by 10 weights.
mod Data
mod Columns
mod Runs
mod Configured
use hy_gcn_a_gcn_accelerator.Base.{◌+◌, ◌≤◌, ◌≡◌, refl, arith, some, none, [], ◌∷◌, ◌++◌, length}
use hy_gcn_a_gcn_accelerator.Event
use hy_gcn_a_gcn_accelerator.Event.{dram, read, weight}
use hy_gcn_a_gcn_accelerator.AggrBuf
use hy_gcn_a_gcn_accelerator.Coordinator.{Coordinator, empty}
use hy_gcn_a_gcn_accelerator.SystolicArray
use hy_gcn_a_gcn_accelerator.SystolicArray.{Matrix, Binding, Tiling}
use hy_gcn_a_gcn_accelerator.Graph.{Graph}
use hy_gcn_a_gcn_accelerator.Config.Mapper.{AddrMapper}
use hy_gcn_a_gcn_accelerator.Config.Layers.{HyConfig}
use hy_gcn_a_gcn_accelerator.Config.Tests.{small, layer, tiles, comes}
use hy_gcn_a_gcn_accelerator.Config.Tiles.{new_tile_config-IsTiling}
use hy_gcn_a_gcn_accelerator.Comb
use hy_gcn_a_gcn_accelerator.Comb.{Comb, World}
use hy_gcn_a_gcn_accelerator.Comb.Traffic.{fetch_weights}
use hy_gcn_a_gcn_accelerator.Comb.Weights.{InRange, weight_addr, fetch_weights-issues}

abbrev pub graph : Graph
graph = record {
  adj = [];
  r_adj = [];
  num_vertex = 100;
  num_edge = 0;
  num_class = 3;
  len_feature = 20;
}

abbrev pub mapper : AddrMapper
mapper = record {
  hbm_start_addr = 0;
  hbm_end_addr = 65536;
  input_start_addr = 0;
  input_end_addr = 9600;
  output_start_addr = 9600;
  output_end_addr = 16000;
  weight_start_addr = 16000;
  weight_end_addr = 18048;
  edge_start_addr = 18048;
  edge_end_addr = 18048;
  num_edge_chunk = 0;
  start_vertex_of_echunk = 0 ∷ [];
  end_vertex_of_echunk = [];
  edge_chunk = [];
}

abbrev hy : HyConfig
hy = record {
  sys_config = small;
  layer_config = layer;
  raw_graph = graph;
  tile_config = tiles;
  mapper = mapper;
}

abbrev pub no_matrix : Matrix
no_matrix = record { h = 0; w = 0 }

abbrev pub idle_tiling : Tiling
idle_tiling = record {
  a = no_matrix;
  w = no_matrix;
  sz_output = 0;
  ele_h_tile = 0;
  ele_w_tile = 0;
  ele_batch = 0;
  ele_last_batch = 0;
  num_h_tile = 0;
  num_w_tile = 0;
  num_batch = 0;
  h_tile_cnt = 0;
  w_tile_cnt = 0;
  batch_cnt = 0;
}

abbrev pub unbound : Binding
unbound = record {
  cur_inbuf = none;
  cur_outbuf = none;
  cur_wbuf = none;
  input_chunk = 0;
  output_chunk = 0;
}

-- The sixth slice of the second block.
abbrev world : World
unfolding Comb.new SystolicArray.new AggrBuf.new
world = record {
  comb = record (Comb.new hy 0) { input_chunk_cnt = 1; w_slice_cnt = 5 };
  array = SystolicArray.new 4 4 1024 4 unbound idle_tiling;
  aggr_buf = AggrBuf.new 960 96 32;
  coordinator = empty;
}

in_range : InRange hy world.comb
unfolding Comb.new world
in_range = record {
  rows = refl;
  cols = refl;
  wide = refl;
  row = omega arith;
  col = omega arith;
  slice = omega arith;
  region = refl;
  no_wrap = omega arith;
}

fetch_weights-issues_example :
    let addr = weight_addr hy world.comb in
    (c : Coordinator) × (fetch_weights hy world
      ≡ some (record world {
        coordinator = c;
        comb = record world.comb { w_slice_cnt = world.comb.w_slice_cnt + 1 };
      }))
    × (c.store ≡ world.coordinator.store ++ (Event.new 32 addr 64 dram read weight ∷ []))
    × (c.weights ≡ world.coordinator.weights ++ (length world.coordinator.store ∷ []))
    × (16000 ≤ addr)
    × (addr + 64 ≤ 18048)
fetch_weights-issues_example =
    fetch_weights-issues hy world (new_tile_config-IsTiling small layer 100 comes) in_range
