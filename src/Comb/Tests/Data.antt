-- ===== src/Comb/Tests/Data.antt =====
-- A configuration of one batch of two vertices and two blocks of the weights, each of one row of two, and
-- a run on it.
use hy_gcn_a_gcn_accelerator.Base.{pos, negsuc, false, none, some, List, [], ◌∷◌, minus_one}
use hy_gcn_a_gcn_accelerator.Event.{weight, aggr_feature, output_feature, dram, edram, read, write}
use hy_gcn_a_gcn_accelerator.AggrBuf
use hy_gcn_a_gcn_accelerator.AggrBuf.{AggrBuf}
use hy_gcn_a_gcn_accelerator.Coordinator.{empty}
use hy_gcn_a_gcn_accelerator.SystolicArray
use hy_gcn_a_gcn_accelerator.SystolicArray.{is_idle}
use hy_gcn_a_gcn_accelerator.Config.{LayerConfig, TileConfig, gcn}
use hy_gcn_a_gcn_accelerator.Config.Layers.{HyConfig}
use hy_gcn_a_gcn_accelerator.Config.Tests.{small}
use hy_gcn_a_gcn_accelerator.Comb
use hy_gcn_a_gcn_accelerator.Comb.{
  World, Comb, get_ready_for_compute, batch_vertex, process_returned_event, fetch_next_block,
  next_batch,
}
use hy_gcn_a_gcn_accelerator.Comb.Tests.{graph, mapper, unbound, idle_tiling}
use hy_gcn_a_gcn_accelerator.Spm
use hy_gcn_a_gcn_accelerator.Spm.{Spm}
use hy_gcn_a_gcn_accelerator.Comb.Script.{Act, tick, answer}

abbrev pub narrow : LayerConfig
narrow = record {
  model_name = gcn;
  sample = minus_one;
  weight_h = 1;
  weight_w = 4;
  data_bytes = 4;
  idx_bytes = 4;
  num_layer = 1;
  layers_done = 0;
}

abbrev pub two_blocks : TileConfig
two_blocks = record {
  sz_comb_batch = 2;
  sz_comb_h_chunk = 4;
  sz_comb_w_chunk = 8;
  ele_comb_h_chunk = 1;
  ele_comb_w_chunk = 2;
  num_comb_h_chunk = 1;
  num_comb_w_chunk = 2;
  aligned_weight_h = 1;
  aligned_weight_w = 4;
  space_weight_block = 8;
  space_aligned_weight = 16;
  ele_aggr_h_interval = 10;
  ele_aggr_w_interval = 10;
}

abbrev pub hy : HyConfig
hy = record {
  sys_config = small;
  layer_config = narrow;
  raw_graph = record graph { num_vertex = 2 };
  tile_config = two_blocks;
  mapper = record mapper { weight_end_addr = 16016 };
}

unfoldable pub sums : AggrBuf
unfolding AggrBuf.new AggrBuf.start_aggr AggrBuf.confirm_aggr
sums = AggrBuf.confirm_aggr (AggrBuf.start_aggr (AggrBuf.new 960 32 32) 2) 2

unfoldable pub start : World
unfolding Comb.new SystolicArray.new sums
start = record {
  comb = Comb.new hy 0;
  array = SystolicArray.new 1 1 1024 4 unbound idle_tiling;
  aggr_buf = sums;
  coordinator = empty;
}

-- The requests are answered as they come: the first block is computed and written, while the second
-- one is in the array.
abbrev pub acts : List Act
acts =
    tick
    ∷ tick
    ∷ answer weight
    ∷ answer aggr_feature
    ∷ tick
    ∷ answer aggr_feature
    ∷ tick
    ∷ tick
    ∷ tick
    ∷ answer weight
    ∷ tick
    ∷ tick
    ∷ tick
    ∷ tick
    ∷ tick
    ∷ tick
    ∷ tick
    ∷ tick
    ∷ answer output_feature
    ∷ answer output_feature
    ∷ []

abbrev pub reached : World
reached = record {
  comb = record {
    clk = 14;
    end_clk = 0;
    is_done = false;
    num_input_chunk = 1;
    num_output_chunk = 2;
    sz_input_chunk = 4;
    sz_output_chunk = 8;
    sz_max_batch = 2;
    input_chunk_cnt = 1;
    output_chunk_cnt = 0;
    w_slice_cnt = 1;
    i_slice_cnt = 2;
    o_slice_cnt = 2;
    inbuf_ptr = none;
    wbuf_ptr = none;
    filling_outbuf_ptr = some 1;
    writing_outbuf_ptr = some 0;
    enable_fetch = false;
    inbuf =
        record {
          matrix_h = 2;
          matrix_w = 8;
          state = Spm.draining;
          cap_buf = 1024;
          event_cnt = pos 0;
        }
        ∷ record { matrix_h = 0; matrix_w = 0; state = Spm.idle; cap_buf = 1024; event_cnt = pos 0 }
        ∷ [];
    wbuf =
        record { matrix_h = 1; matrix_w = 2; state = Spm.idle; cap_buf = 1024; event_cnt = pos 0 }
        ∷ record {
          matrix_h = 1;
          matrix_w = 2;
          state = Spm.draining;
          cap_buf = 1024;
          event_cnt = pos 0;
        }
        ∷ [];
    outbuf =
        record {
          matrix_h = 2;
          matrix_w = 2;
          state = Spm.writing;
          cap_buf = 1024;
          event_cnt = pos 0;
        }
        ∷ record {
          matrix_h = 2;
          matrix_w = 2;
          state = Spm.filling;
          cap_buf = 1024;
          event_cnt = pos 2;
        }
        ∷ [];
    start_vertex = 0;
    end_vertex = 2;
    vertex_ptr = 0;
    halt_vertex = 2;
  };
  array = record {
    binding = record {
      cur_inbuf = some 0;
      cur_outbuf = some 1;
      cur_wbuf = some 1;
      input_chunk = 0;
      output_chunk = 1;
    };
    tiling = record {
      a = record { h = 2; w = 8 };
      w = record { h = 1; w = 2 };
      sz_output = 8;
      ele_h_tile = 1;
      ele_w_tile = 1;
      ele_batch = 2;
      ele_last_batch = 2;
      num_h_tile = 1;
      num_w_tile = 2;
      num_batch = 1;
      h_tile_cnt = 0;
      w_tile_cnt = 1;
      batch_cnt = 0;
    };
    computing_cycle = 3;
    filling_cycle = 2;
    mac_op_cnt = 9;
    add_op_cnt = 6;
    byte_wbuf_read = 3;
    byte_aggrbuf_read = 12;
    byte_outbuf_write = 6;
    height = 1;
    width = 1;
    cap_outbuf = 1024;
    data_bytes = 4;
    state = SystolicArray.computing;
    fill_weight_cycle = negsuc 0;
    compute_cycle = pos 3;
  };
  aggr_buf = record {
    trans = [];
    aggr_ptr = record { vertex = 2; offset = 64 };
    ready_ptr = record { vertex = 2; offset = 64 };
    comb_ptr = record { vertex = 2; offset = 64 };
    done_ptr = record { vertex = 0; offset = 0 };
    sz_aggr_vector = 32;
    sz_block = 32;
    cap_edram = 960;
  };
  coordinator = record {
    store =
        record {
          address = 16000;
          bytes = 8;
          dir_type = dram;
          event_type = read;
          data_type = weight;
          trans_cnt = 0;
          confirm_cnt = 0;
          num_trans = 1;
        }
        ∷ record {
          address = 0;
          bytes = 32;
          dir_type = edram;
          event_type = read;
          data_type = aggr_feature;
          trans_cnt = 0;
          confirm_cnt = 0;
          num_trans = 1;
        }
        ∷ record {
          address = 32;
          bytes = 32;
          dir_type = edram;
          event_type = read;
          data_type = aggr_feature;
          trans_cnt = 0;
          confirm_cnt = 0;
          num_trans = 1;
        }
        ∷ record {
          address = 16008;
          bytes = 8;
          dir_type = dram;
          event_type = read;
          data_type = weight;
          trans_cnt = 0;
          confirm_cnt = 0;
          num_trans = 1;
        }
        ∷ record {
          address = 9608;
          bytes = 8;
          dir_type = dram;
          event_type = write;
          data_type = output_feature;
          trans_cnt = 0;
          confirm_cnt = 0;
          num_trans = 1;
        }
        ∷ record {
          address = 9632;
          bytes = 8;
          dir_type = dram;
          event_type = write;
          data_type = output_feature;
          trans_cnt = 0;
          confirm_cnt = 0;
          num_trans = 1;
        }
        ∷ [];
    events = [];
    edram_events = [];
    edges = [];
    inputs = [];
    weights = 0 ∷ 3 ∷ [];
    outputs = 4 ∷ 5 ∷ [];
    tmps = 1 ∷ 2 ∷ [];
    byte_edge_read = 0;
    byte_input_read = 0;
    byte_weights_read = 16;
    byte_output_write = 16;
    byte_aggr_read = 64;
    byte_aggr_write = 0;
  };
}
