-- ===== src/Config/Init/Tests.antt =====
-- A run of model gcn on a graph of three vertices.
use hy_gcn_a_gcn_accelerator.Base.{
  ℕ, ◌≡◌, arith, refl, pos, some, none, List, [], ◌∷◌, if◌then◌else◌, length, get_elem?, sum_by,
}
use hy_gcn_a_gcn_accelerator.Text.{codes, same_text, digits_from, atoi, cut_at}
use hy_gcn_a_gcn_accelerator.SortedSet.{insert, insert_all}
use hy_gcn_a_gcn_accelerator.Tool.{upper_align}
use hy_gcn_a_gcn_accelerator.Graph.{Graph, get_gcn_norm_graph, norm_rows}
use hy_gcn_a_gcn_accelerator.Graph.Load.{
  push_at, two_ids, load_edges, read_info, load_info, is_known, given, with_edges, load_graph,
}
use hy_gcn_a_gcn_accelerator.Graph.Norm.{IsNormal}
use hy_gcn_a_gcn_accelerator.Config.Mapper.{new_mapper}
use hy_gcn_a_gcn_accelerator.Config.Mapper.Regions.{Regions, new_mapper-Regions}
use hy_gcn_a_gcn_accelerator.Config.Init.Built.{init-IsBuilt}
use hy_gcn_a_gcn_accelerator.Config.Init.Runs.{init-IsNormal, init-next_layer}
use hy_gcn_a_gcn_accelerator.Config.{
  Reader, gcn, read_sys, new_tile_config, comb_chunk, space_aligned_vertex,
  space_aligned_output_vertex,
}
use hy_gcn_a_gcn_accelerator.Config.Layers.{HyConfig, read_layer, prepare_next_layer, layer_weights}
use hy_gcn_a_gcn_accelerator.Config.Init.{Files, init, next_layer, model_of, prepare_graph}

abbrev sys_reader : Reader
sys_reader section key default =
    if same_text (codes key) (codes "block_size") then pos 32 else pos 1024

abbrev pub layer_reader : Reader
layer_reader section key default =
    if same_text (codes key) (codes "num_layer") then pos 2 else pos 4

abbrev pub files : Files
files = record {
  sys_reader = sys_reader;
  layer_reader = layer_reader;
  model_name = codes "gcn";
  graph_name = codes "test";
  graph_info = some (codes "vertex,3" ∷ codes "edge,2" ∷ codes "feature,5" ∷ codes "class,7" ∷ []);
  graph_edge = some (codes "0,1" ∷ codes "2,1" ∷ []);
  sample_edge = none;
}

abbrev pub first_layer : HyConfig
first_layer = record {
  sys_config = record {
    block_size = 32;
    cap_hbm = 1099511627776;
    num_simd = 1024;
    num_core_per_simd = 1024;
    systolic_h = 1024;
    systolic_w = 1024;
    cap_inbuf = 1024;
    cap_edgebuf = 1024;
    cap_wbuf = 1024;
    cap_outbuf = 1024;
    cap_aggrbuf = 1024;
    cap_comb_inbuf = 1024;
  };
  layer_config = record {
    model_name = gcn;
    sample = pos 4;
    weight_h = 5;
    weight_w = 4;
    data_bytes = 4;
    idx_bytes = 4;
    num_layer = 2;
    layers_done = 1;
  };
  raw_graph = record {
    adj = [];
    r_adj = (0 ∷ []) ∷ (0 ∷ 1 ∷ 2 ∷ []) ∷ (2 ∷ []) ∷ [];
    num_vertex = 3;
    num_edge = 5;
    num_class = 7;
    len_feature = 5;
  };
  tile_config = record {
    sz_comb_batch = 32;
    sz_comb_h_chunk = 32;
    sz_comb_w_chunk = 32;
    ele_comb_h_chunk = 8;
    ele_comb_w_chunk = 8;
    num_comb_h_chunk = 1;
    num_comb_w_chunk = 1;
    aligned_weight_h = 8;
    aligned_weight_w = 8;
    space_weight_block = 256;
    space_aligned_weight = 256;
    ele_aggr_h_interval = 32;
    ele_aggr_w_interval = 2;
  };
  mapper = record {
    hbm_start_addr = 0;
    hbm_end_addr = 1099511627776;
    input_start_addr = 0;
    input_end_addr = 96;
    output_start_addr = 96;
    output_end_addr = 192;
    weight_start_addr = 192;
    weight_end_addr = 448;
    edge_start_addr = 448;
    edge_end_addr = 2496;
    num_edge_chunk = 2;
    start_vertex_of_echunk = 0 ∷ 2 ∷ [];
    end_vertex_of_echunk = 2 ∷ 3 ∷ [];
    edge_chunk = ((0 ∷ []) ∷ (0 ∷ 1 ∷ 2 ∷ []) ∷ []) ∷ ((2 ∷ []) ∷ []) ∷ [];
  };
}

abbrev second_layer : HyConfig
second_layer = record {
  sys_config = record {
    block_size = 32;
    cap_hbm = 1099511627776;
    num_simd = 1024;
    num_core_per_simd = 1024;
    systolic_h = 1024;
    systolic_w = 1024;
    cap_inbuf = 1024;
    cap_edgebuf = 1024;
    cap_wbuf = 1024;
    cap_outbuf = 1024;
    cap_aggrbuf = 1024;
    cap_comb_inbuf = 1024;
  };
  layer_config = record {
    model_name = gcn;
    sample = pos 4;
    weight_h = 4;
    weight_w = 7;
    data_bytes = 4;
    idx_bytes = 4;
    num_layer = 2;
    layers_done = 2;
  };
  raw_graph = record {
    adj = [];
    r_adj = (0 ∷ []) ∷ (0 ∷ 1 ∷ 2 ∷ []) ∷ (2 ∷ []) ∷ [];
    num_vertex = 3;
    num_edge = 5;
    num_class = 7;
    len_feature = 5;
  };
  tile_config = record {
    sz_comb_batch = 32;
    sz_comb_h_chunk = 32;
    sz_comb_w_chunk = 32;
    ele_comb_h_chunk = 8;
    ele_comb_w_chunk = 8;
    num_comb_h_chunk = 1;
    num_comb_w_chunk = 1;
    aligned_weight_h = 8;
    aligned_weight_w = 8;
    space_weight_block = 256;
    space_aligned_weight = 256;
    ele_aggr_h_interval = 32;
    ele_aggr_w_interval = 2;
  };
  mapper = record {
    hbm_start_addr = 0;
    hbm_end_addr = 1099511627776;
    input_start_addr = 0;
    input_end_addr = 96;
    output_start_addr = 96;
    output_end_addr = 192;
    weight_start_addr = 192;
    weight_end_addr = 448;
    edge_start_addr = 448;
    edge_end_addr = 2496;
    num_edge_chunk = 2;
    start_vertex_of_echunk = 0 ∷ 2 ∷ [];
    end_vertex_of_echunk = 2 ∷ 3 ∷ [];
    edge_chunk = ((0 ∷ []) ∷ (0 ∷ 1 ∷ 2 ∷ []) ∷ []) ∷ ((2 ∷ []) ∷ []) ∷ [];
  };
}

pub starts : init files 0 0 ≡ some first_layer
unfolding init read_sys model_of read_layer load_graph is_known load_info read_info with_edges given
    load_edges two_ids push_at digits_from atoi cut_at prepare_graph get_gcn_norm_graph norm_rows
    insert insert_all comb_chunk prepare_next_layer same_text new_tile_config upper_align
    layer_weights space_aligned_vertex new_mapper space_aligned_output_vertex
starts = refl

goes_on : next_layer layer_reader first_layer ≡ some (some second_layer)
unfolding next_layer prepare_next_layer same_text new_tile_config upper_align layer_weights
    space_aligned_vertex new_mapper space_aligned_output_vertex
goes_on = refl

init-IsNormal_example :
    (raw : Graph) × (load_graph files.graph_name files.graph_info files.graph_edge ≡ some raw)
    × (length first_layer.raw_graph.r_adj ≡ raw.num_vertex)
    × (first_layer.raw_graph.num_edge ≡ sum_by length first_layer.raw_graph.r_adj)
    × ((v : ℕ) (row : List ℕ)
        → get_elem? raw.r_adj v ≡ some row
        → (normal : List ℕ) × (get_elem? first_layer.raw_graph.r_adj v ≡ some normal)
          × IsNormal v row normal)
init-IsNormal_example = init-IsNormal files 0 0 starts (λ e. cc)

init-next_layer_example :
    (first_layer.layer_config.layers_done ≡ 1)
    × (second_layer.layer_config.layers_done ≡ 2)
    × (second_layer.raw_graph ≡ first_layer.raw_graph)
    × (next_layer layer_reader second_layer ≡ some none)
init-next_layer_example = init-next_layer files 0 0 starts goes_on

new_mapper-Regions_example :
    Regions first_layer.sys_config first_layer.layer_config first_layer.tile_config 3
      first_layer.mapper
unfolding space_aligned_vertex space_aligned_output_vertex upper_align
new_mapper-Regions_example =
    new_mapper-Regions first_layer.sys_config first_layer.layer_config first_layer.tile_config 3
      first_layer.raw_graph.r_adj (init-IsBuilt files 0 0 starts).mapped
      (omega arith, omega arith, omega arith, omega arith)
