-- ===== src/Comb/Configured.antt =====
-- comb.cpp on a configuration of config.cpp: what the fetches rely on is what the configuration gives.
use hy_gcn_a_gcn_accelerator.Config.Mapper.Regions.{Fits}
use hy_gcn_a_gcn_accelerator.Config.Layers.{HyConfig}
use hy_gcn_a_gcn_accelerator.SystolicArray
use hy_gcn_a_gcn_accelerator.Comb.Reach.{Reach}

-- The layout of a configuration fits.
abbrev pub FitsIn : HyConfig → Type 0
FitsIn hy =
    Fits hy.sys_config hy.layer_config hy.tile_config hy.raw_graph.num_vertex
      hy.mapper.num_edge_chunk
