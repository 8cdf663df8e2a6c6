-- ===== src/Aggr/Tests.antt =====
-- The request of the second chunk of edges of a small graph, whose weights take less than the edge buffer.
use hy_gcn_a_gcn_accelerator.Base.{
  ℕ, ◌≡◌, ◌+◌, ◌-◌, ◌*◌, ◌≤◌, ◌<◌, ◌++◌, some, [], ◌∷◌, refl, arith, pos, false,
}
use hy_gcn_a_gcn_accelerator.Event
use hy_gcn_a_gcn_accelerator.Event.{dram, read, edge}
use hy_gcn_a_gcn_accelerator.Tool.{upper_align}
use hy_gcn_a_gcn_accelerator.AggrBuf
use hy_gcn_a_gcn_accelerator.Coordinator.{empty, add_event}
use hy_gcn_a_gcn_accelerator.Partition.{partition, start_edge, stop_point, entries, all_empty}
use hy_gcn_a_gcn_accelerator.Spma
use hy_gcn_a_gcn_accelerator.Config.{space_aligned_vertex, space_aligned_output_vertex}
use hy_gcn_a_gcn_accelerator.Config.Mapper.Regions.{Regions, new_mapper-Regions}
use hy_gcn_a_gcn_accelerator.Config.Init.Built.{init-IsBuilt}
use hy_gcn_a_gcn_accelerator.Config.Init.Tests.{files, first_layer, starts}
use hy_gcn_a_gcn_accelerator.Aggr.{World}
use hy_gcn_a_gcn_accelerator.Aggr.Filling.{fill_ebuf}
use hy_gcn_a_gcn_accelerator.Aggr.Chunks.{fill_ebuf-request}

abbrev waiting : World
unfolding AggrBuf.new
waiting = record {
  aggr = record {
    edge_chunk_cnt = 1;
    num_edge_chunk = 2;
    is_done = false;
    ebuf = Spma.new 1024 ∷ Spma.new 1024 ∷ [];
    inbuf = [];
    simds = [];
    event_out = 0;
    event_in = 0;
    clk = 0;
    end_clk = 0;
  };
  aggr_buf = AggrBuf.new 1024 32 32;
  coordinator = empty;
}

abbrev filled : World
unfolding waiting Spma.new Event.new
filled = record waiting {
  aggr = record waiting.aggr {
    edge_chunk_cnt = 2;
    ebuf =
        record (Spma.new 1024) {
          start_vertex = some 2;
          end_vertex = some 3;
          edge_chunk_id = 1;
          num_edge_part = some 1;
          edge_parts = ((2 ∷ []) ∷ []) ∷ [];
          state = Spma.filling;
          event_cnt = pos 1;
        }
        ∷ Spma.new 1024
        ∷ [];
  };
  coordinator = record empty {
    store = Event.new 32 704 256 dram read edge ∷ [];
    edges = 0 ∷ [];
    byte_edge_read = 256;
  };
}

run : fill_ebuf first_layer 0 waiting ≡ some filled
unfolding fill_ebuf waiting filled add_event partition start_edge stop_point entries all_empty
    Spma.switch_state Spma.new Event.new
run = refl

layout :
    Regions first_layer.sys_config first_layer.layer_config first_layer.tile_config 3
      first_layer.mapper
unfolding space_aligned_vertex space_aligned_output_vertex upper_align
layout =
    new_mapper-Regions first_layer.sys_config first_layer.layer_config first_layer.tile_config 3
      first_layer.raw_graph.r_adj (init-IsBuilt files 0 0 starts).mapped
      (omega arith, omega arith, omega arith, omega arith)

fill_ebuf-request_example :
    (addr bytes : ℕ) × (filled.coordinator.store
      ≡ waiting.coordinator.store ++ (Event.new 32 addr bytes dram read edge ∷ []))
    × (1024 ≤ 256 → (addr ≡ 448 + 1 * 1024) × (bytes ≡ 1024))
    × (256 < 1024 → (addr + 1 * (1024 - 256) ≡ 448 + 1 * 1024) × (bytes + (1024 - 256) ≡ 1024))
unfolding waiting
fill_ebuf-request_example = fill_ebuf-request first_layer 0 waiting layout (omega arith) run
