-- ===== src/Aggr.antt =====
-- hygcn/dataflow/aggr.h and aggr.cpp: the aggregation engine. Edge buffers are filled with chunks of
-- edges, input buffers with the features of the sources of one part of a chunk, and the SIMD cores
-- add the features up, a vertex and a chunk of features each. The engine works on the aggregation
-- buffer and the coordinator that it shares with the other engine.
pub mod Filling
pub mod Chunks
pub mod Tasks
pub mod Cycle
mod Tests
use hy_gcn_a_gcn_accelerator.Base.{
  ℕ, zero, suc, ◌+◌, ◌-◌, ◌*◌, min, Bool, true, false, Option, none, some, List, [], ◌∷◌, leb, ltb,
  ◌==◌, ◌&&◌, not, if◌then◌else◌, ◌>>=◌, ◌>>◌, check, length, get_elem?, set, u64, ceil_div,
  first_from, replicate,
}
use hy_gcn_a_gcn_accelerator.Event.{
  Event, EventDataType, edram, dram, read, write, read_aggr, edge, weight, input_feature,
  aggr_feature, output_feature, none_data,
}
use hy_gcn_a_gcn_accelerator.Event
use hy_gcn_a_gcn_accelerator.Simd
use hy_gcn_a_gcn_accelerator.Simd.{Simd}
use hy_gcn_a_gcn_accelerator.Spma
use hy_gcn_a_gcn_accelerator.Spma.{
  Spma, is_in, confirm_event, event_done, add_events, get_target_buf, all_buf_idle,
}
use hy_gcn_a_gcn_accelerator.AggrBuf.{
  AggrBuf, get_aggr_write_addr, confirm_aggr, start_aggr, will_allocate,
}
use hy_gcn_a_gcn_accelerator.Coordinator.{Coordinator, add_event}
use hy_gcn_a_gcn_accelerator.Partition.{partition, sparsity_elimination, is_empty}
use hy_gcn_a_gcn_accelerator.Config.{space_aligned_vertex}
use hy_gcn_a_gcn_accelerator.Config.Layers.{HyConfig}

pub record Aggr : Type 0 where
  pub edge_chunk_cnt : ℕ
  pub num_edge_chunk : ℕ
  pub is_done : Bool
  pub ebuf : List Spma
  pub inbuf : List Spma
  pub simds : List Simd
  pub event_out : ℕ
  pub event_in : ℕ
  pub clk : ℕ
  pub end_clk : ℕ

-- The engine with what it shares.
pub record World : Type 0 where
  pub aggr : Aggr
  pub aggr_buf : AggrBuf
  pub coordinator : Coordinator

unfoldable pub new : HyConfig → Aggr
new hy = record {
  edge_chunk_cnt = 0;
  num_edge_chunk = hy.mapper.num_edge_chunk;
  is_done = false;
  ebuf = Spma.new hy.sys_config.cap_edgebuf ∷ Spma.new hy.sys_config.cap_edgebuf ∷ [];
  inbuf = Spma.new hy.sys_config.cap_inbuf ∷ Spma.new hy.sys_config.cap_inbuf ∷ [];
  simds = replicate hy.sys_config.num_simd (Simd.new hy.sys_config.num_core_per_simd);
  event_out = 0;
  event_in = 0;
  clk = 0;
  end_clk = 0;
}

-- `end_vertex - start_vertex`. A buffer in use has both; a negative count is outside the model.
abbrev pub num_vertex_of : Spma → Option ℕ
num_vertex_of b = do
  start ← b.start_vertex
  end ← b.end_vertex
  check (leb start end)
  some (end - start)

abbrev pub set_ebuf : ℕ → Spma → World → World
set_ebuf i b w = record w { aggr = record w.aggr { ebuf = set w.aggr.ebuf i b } }

abbrev pub set_inbuf : ℕ → Spma → World → World
set_inbuf i b w = record w { aggr = record w.aggr { inbuf = set w.aggr.inbuf i b } }

-- `coordinator->AddEvent(event)`.
abbrev pub send : Event → World → Option World
send e w = add_event w.coordinator e >>= λ c. some (record w { coordinator = c })

-- A buffer that is being filled takes one event off, and is ready after the last.
unfoldable pub confirm_fill : List Spma → Option (List Spma)
confirm_fill bufs = do
  i ← get_target_buf bufs Spma.filling
  b ← get_elem? bufs i
  let b' = confirm_event b
  some (set bufs i (if event_done b' then Spma.switch_state b' Spma.ready else b'))

-- `HandleReturnEvent`, of an event of the data type.
unfoldable pub handle_return_event : EventDataType → Aggr → Option Aggr
handle_return_event edge a = confirm_fill a.ebuf >>= λ bufs. some (record a { ebuf = bufs })
handle_return_event input_feature a =
    confirm_fill a.inbuf >>= λ bufs. some (record a { inbuf = bufs })
handle_return_event aggr_feature a = some (record a { event_in = u64 (a.event_in + 1) })
handle_return_event weight a = none
handle_return_event output_feature a = none
handle_return_event none_data a = none
