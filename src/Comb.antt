-- ===== src/Comb.antt =====
-- hygcn/dataflow/comb.h and comb.cpp: the combination engine. Batches of aggregated vertices and
-- blocks of the weights are fetched into double buffers, multiplied in the systolic array and written
-- back. It works on the aggregation buffer and the coordinator that it shares with the other engine.
-- The -1 of a buffer pointer is `none`.
pub mod Traffic
pub mod Cycle
pub mod Weights
pub mod Slots
pub mod Protocol
pub mod View
pub mod ArrayView
pub mod Simulation
pub mod Requests
pub mod FetchMoves
pub mod TrafficMoves
pub mod Reach
pub mod Search
pub mod Asserts
pub mod Columns
pub mod Configured
pub mod Serves
pub mod Quiet
pub mod Early
pub mod Script
mod Tests
use hy_gcn_a_gcn_accelerator.Base.{
  ℕ, ◌+◌, ◌-◌, ◌*◌, ◌/◌, Bool, true, false, Option, none, some, List, [], ◌∷◌, pos, negsuc, leb,
  ltb, ◌==◌, ◌&&◌, not, if◌then◌else◌, ◌>>=◌, ◌>>◌, check, get_elem?, set, u64,
}
use hy_gcn_a_gcn_accelerator.Event.{
  EventDataType, edram, dram, read, write, edge, weight, input_feature, aggr_feature,
  output_feature, none_data,
}
use hy_gcn_a_gcn_accelerator.Event
use hy_gcn_a_gcn_accelerator.Spm
use hy_gcn_a_gcn_accelerator.Spm.{
  Spm, get_target_buf, confirm_event, event_done, add_events, set_matrix_shape,
}
use hy_gcn_a_gcn_accelerator.AggrBuf.{AggrBuf, get_ready_vertex_num, start_comb, confirm_comb}
use hy_gcn_a_gcn_accelerator.Coordinator.{Coordinator, add_event}
use hy_gcn_a_gcn_accelerator.SystolicArray
use hy_gcn_a_gcn_accelerator.SystolicArray.{SystolicArray, Matrix}
use hy_gcn_a_gcn_accelerator.Config.{space_aligned_vertex, space_aligned_output_vertex}
use hy_gcn_a_gcn_accelerator.Config.Layers.{HyConfig}

pub record Comb : Type 0 where
  pub clk : ℕ
  pub end_clk : ℕ
  pub is_done : Bool
  pub num_input_chunk : ℕ
  pub num_output_chunk : ℕ
  pub sz_input_chunk : ℕ
  pub sz_output_chunk : ℕ
  pub sz_max_batch : ℕ
  pub input_chunk_cnt : ℕ
  pub output_chunk_cnt : ℕ
  pub w_slice_cnt : ℕ
  pub i_slice_cnt : ℕ
  pub o_slice_cnt : ℕ
  pub inbuf_ptr : Option ℕ
  pub wbuf_ptr : Option ℕ
  pub filling_outbuf_ptr : Option ℕ
  pub writing_outbuf_ptr : Option ℕ
  pub enable_fetch : Bool
  pub inbuf : List Spm
  pub wbuf : List Spm
  pub outbuf : List Spm
  pub start_vertex : ℕ
  pub end_vertex : ℕ
  pub vertex_ptr : ℕ
  pub halt_vertex : ℕ

-- The engine with what it works on.
pub record World : Type 0 where
  pub comb : Comb
  pub array : SystolicArray
  pub aggr_buf : AggrBuf
  pub coordinator : Coordinator

-- The constructor; `junk` is the shape that a buffer starts with.
unfoldable pub new : HyConfig → ℕ → Comb
new hy junk = record {
  clk = 0;
  end_clk = 0;
  is_done = false;
  num_input_chunk = hy.tile_config.num_comb_h_chunk;
  num_output_chunk = hy.tile_config.num_comb_w_chunk;
  sz_input_chunk = hy.tile_config.sz_comb_h_chunk;
  sz_output_chunk = hy.tile_config.sz_comb_w_chunk;
  sz_max_batch = hy.tile_config.sz_comb_batch;
  input_chunk_cnt = 0;
  output_chunk_cnt = 0;
  w_slice_cnt = 0;
  i_slice_cnt = 0;
  o_slice_cnt = 0;
  inbuf_ptr = none;
  wbuf_ptr = none;
  filling_outbuf_ptr = none;
  writing_outbuf_ptr = none;
  enable_fetch = true;
  inbuf = two hy.sys_config.cap_comb_inbuf;
  wbuf = two hy.sys_config.cap_wbuf;
  outbuf = two hy.sys_config.cap_outbuf;
  start_vertex = 0;
  end_vertex = 0;
  vertex_ptr = 0;
  halt_vertex = hy.raw_graph.num_vertex;
}
  where
    two : ℕ → List Spm
    two cap = Spm.new junk junk cap ∷ Spm.new junk junk cap ∷ []

unfoldable pub set_halt_vertex : Comb → ℕ → Comb
set_halt_vertex c vid = record c { halt_vertex = vid }

abbrev pub get_idle_buf : List Spm → Option ℕ
get_idle_buf buf = get_target_buf buf Spm.idle

abbrev pub get_ready_buf : List Spm → Option ℕ
get_ready_buf buf = get_target_buf buf Spm.ready

-- `buf[ptr]` is replaced by what `f` makes of it.
abbrev pub update : (Spm → Spm) → Option ℕ → List Spm → Option (List Spm)
update f none bufs = none
update f (some i) bufs = get_elem? bufs i >>= λ b. some (set bufs i (f b))

abbrev pub to_state : Spm.State → Spm → Spm
to_state st b = Spm.switch_state b st

-- `GetReadyForCompute`; the flag is its result.
unfoldable pub get_ready_for_compute : Comb → Option (Comb × Bool)
get_ready_for_compute c = elim (get_ready_buf c.inbuf) [
  | none ↦ some (c, false)
  | some i ↦ elim (get_ready_buf c.wbuf) [
    | none ↦ some (c, false)
    | some j ↦ elim (get_idle_buf c.outbuf) [
      | none ↦ some (c, false)
      | some k ↦ do
        ib ← get_elem? c.inbuf i
        wb ← get_elem? c.wbuf j
        ob ← get_elem? c.outbuf k
        let ob' =
            set_matrix_shape (add_events (to_state Spm.filling ob) ib.matrix_h) ib.matrix_h
              wb.matrix_w
        some (
          record c {
            inbuf = set c.inbuf i (to_state Spm.draining ib);
            wbuf = set c.wbuf j (to_state Spm.draining wb);
            outbuf = set c.outbuf k ob';
            filling_outbuf_ptr = some k;
          },
          true,
        )
    ]
  ]
]

unfoldable pub fetch_next_block : Comb → Comb
fetch_next_block c =
    let t =
      if (c.output_chunk_cnt + 1) == c.num_output_chunk
      then record c {
        output_chunk_cnt = 0;
        input_chunk_cnt = c.input_chunk_cnt + 1;
        inbuf_ptr = none;
        wbuf_ptr = none;
      }
      else record c { output_chunk_cnt = c.output_chunk_cnt + 1; wbuf_ptr = none } in
    if t.input_chunk_cnt == t.num_input_chunk then t else record t { enable_fetch = true }

-- `BatchVertex`. A negative number of ready vertices fails the `assert`.
unfoldable pub batch_vertex : World → Option World
batch_vertex w = elim (get_ready_vertex_num w.aggr_buf) [
  | negsuc n ↦ none
  | pos ready_num ↦
      let start = w.aggr_buf.comb_ptr.vertex in
      let num = if leb w.comb.sz_max_batch ready_num then w.comb.sz_max_batch else ready_num in
      some (
        if ltb 0 ready_num
        then record w {
          comb = record w.comb {
            start_vertex = start;
            end_vertex = start + num;
            vertex_ptr = start;
          };
          aggr_buf = start_comb w.aggr_buf num;
        }
        else w)
]

unfoldable pub next_batch : World → Option World
next_batch w = do
  let c = w.comb
  check (c.input_chunk_cnt == c.num_input_chunk)
  some (record w {
    comb = record c {
      input_chunk_cnt = 0;
      output_chunk_cnt = 0;
      enable_fetch = true;
      vertex_ptr = c.end_vertex;
    };
    aggr_buf = confirm_comb w.aggr_buf (c.end_vertex - c.start_vertex);
  })

-- `ProcessReturnedEvent`, of an event of the data type.
unfoldable pub process_returned_event : EventDataType → Comb → Option Comb
process_returned_event aggr_feature c =
    update confirm_event c.inbuf_ptr c.inbuf >>= λ bufs. some (record c { inbuf = bufs })
process_returned_event weight c =
    update confirm_event c.wbuf_ptr c.wbuf >>= λ bufs. some (record c { wbuf = bufs })
process_returned_event output_feature c =
    update confirm_event c.writing_outbuf_ptr c.outbuf >>= λ bufs. some (record c { outbuf = bufs })
process_returned_event edge c = none
process_returned_event input_feature c = none
process_returned_event none_data c = none
