-- ===== src/Aggr/Cycle.antt =====
-- aggr.cpp, `ClockTick`: the results of the SIMD cores, and then the data flow of a cycle.
use hy_gcn_a_gcn_accelerator.Base.{
  ℕ, ◌+◌, true, false, Option, none, some, List, [], ◌∷◌, ◌==◌, ◌&&◌, not, if◌then◌else◌, ◌>>=◌,
  ◌>>◌, check, get_elem?, u64,
}
use hy_gcn_a_gcn_accelerator.Event.{
  Event, EventDataType, edram, dram, read, write, read_aggr, edge, weight, input_feature,
  aggr_feature, output_feature, none_data,
}
use hy_gcn_a_gcn_accelerator.Event
use hy_gcn_a_gcn_accelerator.Simd
use hy_gcn_a_gcn_accelerator.Simd.{Simd}
use hy_gcn_a_gcn_accelerator.Spma
use hy_gcn_a_gcn_accelerator.Spma.{
  Spma, is_in, confirm_event, event_done, add_events, get_target_buf, all_buf_idle,
}
use hy_gcn_a_gcn_accelerator.AggrBuf.{get_aggr_write_addr, confirm_aggr}
use hy_gcn_a_gcn_accelerator.Config.Layers.{HyConfig}
use hy_gcn_a_gcn_accelerator.Aggr.{Aggr, World, num_vertex_of, set_ebuf, set_inbuf, send}
use hy_gcn_a_gcn_accelerator.Aggr.Filling.{gen_edges, gen_inputs}
use hy_gcn_a_gcn_accelerator.Aggr.Tasks.{gen_tasks}

-- An input buffer whose tasks are all done takes one event off its edge buffer; the last of these
-- confirms the vertices of the chunk.
unfoldable pub confirm_part : ℕ → World → Option World
confirm_part i w = do
  eb ← get_elem? w.aggr.ebuf i
  let eb' = confirm_event eb
  if event_done eb'
      then (do
        check (is_in Spma.draining eb')
        num_vertex ← num_vertex_of eb'
        let w' = record w { aggr_buf = confirm_aggr w.aggr_buf num_vertex }
        some (set_ebuf i (Spma.switch_state eb' Spma.idle) w'))
      else some (set_ebuf i eb' w)

-- `ClockTick`, under `simd->IsReady()`: the result is written back and the input buffer is told.
unfoldable pub finish_task : HyConfig → Simd → World → Option World
unfolding confirm_part
finish_task hy s w = do
  ptr ← s.inbuf_ptr
  ib ← get_elem? w.aggr.inbuf ptr
  check (is_in Spma.draining ib)
  vertex_id ← s.vertex_id
  feature_chunk_id ← s.feature_chunk_id
  addr ← get_aggr_write_addr w.aggr_buf vertex_id feature_chunk_id
  w₁ ← send (Event.new hy.sys_config.block_size addr s.writeback_byte edram write aggr_feature) w
  let w₂ = record w₁ { aggr = record w₁.aggr { event_out = u64 (w₁.aggr.event_out + 1) } }
  let ib' = confirm_event ib
  if event_done ib'
      then (do
        bind_ebuf ← ib'.ebuf_ptr
        w₃ ← confirm_part bind_ebuf w₂
        some (set_inbuf ptr (Spma.switch_state ib' Spma.idle) w₃))
      else some (set_inbuf ptr ib' w₂)

-- The loop over the cores. The body touches no other core.
unfoldable pub tick_simds : HyConfig → List Simd → World → Option (List Simd × World)
unfolding finish_task
tick_simds hy [] w = some ([], w)
tick_simds hy (s ∷ simds) w =
    let t = Simd.clock_tick s in
    elim (Simd.is_ready t) [
      | false ↦ elim (tick_simds hy simds w) [ none ↦ none | some (ts, w') ↦ some (t ∷ ts, w') ]
      | true ↦ elim (finish_task hy t w) [
        | none ↦ none
        | some w₁ ↦ elim (tick_simds hy simds w₁) [
          | none ↦ none
          | some (ts, w') ↦ some (Simd.switch_state t Simd.idle ∷ ts, w')
        ]
      ]
    ]

unfoldable pub gen_data_flow : HyConfig → World → Option World
gen_data_flow hy w =
    if w.aggr.is_done
    then some w
    else gen_edges hy w >>= λ w₁. gen_inputs hy w₁ >>= λ w₂. gen_tasks hy w₂

-- The end of `ClockTick`.
unfoldable pub count_cycle : Aggr → Aggr
count_cycle a =
    let t = record a { clk = u64 (a.clk + 1) } in
    if all_buf_idle t.inbuf && all_buf_idle t.ebuf && (t.event_out == t.event_in) && not t.is_done
    then record t { is_done = true; end_clk = t.clk }
    else t

unfoldable pub clock_tick : HyConfig → World → Option World
unfolding tick_simds
clock_tick hy w = do
  (simds, w₁) ← tick_simds hy w.aggr.simds w
  w₂ ← gen_data_flow hy (record w₁ { aggr = record w₁.aggr { simds = simds } })
  some (record w₂ { aggr = count_cycle w₂.aggr })
