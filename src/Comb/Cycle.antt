-- ===== src/Comb/Cycle.antt =====
-- comb.cpp, `ClockTick`: the engine serves the systolic array, and then its buffers.
use hy_gcn_a_gcn_accelerator.Base.{
  ◌+◌, true, Option, none, some, ◌==◌, ◌&&◌, not, if◌then◌else◌, ◌>>=◌, get_elem?, u64,
}
use hy_gcn_a_gcn_accelerator.Spm
use hy_gcn_a_gcn_accelerator.Spm.{
  Spm, get_target_buf, confirm_event, event_done, add_events, set_matrix_shape,
}
use hy_gcn_a_gcn_accelerator.SystolicArray
use hy_gcn_a_gcn_accelerator.SystolicArray.{SystolicArray, Matrix}
use hy_gcn_a_gcn_accelerator.Config.Layers.{HyConfig}
use hy_gcn_a_gcn_accelerator.Comb.{
  Comb, World, update, to_state, get_ready_for_compute, fetch_next_block,
}
use hy_gcn_a_gcn_accelerator.Comb.Traffic.{gen_comb_data_flow}

-- `ClockTick`, `ArrayState::DONE`: the buffers are given back, once no other is being written.
unfoldable pub collect : World → Option World
collect w = elim w.comb.writing_outbuf_ptr [
  | some _ ↦ some w
  | none ↦ do
    let c = w.comb
    let bind = w.array.binding
    let last = (bind.output_chunk + 1) == c.num_output_chunk
    inbuf ← update (to_state (if last then Spm.idle else Spm.ready)) bind.cur_inbuf c.inbuf
    wbuf ← update (to_state Spm.idle) bind.cur_wbuf c.wbuf
    outbuf ← update (to_state Spm.writing) bind.cur_outbuf c.outbuf
    some (record w {
      array = SystolicArray.get_result w.array;
      comb = record c {
        inbuf = inbuf;
        wbuf = wbuf;
        outbuf = outbuf;
        o_slice_cnt = 0;
        writing_outbuf_ptr = c.filling_outbuf_ptr;
      };
    })
]

-- The array takes the buffers of the engine `c`, which goes on to the next block.
unfoldable pub start_array : World → Comb → Option World
start_array w c = do
  i ← get_target_buf c.inbuf Spm.draining
  j ← get_target_buf c.wbuf Spm.draining
  ib ← get_elem? c.inbuf i
  wb ← get_elem? c.wbuf j
  array ←
      SystolicArray.set_matrix w.array (record { h = ib.matrix_h; w = ib.matrix_w })
        (record { h = wb.matrix_h; w = wb.matrix_w })
  let array' = SystolicArray.set_buf_config array c.inbuf_ptr c.wbuf_ptr c.filling_outbuf_ptr
  some (record w {
    array = SystolicArray.set_block_config array' c.input_chunk_cnt c.output_chunk_cnt;
    comb = fetch_next_block c;
  })

-- `ArrayState::IDLE`: the array takes the buffers that are ready.
unfoldable pub launch : World → Option World
unfolding start_array
launch w = do
  (c, ready) ← get_ready_for_compute w.comb
  if ready then start_array w c else some (record w { comb = c })

-- The `switch` over the state of the array.
unfoldable pub serve_array : World → Option World
unfolding collect launch
serve_array w = elim (SystolicArray.get_state w.array) [
  | SystolicArray.out_sync ↦ none
  | SystolicArray.finished ↦ collect w
  | SystolicArray.idle ↦ launch w
  | _ ↦ some w
]

-- The end of `ClockTick`.
unfoldable pub count_cycle : Comb → Comb
count_cycle c =
    let t = record c { clk = u64 (c.clk + 1) } in
    if (t.vertex_ptr == t.halt_vertex) && not t.is_done
    then record t { is_done = true; end_clk = t.clk }
    else t

unfoldable pub clock_tick : HyConfig → World → Option World
clock_tick hy w = do
  w₁ ← serve_array (record w { array = SystolicArray.clock_tick w.array })
  w₂ ← gen_comb_data_flow hy w₁
  some (record w₂ { comb = count_cycle w₂.comb })
