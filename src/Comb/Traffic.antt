-- ===== src/Comb/Traffic.antt =====
-- comb.cpp, `GenCombDataFlow` and what it calls: the fetches of inputs and weights, and the writes of
-- outputs.
use hy_gcn_a_gcn_accelerator.Base.{
  ℕ, ◌+◌, ◌-◌, ◌*◌, ◌/◌, false, Option, none, some, leb, ltb, ◌==◌, ◌&&◌, not, if◌then◌else◌, ◌>>=◌,
  ◌>>◌, check, get_elem?, set, u64,
}
use hy_gcn_a_gcn_accelerator.Event.{
  EventDataType, edram, dram, read, write, edge, weight, input_feature, aggr_feature,
  output_feature, none_data,
}
use hy_gcn_a_gcn_accelerator.Event
use hy_gcn_a_gcn_accelerator.Spm
use hy_gcn_a_gcn_accelerator.Spm.{
  Spm, get_target_buf, confirm_event, event_done, add_events, set_matrix_shape,
}
use hy_gcn_a_gcn_accelerator.Coordinator.{add_event}
use hy_gcn_a_gcn_accelerator.Config.{space_aligned_vertex, space_aligned_output_vertex}
use hy_gcn_a_gcn_accelerator.Config.Layers.{HyConfig}
use hy_gcn_a_gcn_accelerator.Comb.{Comb, World, get_idle_buf, to_state, batch_vertex, next_batch}

-- The bytes of one slice of the inputs: the last chunk of a vector is what is left of it, which the
-- tiling keeps above 0.
abbrev pub slice_bytes : HyConfig → Comb → ℕ
slice_bytes hy c =
    if (c.input_chunk_cnt + 1) == c.num_input_chunk
    then space_aligned_vertex hy.layer_config hy.sys_config.block_size
      - c.sz_input_chunk * c.input_chunk_cnt
    else c.sz_input_chunk

unfoldable pub fetch_features : HyConfig → World → Option World
fetch_features hy w =
    let c = w.comb in
    if leb (c.end_vertex - c.start_vertex) c.i_slice_cnt then some w else do
      let space_vertex = space_aligned_vertex hy.layer_config hy.sys_config.block_size
      let addr = u64 (
          w.aggr_buf.done_ptr.offset
          + c.i_slice_cnt * space_vertex
          + c.input_chunk_cnt * c.sz_input_chunk)
      coordinator ←
          add_event w.coordinator
            (Event.new hy.sys_config.block_size addr (slice_bytes hy c) edram read aggr_feature)
      some (record w {
        coordinator = coordinator;
        comb = record c { i_slice_cnt = c.i_slice_cnt + 1 };
      })

unfoldable pub fetch_weights : HyConfig → World → Option World
fetch_weights hy w =
    let c = w.comb in
    let t = hy.tile_config in
    if leb t.ele_comb_h_chunk c.w_slice_cnt then some w else do
      let addr = u64 (
          hy.mapper.weight_start_addr
          + (c.input_chunk_cnt * c.num_output_chunk + c.output_chunk_cnt) * t.space_weight_block
          + c.w_slice_cnt * c.sz_output_chunk)
      check (ltb addr hy.mapper.weight_end_addr)
      coordinator ←
          add_event w.coordinator
            (Event.new hy.sys_config.block_size addr t.sz_comb_w_chunk dram read weight)
      some (record w {
        coordinator = coordinator;
        comb = record c { w_slice_cnt = c.w_slice_cnt + 1 };
      })

unfoldable pub write_features : HyConfig → World → Option World
write_features hy w = do
  let c = w.comb
  ptr ← c.writing_outbuf_ptr
  b ← get_elem? c.outbuf ptr
  if leb b.matrix_h c.o_slice_cnt then some w else (do
    let space_vertex = space_aligned_output_vertex hy.layer_config hy.sys_config.block_size
    let addr = u64 (
        hy.mapper.output_start_addr
        + (w.aggr_buf.done_ptr.vertex + c.o_slice_cnt * space_vertex)
        + c.output_chunk_cnt * c.sz_output_chunk)
    check (ltb addr hy.mapper.output_end_addr)
    coordinator ← add_event w.coordinator (
        Event.new hy.sys_config.block_size addr (b.matrix_w * hy.layer_config.data_bytes) dram write
          output_feature)
    some (record w {
      coordinator = coordinator;
      comb = record c { o_slice_cnt = c.o_slice_cnt + 1 };
    }))

-- The lambda `get_inbuf`; without an idle buffer the `assert` of its caller fails.
unfoldable pub get_inbuf : HyConfig → Comb → Option Comb
get_inbuf hy c = do
  i ← get_idle_buf c.inbuf
  b ← get_elem? c.inbuf i
  let sz_batch = c.end_vertex - c.start_vertex
  check (ltb 0 hy.layer_config.data_bytes)
  let b' =
      add_events
        (set_matrix_shape (to_state Spm.filling b) sz_batch
          (slice_bytes hy c / hy.layer_config.data_bytes))
        sz_batch
  some (record c { inbuf_ptr = some i; inbuf = set c.inbuf i b'; i_slice_cnt = 0 })

-- The lambda `get_wbuf`.
unfoldable pub get_wbuf : HyConfig → Comb → Option Comb
get_wbuf hy c = do
  i ← get_idle_buf c.wbuf
  b ← get_elem? c.wbuf i
  let h = hy.tile_config.ele_comb_h_chunk
  let b' =
      add_events (set_matrix_shape (to_state Spm.filling b) h hy.tile_config.ele_comb_w_chunk) h
  some (record c { wbuf_ptr = some i; wbuf = set c.wbuf i b'; w_slice_cnt = 0 })

unfoldable pub get_ready_for_fetch : HyConfig → Comb → Option Comb
unfolding get_inbuf get_wbuf
get_ready_for_fetch hy c = if c.vertex_ptr == c.end_vertex then some c else do
  c₁ ← if c.output_chunk_cnt == 0 then get_inbuf hy c else some c
  c₂ ← get_wbuf hy c₁
  some (record c₂ { enable_fetch = false })

-- `GenCombDataFlow`, while buffers are being filled.
unfoldable pub fetch : HyConfig → ℕ → ℕ → World → Option World
fetch hy i j w =
    if w.comb.output_chunk_cnt == 0
    then (do
      w₁ ← fetch_weights hy w
      w₂ ← fetch_features hy w₁
      ib ← get_elem? w₂.comb.inbuf i
      wb ← get_elem? w₂.comb.wbuf j
      some (
          if event_done ib && event_done wb
          then record w₂ {
            comb = record w₂.comb {
              wbuf = set w₂.comb.wbuf j (to_state Spm.ready wb);
              inbuf = set w₂.comb.inbuf i (to_state Spm.ready ib);
            };
          }
          else w₂))
    else (do
      w₁ ← fetch_weights hy w
      wb ← get_elem? w₁.comb.wbuf j
      some (
          if event_done wb
          then record w₁ {
            comb = record w₁.comb { wbuf = set w₁.comb.wbuf j (to_state Spm.ready wb) };
          }
          else w₁))

-- What to fetch: the buffers at hand, or the next ones.
unfoldable pub fetch_step : HyConfig → World → Option World
unfolding fetch
fetch_step hy w = elim w.comb.inbuf_ptr [
  | some i ↦ elim w.comb.wbuf_ptr [ some j ↦ fetch hy i j w | none ↦ prepare ]
  | none ↦ prepare
]
  where
    prepare : Option World
    prepare =
        if w.comb.enable_fetch
        then (do
          check (not (w.comb.input_chunk_cnt == w.comb.num_input_chunk))
          c ← get_ready_for_fetch hy w.comb
          some (record w { comb = c }))
        else some w

-- What to write back.
unfoldable pub write_step : HyConfig → World → Option World
write_step hy w = elim w.comb.writing_outbuf_ptr [
  | none ↦ some w
  | some k ↦ do
    w₁ ← write_features hy w
    b ← get_elem? w₁.comb.outbuf k
    let w₂ = record w₁ {
      comb = record w₁.comb {
        outbuf = set w₁.comb.outbuf k (to_state Spm.idle b);
        writing_outbuf_ptr = none;
      };
    }
    if event_done b
        then (if w₂.comb.input_chunk_cnt == w₂.comb.num_input_chunk then next_batch w₂ else some w₂)
        else some w₁
]

-- `GenCombDataFlow` up to the writes: a new batch where the last one is at its end, and the fetches.
unfoldable pub batch_and_fetch : HyConfig → World → Option World
unfolding fetch_step
batch_and_fetch hy w = do
  w₁ ← if w.comb.vertex_ptr == w.comb.end_vertex then batch_vertex w else some w
  fetch_step hy w₁

unfoldable pub gen_comb_data_flow : HyConfig → World → Option World
unfolding batch_and_fetch write_step
gen_comb_data_flow hy w =
    if w.comb.is_done then some w else do w₁ ← batch_and_fetch hy w; write_step hy w₁
