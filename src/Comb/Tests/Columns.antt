-- ===== src/Comb/Tests/Columns.antt =====
-- Where the outputs of a block go, in the run over two blocks.
use hy_gcn_a_gcn_accelerator.Base.{
  ℕ, ◌*◌, ◌≡◌, refl, arith, Option, none, some, List, [], ◌∷◌, first_from, zero, suc,
}
use hy_gcn_a_gcn_accelerator.Event
use hy_gcn_a_gcn_accelerator.Event.{dram, write, output_feature}
use hy_gcn_a_gcn_accelerator.AggrBuf
use hy_gcn_a_gcn_accelerator.Coordinator.{empty, add_event}
use hy_gcn_a_gcn_accelerator.SystolicArray
use hy_gcn_a_gcn_accelerator.Config.{space_aligned_vertex, space_aligned_output_vertex}
use hy_gcn_a_gcn_accelerator.Tool.{upper_align}
use hy_gcn_a_gcn_accelerator.Comb
use hy_gcn_a_gcn_accelerator.Comb.{
  World, Comb, get_ready_for_compute, batch_vertex, process_returned_event, fetch_next_block,
  next_batch,
}
use hy_gcn_a_gcn_accelerator.Comb.Tests.{unbound, idle_tiling}
use hy_gcn_a_gcn_accelerator.Comb.Cycle.{
  clock_tick, serve_array, count_cycle, collect, launch, start_array,
}
use hy_gcn_a_gcn_accelerator.Comb.Reach.{Reach, begin, column_after}
use hy_gcn_a_gcn_accelerator.Spm
use hy_gcn_a_gcn_accelerator.Spm.{Spm}
use hy_gcn_a_gcn_accelerator.Comb.Traffic.{
  fetch_step, fetch, fetch_weights, fetch_features, gen_comb_data_flow, get_ready_for_fetch,
  get_inbuf, get_wbuf, write_features, write_step, batch_and_fetch,
}
use hy_gcn_a_gcn_accelerator.Comb.Script.{Act, play, play-Reach}
use hy_gcn_a_gcn_accelerator.Comb.Tests.Data.{hy, sums, start, acts}
use hy_gcn_a_gcn_accelerator.Comb.Columns.{first_output, collect-write_features}

abbrev first_acts : ℕ → List Act → List Act
first_acts zero l = []
first_acts (suc n) [] = []
first_acts (suc n) (x ∷ l) = x ∷ first_acts n l

abbrev or_start : Option World → World
unfolding start
or_start none = start
or_start (some w) = w

-- The run up to the cycle that gives the first block back.
abbrev acts_before : List Act
acts_before = first_acts 14 acts

abbrev before : World
unfolding clock_tick serve_array SystolicArray.get_state SystolicArray.clock_tick
    get_ready_for_compute Spm.get_target_buf Spm.new gen_comb_data_flow batch_and_fetch batch_vertex
    AggrBuf.get_ready_vertex_num get_ready_for_fetch count_cycle fetch_weights add_event Event.new
    fetch_features process_returned_event SystolicArray.set_matrix fetch_next_block AggrBuf.advance
    AggrBuf.confirm_aggr AggrBuf.confirm_comb AggrBuf.new AggrBuf.start_aggr AggrBuf.start_comb
    first_from collect launch start_array play start sums fetch fetch_step get_inbuf get_wbuf
    write_features write_step Comb.new next_batch space_aligned_output_vertex space_aligned_vertex
    SystolicArray.count_tile SystolicArray.fill_input_fifo SystolicArray.fill_weight
    SystolicArray.gen_data_flow SystolicArray.get_result SystolicArray.issue_tile
    SystolicArray.load_matrix SystolicArray.new SystolicArray.set_block_config
    SystolicArray.set_buf_config upper_align
before = or_start (play hy acts_before start)

played : play hy acts_before start ≡ some before
unfolding before clock_tick serve_array SystolicArray.get_state SystolicArray.clock_tick
    get_ready_for_compute Spm.get_target_buf Spm.new gen_comb_data_flow batch_and_fetch batch_vertex
    AggrBuf.get_ready_vertex_num get_ready_for_fetch count_cycle fetch_weights add_event Event.new
    fetch_features process_returned_event SystolicArray.set_matrix fetch_next_block AggrBuf.advance
    AggrBuf.confirm_aggr AggrBuf.confirm_comb AggrBuf.new AggrBuf.start_aggr AggrBuf.start_comb
    first_from collect launch start_array play start sums fetch fetch_step get_inbuf get_wbuf
    write_features write_step Comb.new next_batch space_aligned_output_vertex space_aligned_vertex
    SystolicArray.count_tile SystolicArray.fill_input_fifo SystolicArray.fill_weight
    SystolicArray.gen_data_flow SystolicArray.get_result SystolicArray.issue_tile
    SystolicArray.load_matrix SystolicArray.new SystolicArray.set_block_config
    SystolicArray.set_buf_config upper_align
played = refl

reaches : Reach hy before
unfolding start
reaches =
    play-Reach hy acts_before start
      (begin 0 (SystolicArray.new 1 1 1024 4 unbound idle_tiling) sums empty refl) played

abbrev after : World
unfolding collect SystolicArray.clock_tick SystolicArray.gen_data_flow SystolicArray.issue_tile
    SystolicArray.count_tile SystolicArray.fill_weight SystolicArray.fill_input_fifo
    SystolicArray.get_result before
after = or_start (collect (record before { array = SystolicArray.clock_tick before.array }))

collects : collect (record before { array = SystolicArray.clock_tick before.array }) ≡ some after
unfolding after collect SystolicArray.clock_tick SystolicArray.gen_data_flow
    SystolicArray.issue_tile SystolicArray.count_tile SystolicArray.fill_weight
    SystolicArray.fill_input_fifo SystolicArray.get_result before
collects = refl

abbrev asked : World
unfolding write_features add_event Event.new space_aligned_output_vertex upper_align after before
asked = or_start (write_features hy after)

asks : write_features hy after ≡ some asked
unfolding asked write_features add_event Event.new space_aligned_output_vertex upper_align after
    before
asks = refl

collect-write_features_example :
    add_event after.coordinator (
      Event.new hy.sys_config.block_size
        (first_output hy before (column_after hy before.array.binding.output_chunk))
        (2 * hy.layer_config.data_bytes)
        dram
        write
        output_feature)
    ≡ some asked.coordinator
unfolding before
collect-write_features_example =
    collect-write_features hy (omega arith) (omega arith) reaches refl refl refl refl (omega arith)
      collects asks
