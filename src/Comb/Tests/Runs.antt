-- ===== src/Comb/Tests/Runs.antt =====
-- The theorems on the states that the combination engine reaches, at a run over two blocks.
use hy_gcn_a_gcn_accelerator.Base.{ℕ, ◌≡◌, refl, pos, arith, true, false, some, [], ◌∷◌, first_from}
use hy_gcn_a_gcn_accelerator.Event
use hy_gcn_a_gcn_accelerator.Event.{weight, aggr_feature, output_feature, dram, edram, read, write}
use hy_gcn_a_gcn_accelerator.AggrBuf
use hy_gcn_a_gcn_accelerator.AggrBuf.{AggrBuf}
use hy_gcn_a_gcn_accelerator.Coordinator.{empty, add_event}
use hy_gcn_a_gcn_accelerator.SystolicArray
use hy_gcn_a_gcn_accelerator.SystolicArray.{is_idle}
use hy_gcn_a_gcn_accelerator.Config.{space_aligned_vertex, space_aligned_output_vertex}
use hy_gcn_a_gcn_accelerator.Tool.{upper_align}
use hy_gcn_a_gcn_accelerator.Comb
use hy_gcn_a_gcn_accelerator.Comb.{
  World, Comb, get_ready_for_compute, batch_vertex, process_returned_event, fetch_next_block,
  next_batch,
}
use hy_gcn_a_gcn_accelerator.Comb.Tests.{unbound, idle_tiling}
use hy_gcn_a_gcn_accelerator.Comb.Cycle.{
  clock_tick, serve_array, count_cycle, collect, launch, start_array,
}
use hy_gcn_a_gcn_accelerator.Comb.Reach.{Reach, begin, InvOf, Reach-InvOf}
use hy_gcn_a_gcn_accelerator.Spm
use hy_gcn_a_gcn_accelerator.Spm.{Spm}
use hy_gcn_a_gcn_accelerator.Comb.Traffic.{
  fetch_step, fetch, fetch_weights, fetch_features, gen_comb_data_flow, get_ready_for_fetch,
  get_inbuf, get_wbuf, write_features, write_step, batch_and_fetch,
}
use hy_gcn_a_gcn_accelerator.Comb.Serves.{Serves}
use hy_gcn_a_gcn_accelerator.Comb.Quiet.{cycles}
use hy_gcn_a_gcn_accelerator.Comb.Early.{clock_tick-early}
use hy_gcn_a_gcn_accelerator.Comb.Script.{play, play-Reach}
use hy_gcn_a_gcn_accelerator.Comb.Tests.Data.{hy, sums, start, acts, reached}

played : play hy acts start ≡ some reached
unfolding clock_tick serve_array SystolicArray.get_state SystolicArray.clock_tick
    get_ready_for_compute Spm.get_target_buf Spm.new gen_comb_data_flow batch_and_fetch batch_vertex
    AggrBuf.get_ready_vertex_num get_ready_for_fetch count_cycle fetch_weights add_event Event.new
    fetch_features process_returned_event SystolicArray.set_matrix fetch_next_block AggrBuf.advance
    AggrBuf.confirm_aggr AggrBuf.confirm_comb AggrBuf.new AggrBuf.start_aggr AggrBuf.start_comb
    first_from collect launch start_array play start sums fetch fetch_step get_inbuf get_wbuf
    write_features write_step Comb.new next_batch space_aligned_output_vertex space_aligned_vertex
    SystolicArray.count_tile SystolicArray.fill_input_fifo SystolicArray.fill_weight
    SystolicArray.gen_data_flow SystolicArray.get_result SystolicArray.issue_tile
    SystolicArray.load_matrix SystolicArray.new SystolicArray.set_block_config
    SystolicArray.set_buf_config upper_align
played = refl

reaches : Reach hy reached
unfolding start
reaches =
    play-Reach hy acts start
      (begin 0 (SystolicArray.new 1 1 1024 4 unbound idle_tiling) sums empty refl) played

abbrev written : Spm
written = record {
  matrix_h = 2;
  matrix_w = 2;
  state = Spm.writing;
  cap_buf = 1024;
  event_cnt = pos 0;
}

clock_tick-early_example :
    (w' : World) × (clock_tick hy reached ≡ some w')
    × (w'.comb.is_done ≡ true)
    × (is_idle w'.array ≡ false)
    × (w'.coordinator ≡ reached.coordinator)
    × ((n : ℕ) (v : World) → cycles hy n w' ≡ some v → v.coordinator ≡ reached.coordinator)
unfolding SystolicArray.clock_tick
clock_tick-early_example =
    clock_tick-early hy reached 0 written (omega arith) (omega arith) reaches refl refl refl
      (λ e. omega (arith, e)) refl refl refl (omega arith) refl

Reach-InvOf_example : InvOf hy reached
Reach-InvOf_example = Reach-InvOf hy (omega arith) (omega arith) reaches

-- The first cycle.
abbrev empty_buf : Spm
empty_buf = record {
  matrix_h = 0;
  matrix_w = 0;
  state = Spm.idle;
  cap_buf = 1024;
  event_cnt = pos 0;
}

abbrev first : World
unfolding AggrBuf.start_comb
first = record start {
  comb = record start.comb {
    clk = 1;
    end_vertex = 2;
    inbuf_ptr = some 0;
    wbuf_ptr = some 0;
    enable_fetch = false;
    inbuf =
        record {
          matrix_h = 2;
          matrix_w = 8;
          state = Spm.filling;
          cap_buf = 1024;
          event_cnt = pos 2;
        }
        ∷ empty_buf
        ∷ [];
    wbuf =
        record {
          matrix_h = 1;
          matrix_w = 2;
          state = Spm.filling;
          cap_buf = 1024;
          event_cnt = pos 1;
        }
        ∷ empty_buf
        ∷ [];
  };
  aggr_buf = AggrBuf.start_comb sums 2;
}
