-- ===== src/HyGcn/Record.antt =====
-- hygcn/hygcn.h, `Record`: the record of a run.
use hy_gcn_a_gcn_accelerator.Base.{◌+◌, u64, sum_by}
use hy_gcn_a_gcn_accelerator.Coordinator.{DramSystem}
use hy_gcn_a_gcn_accelerator.HyRec.{HyRec, zeros}
use hy_gcn_a_gcn_accelerator.HyGcn.{HyGcn}

module _ (dram_system : DramSystem) where
  open dram_system use {stats}

  -- `Record`, without the energies. `PrintStats` writes files and is left out.
  unfoldable pub record_run : HyGcn dram_system → HyRec
  record_run h =
      let array = h.systolic_array in
      let c = h.coordinator in
      let commands = stats h.dram_state in
      record zeros {
        finish_time = h.clk;
        aggr_end_time = h.aggr.end_clk;
        comb_end_time = h.comb.end_clk;
        simd_mac_op = u64 (sum_by (λ s. s.num_mac_op) h.aggr.simds);
        sram_ebuf_read = u64 (sum_by (λ s. s.byte_ebuf_read) h.aggr.simds);
        sram_inbuf_read = u64 (sum_by (λ s. s.byte_inbuf_read) h.aggr.simds);
        sram_wbuf_read = array.byte_wbuf_read;
        edram_aggr_read = u64 (array.byte_aggrbuf_read + c.byte_aggr_read);
        sram_outbuf_write = array.byte_outbuf_write;
        systolic_add_op = array.add_op_cnt;
        systolic_mac_op = array.mac_op_cnt;
        edram_aggr_write = c.byte_aggr_write;
        dram_output_write = c.byte_output_write;
        dram_input_read = c.byte_input_read;
        dram_edge_read = c.byte_edge_read;
        dram_weight_read = c.byte_weights_read;
        sram_outbuf_read = c.byte_output_write;
        sram_input_write = c.byte_input_read;
        sram_ebuf_write = c.byte_edge_read;
        sram_wbuf_write = c.byte_weights_read;
        num_act_cmds = u64 (sum_by (λ s. s.num_act_cmds) commands);
        num_pre_cmds = u64 (sum_by (λ s. s.num_pre_cmds) commands);
        num_read_cmds = u64 (sum_by (λ s. s.num_read_cmds) commands);
        num_write_cmds = u64 (sum_by (λ s. s.num_write_cmds) commands);
        num_ref_cmds = u64 (sum_by (λ s. s.num_ref_cmds) commands);
        num_read_row_hits = u64 (sum_by (λ s. s.num_read_row_hits) commands);
        num_write_row_hits = u64 (sum_by (λ s. s.num_write_row_hits) commands);
      }
