-- ===== src/HyRec.antt =====
-- hygcn/dataflow/hy_rec.h: what a run is measured by. The energies are floating-point numbers that the
-- DRAM library works out: of them there are only the texts that a stream prints, which are given.
use hy_gcn_a_gcn_accelerator.Base.{ℕ, List, [], ◌∷◌, ◌++◌}
use hy_gcn_a_gcn_accelerator.Text.{Text, codes, to_string}

pub record HyRec : Type 0 where
  pub finish_time : ℕ
  pub aggr_end_time : ℕ
  pub comb_end_time : ℕ
  pub dram_edge_read : ℕ
  pub dram_input_read : ℕ
  pub edram_aggr_read : ℕ
  pub edram_aggr_write : ℕ
  pub dram_weight_read : ℕ
  pub dram_output_write : ℕ
  pub sram_ebuf_read : ℕ
  pub sram_ebuf_write : ℕ
  pub sram_inbuf_read : ℕ
  pub sram_input_write : ℕ
  pub sram_wbuf_read : ℕ
  pub sram_wbuf_write : ℕ
  pub sram_outbuf_read : ℕ
  pub sram_outbuf_write : ℕ
  pub simd_mac_op : ℕ
  pub systolic_mac_op : ℕ
  pub systolic_add_op : ℕ
  pub num_act_cmds : ℕ
  pub num_pre_cmds : ℕ
  pub num_read_cmds : ℕ
  pub num_write_cmds : ℕ
  pub num_ref_cmds : ℕ
  pub num_read_row_hits : ℕ
  pub num_write_row_hits : ℕ

-- A fresh record.
abbrev pub zeros : HyRec
zeros = record {
  finish_time = 0;
  aggr_end_time = 0;
  comb_end_time = 0;
  dram_edge_read = 0;
  dram_input_read = 0;
  edram_aggr_read = 0;
  edram_aggr_write = 0;
  dram_weight_read = 0;
  dram_output_write = 0;
  sram_ebuf_read = 0;
  sram_ebuf_write = 0;
  sram_inbuf_read = 0;
  sram_input_write = 0;
  sram_wbuf_read = 0;
  sram_wbuf_write = 0;
  sram_outbuf_read = 0;
  sram_outbuf_write = 0;
  simd_mac_op = 0;
  systolic_mac_op = 0;
  systolic_add_op = 0;
  num_act_cmds = 0;
  num_pre_cmds = 0;
  num_read_cmds = 0;
  num_write_cmds = 0;
  num_ref_cmds = 0;
  num_read_row_hits = 0;
  num_write_row_hits = 0;
}

-- The energies, as `std::ostream` prints them.
pub record Energies : Type 0 where
  pub dram_energy : Text
  pub dram_dynamic_energy : Text
  pub dram_standby_energy : Text

-- What a stream is given: fields with a comma between any two, and a line break after the last.
abbrev pub line : List Text → Text
line [] = []
line (field ∷ []) = field ++ (10 ∷ [])
line (field ∷ next ∷ rest) = field ++ (b',' ∷ line (next ∷ rest))

abbrev pub values : HyRec → Energies → List Text
values r e =
    to_string r.finish_time
    ∷ to_string r.aggr_end_time
    ∷ to_string r.comb_end_time
    ∷ e.dram_energy
    ∷ e.dram_dynamic_energy
    ∷ e.dram_standby_energy
    ∷ to_string r.dram_edge_read
    ∷ to_string r.dram_input_read
    ∷ to_string r.edram_aggr_read
    ∷ to_string r.edram_aggr_write
    ∷ to_string r.dram_weight_read
    ∷ to_string r.dram_output_write
    ∷ to_string r.sram_ebuf_read
    ∷ to_string r.sram_ebuf_write
    ∷ to_string r.sram_inbuf_read
    ∷ to_string r.sram_input_write
    ∷ to_string r.sram_wbuf_read
    ∷ to_string r.sram_wbuf_write
    ∷ to_string r.sram_outbuf_read
    ∷ to_string r.sram_outbuf_write
    ∷ to_string r.simd_mac_op
    ∷ to_string r.systolic_mac_op
    ∷ to_string r.systolic_add_op
    ∷ to_string r.num_act_cmds
    ∷ to_string r.num_pre_cmds
    ∷ to_string r.num_read_cmds
    ∷ to_string r.num_write_cmds
    ∷ to_string r.num_ref_cmds
    ∷ to_string r.num_read_row_hits
    ∷ to_string r.num_write_row_hits
    ∷ []

abbrev pub names : List Text
names =
    codes "finish_time"
    ∷ codes "aggr_end_time"
    ∷ codes "comb_end_time"
    ∷ codes "dram_energy"
    ∷ codes "dram_dynamic_energy"
    ∷ codes "dram_standby_energy"
    ∷ codes "dram_edge_read"
    ∷ codes "dram_input_read"
    ∷ codes "edram_aggr_read"
    ∷ codes "edram_aggr_write"
    ∷ codes "dram_weight_read"
    ∷ codes "dram_output_write"
    ∷ codes "sram_ebuf_read"
    ∷ codes "sram_ebuf_write"
    ∷ codes "sram_inbuf_read"
    ∷ codes "sram_input_write"
    ∷ codes "sram_wbuf_read"
    ∷ codes "sram_wbuf_write"
    ∷ codes "sram_outbuf_read"
    ∷ codes "sram_outbuf_write"
    ∷ codes "simd_mac_op"
    ∷ codes "systolic_mac_op"
    ∷ codes "systolic_add_op"
    ∷ codes "num_act_cmds"
    ∷ codes "num_pre_cmds"
    ∷ codes "num_read_cmds"
    ∷ codes "num_write_cmds"
    ∷ codes "num_ref_cmds"
    ∷ codes "num_read_row_hits"
    ∷ codes "num_write_row_hits"
    ∷ []

-- `GetString`.
unfoldable pub get_string : HyRec → Energies → Text
get_string r e = line (values r e)

-- `GetHeaderString`.
unfoldable pub get_header_string : Text
get_header_string = line names
