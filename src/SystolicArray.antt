-- ===== src/SystolicArray.antt =====
-- hygcn/hardware/systolic_array.h and systolic_arr.cpp: the systolic array, which multiplies a batch
-- of vertices by a block of the weights, tile by tile. What the constructor leaves uninitialised is
-- an argument of `new`. A division by zero (`SIGFPE`, or an infinity cast to `int`) is a fault.
pub mod Tiles
pub mod Walk
pub mod Run
mod Tests
use hy_gcn_a_gcn_accelerator.Base.{
  ℕ, ◌+◌, ◌-◌, ◌*◌, ◌/◌, min, Bool, true, false, Option, none, some, ℤ, pos, decrement, leb_ℤ, leb,
  ltb, eqb_ℤ, ◌&&◌, u64, ◌==◌, if◌then◌else◌, ◌>>=◌, ◌>>◌, check, ceil_div, sub_ℕ, pos_part,
}

pub record Matrix : Type 0 where
  pub h : ℕ
  pub w : ℕ

pub data ArrayState : Type 0 where
  filling computing ready out_sync finished idle : ArrayState

-- The fields that the constructor does not set.
pub record Tiling : Type 0 where
  pub a : Matrix
  pub w : Matrix
  pub sz_output : ℕ
  pub ele_h_tile : ℕ
  pub ele_w_tile : ℕ
  pub ele_batch : ℕ
  pub ele_last_batch : ℕ
  pub num_h_tile : ℕ
  pub num_w_tile : ℕ
  pub num_batch : ℕ
  pub h_tile_cnt : ℕ
  pub w_tile_cnt : ℕ
  pub batch_cnt : ℕ

pub record Binding : Type 0 where
  pub cur_inbuf : Option ℕ
  pub cur_outbuf : Option ℕ
  pub cur_wbuf : Option ℕ
  pub input_chunk : ℕ
  pub output_chunk : ℕ

pub record SystolicArray : Type 0 where
  pub binding : Binding
  pub tiling : Tiling
  pub computing_cycle : ℕ
  pub filling_cycle : ℕ
  pub mac_op_cnt : ℕ
  pub add_op_cnt : ℕ
  pub byte_wbuf_read : ℕ
  pub byte_aggrbuf_read : ℕ
  pub byte_outbuf_write : ℕ
  pub height : ℕ
  pub width : ℕ
  pub cap_outbuf : ℕ
  pub data_bytes : ℕ
  pub state : ArrayState
  pub fill_weight_cycle : ℤ
  pub compute_cycle : ℤ

unfoldable pub new : ℕ → ℕ → ℕ → ℕ → Binding → Tiling → SystolicArray
new height width cap_outbuf data_bytes binding tiling = record {
  binding = binding;
  tiling = tiling;
  computing_cycle = 0;
  filling_cycle = 0;
  mac_op_cnt = 0;
  add_op_cnt = 0;
  byte_wbuf_read = 0;
  byte_aggrbuf_read = 0;
  byte_outbuf_write = 0;
  height = height;
  width = width;
  cap_outbuf = cap_outbuf;
  data_bytes = data_bytes;
  state = idle;
  fill_weight_cycle = pos 0;
  compute_cycle = pos 0;
}

unfoldable pub fill_weight : SystolicArray → Matrix → SystolicArray
fill_weight s weights = record s {
  state = filling;
  fill_weight_cycle = pos 0;
  byte_wbuf_read = u64 (s.byte_wbuf_read + weights.h * weights.w);
}

-- `compute_cycle` is -1 only for an array of height and width 0, and the product is 0 then.
unfoldable pub fill_input_fifo : SystolicArray → Matrix → SystolicArray
fill_input_fifo s inputs =
    let cycles = sub_ℕ (inputs.h + s.height + s.width) 1 in
    record s {
      compute_cycle = cycles;
      mac_op_cnt = u64 (s.mac_op_cnt + pos_part cycles * s.height * s.width);
      add_op_cnt = u64 (s.add_op_cnt + inputs.h * s.width);
      byte_aggrbuf_read = u64 (s.byte_aggrbuf_read + (inputs.h * inputs.w + inputs.h * s.width));
      byte_outbuf_write = u64 (s.byte_outbuf_write + inputs.h * s.width);
    }

unfoldable pub get_state : SystolicArray → ArrayState
get_state s = s.state

abbrev pub is_idle : SystolicArray → Bool
is_idle s = elim s.state [ idle ↦ true | _ ↦ false ]

-- The bytes of one row of the output.
abbrev pub sz_row : SystolicArray → ℕ
sz_row s = s.tiling.w.w * s.data_bytes

-- The counters at the end of `GenDataFlow`, with the state that they leave.
unfoldable pub count_tile : Tiling → ArrayState → Tiling × ArrayState
count_tile t st =
    if (t.h_tile_cnt + 1) == t.num_h_tile
    then (if (t.w_tile_cnt + 1) == t.num_w_tile
        then (
          record t { h_tile_cnt = 0; w_tile_cnt = 0; batch_cnt = t.batch_cnt + 1 },
          if (t.batch_cnt + 1) == t.num_batch then finished else st,
        )
        else (record t { h_tile_cnt = 0; w_tile_cnt = t.w_tile_cnt + 1 }, st))
    else (record t { h_tile_cnt = t.h_tile_cnt + 1 }, st)

-- `GenDataFlow` after the room for the output row is taken.
unfoldable pub issue_tile : SystolicArray → SystolicArray
unfolding fill_weight fill_input_fifo
issue_tile s =
    let t = s.tiling in
    let batch = if (t.batch_cnt + 1) == t.num_batch then t.ele_last_batch else t.ele_batch in
    let s₁ = fill_weight s (record { h = t.ele_h_tile; w = t.ele_w_tile }) in
    let s₂ = fill_input_fifo s₁ (record { h = batch; w = t.ele_h_tile }) in
    let (t', st) = count_tile s₂.tiling s₂.state in record s₂ { tiling = t'; state = st }

unfoldable pub gen_data_flow : SystolicArray → SystolicArray
unfolding issue_tile
gen_data_flow s =
    let t = s.tiling in
    if t.h_tile_cnt == 0
    then (if ltb s.cap_outbuf (t.sz_output + sz_row s)
        then record s { state = out_sync }
        else issue_tile (record s { tiling = record t { sz_output = t.sz_output + sz_row s } }))
    else issue_tile s

tick_filling : SystolicArray → SystolicArray
tick_filling s =
    let left = decrement s.fill_weight_cycle in
    record s {
      fill_weight_cycle = left;
      state = if leb_ℤ left (pos 0) then computing else s.state;
      filling_cycle = u64 (s.filling_cycle + 1);
    }

tick_computing : SystolicArray → SystolicArray
tick_computing s =
    let left = decrement s.compute_cycle in
    record s {
      compute_cycle = left;
      state = if eqb_ℤ left (pos 0) then ready else s.state;
      computing_cycle = u64 (s.computing_cycle + 1);
    }

unfoldable pub clock_tick : SystolicArray → SystolicArray
unfolding tick_filling tick_computing
clock_tick s = elim s.state [
  | filling ↦ tick_filling s
  | computing ↦ tick_computing s
  | ready ↦ gen_data_flow s
  | _ ↦ s
]

-- `ele_batch_`: how many vertices the output buffer holds, at most those of the block.
abbrev pub batch_of : SystolicArray → Matrix → Matrix → ℕ
batch_of s a w = min (s.cap_outbuf / (w.w * s.data_bytes)) a.h

-- The assignments of `SetMatrix`.
unfoldable pub load_matrix : SystolicArray → Matrix → Matrix → SystolicArray
load_matrix s a w = record s {
  tiling = record {
    a = a;
    w = w;
    sz_output = 0;
    ele_h_tile = s.height;
    ele_w_tile = s.width;
    ele_batch = batch_of s a w;
    ele_last_batch = a.h - batch_of s a w * (ceil_div a.h (batch_of s a w) - 1);
    num_h_tile = ceil_div w.h s.height;
    num_w_tile = ceil_div w.w s.width;
    num_batch = ceil_div a.h (batch_of s a w);
    h_tile_cnt = 0;
    w_tile_cnt = 0;
    batch_cnt = 0;
  };
  state = ready;
}

unfoldable pub set_matrix : SystolicArray → Matrix → Matrix → Option SystolicArray
set_matrix s a w = do
  check (ltb 0 (w.w * s.data_bytes))
  check (ltb 0 s.height && ltb 0 s.width && ltb 0 (batch_of s a w))
  check (leb (a.h * s.width) s.cap_outbuf)
  some (load_matrix s a w)

unfoldable pub get_num_output_vertex : SystolicArray → Option ℕ
get_num_output_vertex s = do check (ltb 0 (sz_row s)); some (s.tiling.sz_output / sz_row s)

unfoldable pub sync_output : SystolicArray → SystolicArray
sync_output s = record s { state = ready; tiling = record s.tiling { sz_output = 0 } }

unfoldable pub get_result : SystolicArray → SystolicArray
get_result s = record s { state = idle }

unfoldable pub set_buf_config : SystolicArray → Option ℕ → Option ℕ → Option ℕ → SystolicArray
set_buf_config s inbuf wbuf outbuf = record s {
  binding = record s.binding { cur_inbuf = inbuf; cur_wbuf = wbuf; cur_outbuf = outbuf };
}

unfoldable pub set_block_config : SystolicArray → ℕ → ℕ → SystolicArray
set_block_config s ichunk ochunk = record s {
  binding = record s.binding { input_chunk = ichunk; output_chunk = ochunk };
}
