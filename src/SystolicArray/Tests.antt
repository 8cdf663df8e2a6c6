-- ===== src/SystolicArray/Tests.antt =====
-- The theorems on the systolic array at a block of 4 vertices and 3 by 2 weights on an array of
-- 2 by 2.
use hy_gcn_a_gcn_accelerator.Base.{◌≡◌, refl, none, pos, arith}
use hy_gcn_a_gcn_accelerator.SystolicArray.{
  SystolicArray, Matrix, Binding, Tiling, new, finished, ready,
}
use hy_gcn_a_gcn_accelerator.SystolicArray.Run.{ticks, last_tile-not_computed}

abbrev inputs : Matrix
inputs = record { h = 4; w = 3 }

abbrev weights : Matrix
weights = record { h = 3; w = 2 }

abbrev unbound : Binding
unbound = record {
  cur_inbuf = none;
  cur_outbuf = none;
  cur_wbuf = none;
  input_chunk = 0;
  output_chunk = 0;
}

-- Before its last tile: the tiles are 2 down, 1 across, in one batch.
abbrev last_tile : Tiling
last_tile = record {
  a = inputs;
  w = weights;
  sz_output = 8;
  ele_h_tile = 2;
  ele_w_tile = 2;
  ele_batch = 4;
  ele_last_batch = 4;
  num_h_tile = 2;
  num_w_tile = 1;
  num_batch = 1;
  h_tile_cnt = 1;
  w_tile_cnt = 0;
  batch_cnt = 0;
}

abbrev array : SystolicArray
array = new 2 2 64 4 unbound last_tile

abbrev at_last : SystolicArray
unfolding new
at_last = record array { state = ready }

last_tile-not_computed_example :
    let t = ticks 11 at_last in
    (t.state ≡ finished)
    × (t.computing_cycle ≡ 0)
    × (t.compute_cycle ≡ pos 7)
    × (t.mac_op_cnt ≡ 28)
    × (t.add_op_cnt ≡ 8)
    × (t ≡ ticks 1 at_last)
unfolding new
last_tile-not_computed_example = last_tile-not_computed at_last 10 (omega arith) refl refl
