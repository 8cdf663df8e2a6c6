-- ===== src/Config.antt =====
-- hygcn/config.h and config.cpp: the configuration of the accelerator and of a layer, and the tiling
-- that follows from them. `INIReader` is a library's: a configuration file is the function `reader`
-- from a section, a key and a default. Positive `int`s are natural numbers; a division by zero, or
-- the cast of an infinity that the source's `double` quotient then is, is a fault. Output to the
-- console is left out.
pub mod Mapper
pub mod Layers
pub mod Init
pub mod Blocks
pub mod Tiles
pub mod Tests
use Prim.Native.String.{String}
use hy_gcn_a_gcn_accelerator.Base.{
  ℕ, zero, suc, ◌+◌, ◌-◌, ◌*◌, ◌/◌, min, Bool, true, false, Option, none, some, List, ℤ, pos,
  negsuc, minus_one, leb, ltb, ◌==◌, ◌&&◌, if◌then◌else◌, ◌>>=◌, ◌>>◌, check, ceil_div, u64,
}
use hy_gcn_a_gcn_accelerator.Tool.{upper_align, lower_align}

-- `INIReader::GetInteger(section, key, default)` of one file.
abbrev pub Reader : Type 0
Reader = String → String → ℤ → ℤ

pub record SysConfig : Type 0 where
  pub block_size : ℕ
  pub cap_hbm : ℕ
  pub num_simd : ℕ
  pub num_core_per_simd : ℕ
  pub systolic_h : ℕ
  pub systolic_w : ℕ
  pub cap_inbuf : ℕ
  pub cap_edgebuf : ℕ
  pub cap_wbuf : ℕ
  pub cap_outbuf : ℕ
  pub cap_aggrbuf : ℕ
  pub cap_comb_inbuf : ℕ

-- `GetInteger` and the `assert` that the value is positive.
positive : ℤ → Option ℕ
positive (pos zero) = none
positive (pos (suc n)) = some (suc n)
positive (negsuc n) = none

-- The capacity of the HBM is a `uint64_t`, so -1 is 2 ^ 64 - 1 times 2 ^ 30.
abbrev hbm_bytes : ℤ → ℕ
hbm_bytes (pos n) = u64 (n * 1073741824)
hbm_bytes (negsuc n) = u64 ((18446744073709551615 - n) * 1073741824)

unfoldable pub read_sys : Reader → Option SysConfig
unfolding positive
read_sys reader = do
  block_size ← positive (reader "sys" "block_size" minus_one)
  let cap_hbm = hbm_bytes (reader "sys" "cap_hbm" minus_one)
  check (ltb 0 cap_hbm)
  num_simd ← positive (reader "cpt" "num_simd" minus_one)
  num_core_per_simd ← positive (reader "cpt" "num_core_per_simd" minus_one)
  systolic_h ← positive (reader "cpt" "systolic_h" minus_one)
  systolic_w ← positive (reader "cpt" "systolic_w" minus_one)
  cap_inbuf ← positive (reader "buffer" "cap_inbuf" minus_one)
  cap_edgebuf ← positive (reader "buffer" "cap_edgebuf" minus_one)
  cap_wbuf ← positive (reader "buffer" "cap_wbuf" minus_one)
  cap_outbuf ← positive (reader "buffer" "cap_outbuf" minus_one)
  cap_aggrbuf ← positive (reader "buffer" "cap_aggrbuf" minus_one)
  cap_comb_inbuf ← positive (reader "buffer" "cap_comb_inbuf" minus_one)
  some (record {
    block_size = block_size;
    cap_hbm = cap_hbm;
    num_simd = num_simd;
    num_core_per_simd = num_core_per_simd;
    systolic_h = systolic_h;
    systolic_w = systolic_w;
    cap_inbuf = cap_inbuf;
    cap_edgebuf = cap_edgebuf;
    cap_wbuf = cap_wbuf;
    cap_outbuf = cap_outbuf;
    cap_aggrbuf = cap_aggrbuf;
    cap_comb_inbuf = cap_comb_inbuf;
  })

-- The models of the layer files; any other name makes `Init` exit.
pub data Model : Type 0 where
  gcn gin gs : Model

-- `layer_count` is one more than in the source, where it starts at -1: the number of layers that
-- are prepared.
pub record LayerConfig : Type 0 where
  pub model_name : Model
  pub sample : ℤ
  pub weight_h : ℕ
  pub weight_w : ℕ
  pub data_bytes : ℕ
  pub idx_bytes : ℕ
  pub num_layer : ℕ
  pub layers_done : ℕ

abbrev pub len_features : LayerConfig → ℕ
len_features l = l.weight_h

abbrev pub len_output_features : LayerConfig → ℕ
len_output_features l = l.weight_w

abbrev pub sz_vertex : LayerConfig → ℕ
sz_vertex l = l.data_bytes * len_features l

abbrev pub sz_output_vertex : LayerConfig → ℕ
sz_output_vertex l = l.data_bytes * len_output_features l

unfoldable pub space_aligned_vertex : LayerConfig → ℕ → ℕ
space_aligned_vertex l sz_block = upper_align (l.data_bytes * len_features l) sz_block

unfoldable pub space_aligned_output_vertex : LayerConfig → ℕ → ℕ
space_aligned_output_vertex l sz_block = upper_align (l.data_bytes * len_output_features l) sz_block

pub record TileConfig : Type 0 where
  pub sz_comb_batch : ℕ
  pub sz_comb_h_chunk : ℕ
  pub sz_comb_w_chunk : ℕ
  pub ele_comb_h_chunk : ℕ
  pub ele_comb_w_chunk : ℕ
  pub num_comb_h_chunk : ℕ
  pub num_comb_w_chunk : ℕ
  pub aligned_weight_h : ℕ
  pub aligned_weight_w : ℕ
  pub space_weight_block : ℕ
  pub space_aligned_weight : ℕ
  pub ele_aggr_h_interval : ℕ
  pub ele_aggr_w_interval : ℕ

-- The whole part of `std::sqrt(n)`: the greatest `k ≤ bound` with `k * k ≤ n`.
sqrt_below : ℕ → ℕ → ℕ
sqrt_below zero n = zero
sqrt_below (suc k) n = let less = sqrt_below k n in if leb (suc k * suc k) n then suc k else less

unfoldable pub sqrt : ℕ → ℕ
unfolding sqrt_below
sqrt n = sqrt_below n n

-- `a / b` of `int`s.
abbrev divide : ℕ → ℕ → Option ℕ
divide a b = check (ltb 0 b) >>= λ _. some (a / b)

-- The chunks of the weights, height first: all of them where they fit in the weight buffer, else
-- squares, else strips along the shorter side.
unfoldable pub comb_chunk : SysConfig → ℕ → ℕ → ℕ → Option (ℕ × ℕ)
unfolding sqrt
comb_chunk sys data_bytes aligned_h aligned_w =
    let ele_block = sys.block_size / data_bytes in
    let ele_chunk = lower_align (sqrt (sys.cap_wbuf / data_bytes)) ele_block in
    if leb (aligned_h * aligned_w * data_bytes) sys.cap_wbuf
    then some (aligned_h, aligned_w)
    else if leb ele_chunk aligned_h && leb ele_chunk aligned_w
    then some (ele_chunk, ele_chunk)
    else if leb aligned_h ele_chunk && ltb ele_chunk aligned_w
    then (do
      w ← divide (sys.cap_wbuf / data_bytes) aligned_h
      some (aligned_h, lower_align w ele_block))
    else if leb aligned_w ele_chunk && ltb ele_chunk aligned_h
    then (do
      h ← divide (sys.cap_wbuf / data_bytes) aligned_w
      some (lower_align h ele_block, aligned_w))
    else none

-- The constructor of `TileConfig`.
unfoldable pub new_tile_config : SysConfig → LayerConfig → ℕ → Option TileConfig
unfolding comb_chunk
new_tile_config sys layer num_vertex = do
  ele_block ← divide sys.block_size layer.data_bytes
  check (ltb 0 ele_block)
  let aligned_h = upper_align layer.weight_h ele_block
  let aligned_w = upper_align layer.weight_w ele_block
  (ele_h, ele_w) ← comb_chunk sys layer.data_bytes aligned_h aligned_w
  check (ltb 0 ele_h && ltb 0 ele_w)
  let space_vector = space_aligned_vertex layer sys.block_size
  h_interval ← divide sys.cap_inbuf space_vector
  w_interval ← divide sys.cap_aggrbuf space_vector
  in_batch ← divide sys.cap_comb_inbuf (ele_h * layer.data_bytes)
  out_batch ← divide sys.cap_outbuf (ele_w * layer.data_bytes)
  check (ltb 1 (min in_batch out_batch))
  some (record {
    sz_comb_batch = min in_batch out_batch;
    sz_comb_h_chunk = ele_h * layer.data_bytes;
    sz_comb_w_chunk = ele_w * layer.data_bytes;
    ele_comb_h_chunk = ele_h;
    ele_comb_w_chunk = ele_w;
    num_comb_h_chunk = ceil_div aligned_h ele_h;
    num_comb_w_chunk = ceil_div aligned_w ele_w;
    aligned_weight_h = aligned_h;
    aligned_weight_w = aligned_w;
    space_weight_block = ele_h * ele_w * layer.data_bytes;
    space_aligned_weight =
        ele_w * ele_h * layer.data_bytes * ceil_div aligned_h ele_h * ceil_div aligned_w ele_w;
    ele_aggr_h_interval = h_interval;
    ele_aggr_w_interval = min w_interval (ceil_div num_vertex 2);
  })
