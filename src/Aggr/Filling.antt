-- ===== src/Aggr/Filling.antt =====
-- aggr.cpp, `GenDataFlow`: the edge buffers and the input buffers are filled.
use hy_gcn_a_gcn_accelerator.Base.{
  ℕ, ◌+◌, ◌*◌, min, Bool, true, false, Option, none, some, List, [], ◌∷◌, ltb, ◌==◌, ◌&&◌,
  if◌then◌else◌, ◌>>=◌, ◌>>◌, check, length, get_elem?, u64, ceil_div,
}
use hy_gcn_a_gcn_accelerator.Event.{
  Event, EventDataType, edram, dram, read, write, read_aggr, edge, weight, input_feature,
  aggr_feature, output_feature, none_data,
}
use hy_gcn_a_gcn_accelerator.Event
use hy_gcn_a_gcn_accelerator.Spma
use hy_gcn_a_gcn_accelerator.Spma.{
  Spma, is_in, confirm_event, event_done, add_events, get_target_buf, all_buf_idle,
}
use hy_gcn_a_gcn_accelerator.AggrBuf.{start_aggr, will_allocate}
use hy_gcn_a_gcn_accelerator.Partition.{partition, sparsity_elimination, is_empty}
use hy_gcn_a_gcn_accelerator.Config.{space_aligned_vertex}
use hy_gcn_a_gcn_accelerator.Config.Layers.{HyConfig}
use hy_gcn_a_gcn_accelerator.Aggr.{World, num_vertex_of, set_ebuf, set_inbuf, send}

unfoldable pub num_feature_chunk : HyConfig → ℕ
num_feature_chunk hy = ceil_div hy.layer_config.weight_h hy.sys_config.num_core_per_simd

-- Buffer `i`, which is `b`, takes chunk `cnt`.
unfoldable pub load_chunk : HyConfig → ℕ → Spma → ℕ → World → Option World
load_chunk hy i b cnt w = do
  start ← get_elem? hy.mapper.start_vertex_of_echunk cnt
  end ← get_elem? hy.mapper.end_vertex_of_echunk cnt
  chunk ← get_elem? hy.mapper.edge_chunk cnt
  parts ← partition hy.raw_graph.num_vertex hy.tile_config.ele_aggr_h_interval chunk
  let b' = record (add_events (Spma.switch_state b Spma.filling) 1) {
    edge_chunk_id = cnt;
    start_vertex = some start;
    end_vertex = some end;
    edge_parts = parts;
    num_edge_part = some (length parts);
  }
  let w' = set_ebuf i b' w
  some (record w' { aggr = record w'.aggr { edge_chunk_cnt = cnt + 1 } })

-- `GenDataFlow`, edge buffer: an idle buffer takes the next chunk, if none is being filled.
unfoldable pub fill_ebuf : HyConfig → ℕ → World → Option World
unfolding load_chunk
fill_ebuf hy i w = do
  b ← get_elem? w.aggr.ebuf i
  let cnt = w.aggr.edge_chunk_cnt
  let bytes = min hy.sys_config.cap_edgebuf hy.tile_config.space_aligned_weight
  let addr = u64 (hy.mapper.edge_start_addr + cnt * bytes)
  check (ltb addr hy.mapper.edge_end_addr)
  w₁ ← send (Event.new hy.sys_config.block_size addr bytes dram read edge) w
  load_chunk hy i b cnt w₁

unfoldable pub gen_edges : HyConfig → World → Option World
unfolding fill_ebuf
gen_edges hy w =
    if w.aggr.edge_chunk_cnt == w.aggr.num_edge_chunk
    then some w
    else elim (get_target_buf w.aggr.ebuf Spma.idle) [
      | none ↦ some w
      | some i ↦ elim (get_target_buf w.aggr.ebuf Spma.filling) [
        | none ↦ fill_ebuf hy i w
        | some _ ↦ some w
      ]
    ]

-- The ready edge buffer with the least start vertex; the first of them on a tie. `best` is the
-- least so far, `INT32_MAX` at first.
unfoldable pub least_ready : ℕ → ℕ → Option ℕ → List Spma → Option ℕ
least_ready i best ptr [] = ptr
least_ready i best ptr (b ∷ bufs) = elim b.start_vertex [
  | none ↦ least_ready (i + 1) best ptr bufs
  | some start ↦ elim (is_in Spma.ready b && ltb start best) [
    | true ↦ least_ready (i + 1) start (some i) bufs
    | false ↦ least_ready (i + 1) best ptr bufs
  ]
]

-- `n < m`, where `none` is -1.
abbrev pub below : ℕ → Option ℕ → Bool
below n none = false
below n (some m) = ltb n m

-- The edge buffer that the next input buffer works for, with the part it takes: the draining one,
-- or a ready one for which the aggregation buffer has room.
unfoldable pub choose_part : World → Option (World × Option (ℕ × ℕ))
unfolding least_ready
choose_part w = elim (get_target_buf w.aggr.ebuf Spma.draining) [
  | some d ↦ do
    b ← get_elem? w.aggr.ebuf d
    some (
        if below b.edge_part_cnt b.num_edge_part
        then (
          set_ebuf d (record b { edge_part_cnt = b.edge_part_cnt + 1 }) w,
          some (d, b.edge_part_cnt),
        )
        else (w, none))
  | none ↦ elim (get_target_buf w.aggr.ebuf Spma.ready) [
    | none ↦ some (w, none)
    | some _ ↦ do
      r ← least_ready 0 2147483647 none w.aggr.ebuf
      b ← get_elem? w.aggr.ebuf r
      num_vertex ← num_vertex_of b
      if will_allocate w.aggr_buf num_vertex
          then (do
            num ← b.num_edge_part
            check (ltb b.edge_part_cnt num)
            let b' = record (add_events (Spma.switch_state b Spma.draining) num) {
              edge_part_cnt = b.edge_part_cnt + 1;
            }
            some (
              set_ebuf r b' (record w { aggr_buf = start_aggr w.aggr_buf num_vertex }),
              some (r, b.edge_part_cnt),
            ))
          else some (w, none)
  ]
]

-- The loop over the rows of the part: the last row with an edge ends the part.
unfoldable pub count_rows : ℕ → ℕ → List (List ℕ) → Spma → Spma
count_rows i start [] b = b
count_rows i start (row ∷ rows) b = count_rows (i + 1) start rows (
    if is_empty row
    then b
    else record b { end_vertex = some (i + start + 1); non_empty_vertex = b.non_empty_vertex + 1 })

-- The loop over the neighbours: one read of the features each.
unfoldable pub fetch_neighbors : HyConfig → List ℕ → World → Option World
fetch_neighbors hy [] w = some w
fetch_neighbors hy (v ∷ vs) w = do
  let bytes = space_aligned_vertex hy.layer_config hy.sys_config.block_size
  let addr = u64 (hy.mapper.input_start_addr + v * bytes)
  check (ltb addr hy.mapper.input_end_addr)
  w' ← send (Event.new hy.sys_config.block_size addr bytes dram read input_feature) w
  fetch_neighbors hy vs w'

unfoldable pub fill_inbuf : HyConfig → ℕ → ℕ → ℕ → World → Option World
unfolding count_rows fetch_neighbors
fill_inbuf hy i bind_ebuf part_id w = do
  b ← get_elem? w.aggr.inbuf i
  eb ← get_elem? w.aggr.ebuf bind_ebuf
  part ← get_elem? eb.edge_parts part_id
  start ← eb.start_vertex
  let b₁ = record (Spma.switch_state b Spma.filling) {
    start_vertex = eb.start_vertex;
    end_vertex = eb.end_vertex;
    input_edge = part;
  }
  let neighbors = sparsity_elimination part
  let b₂ = record (count_rows 0 start part b₁) {
    neighbors = neighbors;
    ebuf_ptr = some bind_ebuf;
    num_feature_chunk = num_feature_chunk hy;
  }
  w' ← fetch_neighbors hy neighbors w
  some (set_inbuf i (add_events b₂ (length neighbors)) w')

-- `GenDataFlow`, input buffer.
unfoldable pub gen_inputs : HyConfig → World → Option World
unfolding choose_part fill_inbuf
gen_inputs hy w = elim (get_target_buf w.aggr.inbuf Spma.idle) [
  | none ↦ some w
  | some i ↦ elim (get_target_buf w.aggr.inbuf Spma.filling) [
    | some _ ↦ some w
    | none ↦ do
      (w', bind) ← choose_part w
      elim bind [ none ↦ some w' | some (e, part_id) ↦ fill_inbuf hy i e part_id w' ]
  ]
]
