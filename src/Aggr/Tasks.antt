-- ===== src/Aggr/Tasks.antt =====
-- aggr.cpp, `GenDataFlow`: the SIMD cores get their tasks.
use hy_gcn_a_gcn_accelerator.Base.{
  ℕ, zero, suc, ◌+◌, ◌-◌, ◌*◌, true, false, Option, none, some, List, leb, ltb, ◌==◌, if◌then◌else◌,
  ◌>>=◌, length, get_elem?, set, u64, first_from,
}
use hy_gcn_a_gcn_accelerator.Event.{
  Event, EventDataType, edram, dram, read, write, read_aggr, edge, weight, input_feature,
  aggr_feature, output_feature, none_data,
}
use hy_gcn_a_gcn_accelerator.Event
use hy_gcn_a_gcn_accelerator.Simd
use hy_gcn_a_gcn_accelerator.Simd.{Simd}
use hy_gcn_a_gcn_accelerator.Spma
use hy_gcn_a_gcn_accelerator.Spma.{
  Spma, is_in, confirm_event, event_done, add_events, get_target_buf, all_buf_idle,
}
use hy_gcn_a_gcn_accelerator.AggrBuf.{get_aggr_write_addr}
use hy_gcn_a_gcn_accelerator.Partition.{is_empty}
use hy_gcn_a_gcn_accelerator.Config.Layers.{HyConfig}
use hy_gcn_a_gcn_accelerator.Aggr.{World, set_inbuf, send}
use hy_gcn_a_gcn_accelerator.Aggr.Filling.{num_feature_chunk}

-- `GetIdleSIMD`.
unfoldable pub get_idle_simd : List Simd → Option ℕ
unfolding first_from
get_idle_simd simds = first_from Simd.is_idle 0 simds

-- A core takes the next chunk of features of the vertex at hand, whose row is `depth` edges long.
unfoldable pub give_task : HyConfig → ℕ → ℕ → Spma → ℕ → ℕ → World → Option World
give_task hy ptr i b v depth w = do
  s ← get_elem? w.aggr.simds i
  let s' = record s {
    vertex_id = some v;
    inbuf_ptr = some ptr;
    feature_chunk_id = some b.feature_chunk_cnt;
  }
  (s'', _) ← Simd.assign_task s' hy.sys_config.num_core_per_simd depth
  addr ← get_aggr_write_addr w.aggr_buf v b.feature_chunk_cnt
  w' ←
      send (Event.new hy.sys_config.block_size addr s''.writeback_byte edram read_aggr aggr_feature)
        w
  let b' =
      if (b.feature_chunk_cnt + 1) == num_feature_chunk hy
      then record b { feature_chunk_cnt = 0; vertex_ptr = some (v + 1) }
      else record b { feature_chunk_cnt = b.feature_chunk_cnt + 1 }
  let w'' = set_inbuf ptr b' w'
  some (record w'' {
    aggr = record w''.aggr {
      simds = set w''.aggr.simds i s'';
      event_out = u64 (w''.aggr.event_out + 1);
    };
  })

-- The vertex at hand, the end and the start of a buffer in use.
abbrev pub cursor : Spma → Option (ℕ × ℕ × ℕ)
cursor b = do v ← b.vertex_ptr; end ← b.end_vertex; start ← b.start_vertex; some (v, end, start)

-- `input_edge[vertex - start]`.
abbrev pub row_at : Spma → ℕ → ℕ → Option (List ℕ)
row_at b start v = if leb start v then get_elem? b.input_edge (v - start) else none

-- The `while (true)` over the idle cores, on fuel.
unfoldable pub give_tasks : HyConfig → ℕ → ℕ → World → Option World
unfolding give_task
give_tasks hy zero ptr w = none
give_tasks hy (suc fuel) ptr w = elim (get_idle_simd w.aggr.simds) [
  | none ↦ some w
  | some i ↦ elim (get_elem? w.aggr.inbuf ptr) [
    | none ↦ none
    | some b ↦ elim (cursor b) [
      | none ↦ none
      | some (v, end, start) ↦ elim (ltb v end) [
        | false ↦ some w
        | true ↦ elim (row_at b start v) [
          | none ↦ none
          | some row ↦ elim (is_empty row) [
            | true ↦
                give_tasks hy fuel ptr (set_inbuf ptr (record b { vertex_ptr = some (v + 1) }) w)
            | false ↦ elim (give_task hy ptr i b v (length row) w) [
              | none ↦ none
              | some w' ↦ give_tasks hy fuel ptr w'
            ]
          ]
        ]
      ]
    ]
  ]
]

-- A round gives a task to an idle core or passes a row by.
abbrev pub task_fuel : World → Spma → ℕ
task_fuel w b = length w.aggr.simds + length b.input_edge + 1

-- `GenDataFlow`, SIMD cores: the draining input buffer goes before a ready one.
unfoldable pub gen_tasks : HyConfig → World → Option World
unfolding give_tasks
gen_tasks hy w = elim (get_target_buf w.aggr.inbuf Spma.draining) [
  | some d ↦ do b ← get_elem? w.aggr.inbuf d; give_tasks hy (task_fuel w b) d w
  | none ↦ elim (get_target_buf w.aggr.inbuf Spma.ready) [
    | none ↦ some w
    | some r ↦ do
      b ← get_elem? w.aggr.inbuf r
      let b' =
          Spma.switch_state (add_events b (b.non_empty_vertex * num_feature_chunk hy)) Spma.draining
      give_tasks hy (task_fuel w b) r (set_inbuf r b' w)
  ]
]
