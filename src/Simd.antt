-- ===== src/Simd.antt =====
-- hygcn/hardware/simd.h: one SIMD core, which adds up one chunk of the features of one vertex, an
-- edge a cycle. The -1 of `vertex_id`, `feature_chunk_id` and `inbuf_ptr` is `none`.
pub mod Run
mod Tests
use hy_gcn_a_gcn_accelerator.Base.{
  ℕ, ◌+◌, ◌*◌, ◌/◌, Bool, true, false, Option, none, some, ℤ, pos, decrement, leb_ℤ, leb, u64,
  if◌then◌else◌, ◌>>=◌, ◌>>◌, check,
}

pub data State : Type 0 where
  computing ready synced idle : State

pub record Simd : Type 0 where
  pub num_mac_op : ℕ
  pub byte_inbuf_read : ℕ
  pub byte_aggrbuf_read : ℕ
  pub byte_aggrbuf_write : ℕ
  pub byte_ebuf_read : ℕ
  pub vertex_id : Option ℕ
  pub feature_chunk_id : Option ℕ
  pub inbuf_ptr : Option ℕ
  pub writeback_byte : ℕ
  pub num_mac : ℕ
  pub bit_width : ℕ
  pub depth : ℤ
  pub width : ℕ
  pub state : State

-- The constructor at its default `bit_width_ = 32`.
unfoldable pub new : ℕ → Simd
new num_mac = record {
  num_mac_op = 0;
  byte_inbuf_read = 0;
  byte_aggrbuf_read = 0;
  byte_aggrbuf_write = 0;
  byte_ebuf_read = 0;
  vertex_id = none;
  feature_chunk_id = none;
  inbuf_ptr = none;
  writeback_byte = num_mac * 32 / 8;
  num_mac = num_mac;
  bit_width = 32;
  depth = pos 0;
  width = 0;
  state = idle;
}

abbrev pub is_ready : Simd → Bool
is_ready s = elim s.state [ ready ↦ true | _ ↦ false ]

abbrev pub is_sync : Simd → Bool
is_sync s = elim s.state [ synced ↦ true | _ ↦ false ]

abbrev pub is_idle : Simd → Bool
is_idle s = elim s.state [ idle ↦ true | _ ↦ false ]

-- The body of `ClockTick` under `state == State::COMPUTING`.
compute : Simd → Simd
compute s =
    let t = record s {
      depth = decrement s.depth;
      num_mac_op = u64 (s.num_mac_op + s.width);
      byte_inbuf_read = u64 (s.byte_inbuf_read + s.width * s.bit_width / 8);
    } in
    if leb_ℤ t.depth (pos 0) then record t { depth = pos 0; width = 0; state = ready } else t

unfoldable pub clock_tick : Simd → Simd
unfolding compute
clock_tick s = elim s.state [ computing ↦ compute s | _ ↦ s ]

-- What is returned beside the core is the result of `AssignTask`.
unfoldable pub assign_task : Simd → ℕ → ℕ → Option (Simd × Bool)
assign_task s len_feature edges =
    if is_idle s
    then (do
      check (leb len_feature s.num_mac)
      some (
        record s {
          depth = pos edges;
          width = len_feature;
          state = computing;
          byte_aggrbuf_read = u64 (s.byte_aggrbuf_read + len_feature * s.bit_width / 8);
          byte_aggrbuf_write = u64 (s.byte_aggrbuf_write + len_feature * s.bit_width / 8);
          byte_ebuf_read = u64 (s.byte_ebuf_read + edges * s.bit_width / 8);
        },
        true,
      ))
    else some (s, false)

unfoldable pub switch_state : Simd → State → Simd
switch_state s idle = record s {
  state = idle;
  vertex_id = none;
  feature_chunk_id = none;
  inbuf_ptr = none;
}
switch_state s computing = record s { state = computing }
switch_state s ready = record s { state = ready }
switch_state s synced = record s { state = synced }
