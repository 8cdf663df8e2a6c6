-- ===== src/Spma.antt =====
-- hygcn/hardware/spm.h, `SPMA`, and spm.cpp: one half of a double buffer of the aggregation engine.
-- A field that the source sets to -1 is `none` here.
pub mod Target
use hy_gcn_a_gcn_accelerator.Base.{
  ℕ, Bool, true, false, Option, none, some, List, [], ◌∷◌, ℤ, pos, decrement, eqb_ℤ, ◌==◌, not,
  if◌then◌else◌, first_from,
}

pub data State : Type 0 where
  filling ready draining writing idle : State

pub record Spma : Type 0 where
  pub matrix_h : ℕ
  pub matrix_w : ℕ
  pub start_vertex : Option ℕ
  pub end_vertex : Option ℕ
  pub edge_chunk_id : ℕ
  pub edge_part_cnt : ℕ
  pub num_edge_part : Option ℕ
  pub edge_parts : List (List (List ℕ))
  pub input_edge : List (List ℕ)
  pub neighbors : List ℕ
  pub ebuf_ptr : Option ℕ
  pub vertex_ptr : Option ℕ
  pub feature_chunk_cnt : ℕ
  pub num_feature_chunk : ℕ
  pub non_empty_vertex : ℕ
  pub state : State
  pub cap_buf : ℕ
  pub event_cnt : ℤ

unfoldable pub new : ℕ → Spma
new cap_buf = record {
  matrix_h = 0;
  matrix_w = 0;
  start_vertex = none;
  end_vertex = none;
  edge_chunk_id = 1;
  edge_part_cnt = 0;
  num_edge_part = none;
  edge_parts = [];
  input_edge = [];
  neighbors = [];
  ebuf_ptr = none;
  vertex_ptr = none;
  feature_chunk_cnt = 0;
  num_feature_chunk = 0;
  non_empty_vertex = 0;
  state = idle;
  cap_buf = cap_buf;
  event_cnt = pos 0;
}

unfoldable pub switch_state : Spma → State → Spma
switch_state b idle = record b {
  state = idle;
  start_vertex = none;
  end_vertex = none;
  edge_chunk_id = 1;
  edge_part_cnt = 0;
  num_edge_part = none;
  edge_parts = [];
  neighbors = [];
  ebuf_ptr = none;
  input_edge = [];
  vertex_ptr = none;
  feature_chunk_cnt = 0;
  num_feature_chunk = 0;
  non_empty_vertex = 0;
}
switch_state b ready = record b { state = ready; vertex_ptr = b.start_vertex }
switch_state b filling = record b { state = filling }
switch_state b draining = record b { state = draining }
switch_state b writing = record b { state = writing }

abbrev pub code : State → ℕ
code filling = 0
code ready = 1
code draining = 2
code writing = 3
code idle = 4

-- `GetState() == s`.
abbrev pub is_in : State → Spma → Bool
is_in s b = code b.state == code s

abbrev pub is_ready : Spma → Bool
is_ready b = is_in ready b

-- The source assigns the counter, it does not add to it.
abbrev pub add_events : Spma → ℕ → Spma
add_events b num = record b { event_cnt = pos num }

abbrev pub confirm_event : Spma → Spma
confirm_event b = record b { event_cnt = decrement b.event_cnt }

abbrev pub event_done : Spma → Bool
event_done b = eqb_ℤ b.event_cnt (pos 0)

abbrev pub set_matrix_shape : Spma → ℕ → ℕ → Spma
set_matrix_shape b h w = record b { matrix_h = h; matrix_w = w }

-- The index of the first buffer in the state; the -1 of the source is `none`.
unfoldable pub get_target_buf : List Spma → State → Option ℕ
unfolding first_from
get_target_buf bufs state = first_from (is_in state) 0 bufs

unfoldable pub all_buf_idle : List Spma → Bool
all_buf_idle [] = true
all_buf_idle (b ∷ bufs) = let rest = all_buf_idle bufs in if not (is_in idle b) then false else rest
