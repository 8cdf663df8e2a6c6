-- ===== src/Spm.antt =====
-- hygcn/hardware/spm.h, `SPM`: one half of a double buffer of the combination engine. The shape,
-- which the constructor leaves uninitialised, is an argument of `new`.
use hy_gcn_a_gcn_accelerator.Base.{
  ℕ, Bool, Option, List, ℤ, pos, decrement, eqb_ℤ, ◌==◌, first_from,
}

pub data State : Type 0 where
  filling ready draining writing idle : State

pub record Spm : Type 0 where
  pub matrix_h : ℕ
  pub matrix_w : ℕ
  pub state : State
  pub cap_buf : ℕ
  pub event_cnt : ℤ

unfoldable pub new : ℕ → ℕ → ℕ → Spm
new h w cap_buf = record {
  matrix_h = h;
  matrix_w = w;
  state = idle;
  cap_buf = cap_buf;
  event_cnt = pos 0;
}

abbrev pub switch_state : Spm → State → Spm
switch_state b s = record b { state = s }

abbrev pub code : State → ℕ
code filling = 0
code ready = 1
code draining = 2
code writing = 3
code idle = 4

abbrev pub is_in : State → Spm → Bool
is_in s b = code b.state == code s

abbrev pub is_ready : Spm → Bool
is_ready b = is_in ready b

abbrev pub add_events : Spm → ℕ → Spm
add_events b num = record b { event_cnt = pos num }

abbrev pub confirm_event : Spm → Spm
confirm_event b = record b { event_cnt = decrement b.event_cnt }

abbrev pub event_done : Spm → Bool
event_done b = eqb_ℤ b.event_cnt (pos 0)

abbrev pub set_matrix_shape : Spm → ℕ → ℕ → Spm
set_matrix_shape b h w = record b { matrix_h = h; matrix_w = w }

-- `Comb::GetTargetBuf`, of comb.cpp.
unfoldable pub get_target_buf : List Spm → State → Option ℕ
unfolding first_from
get_target_buf buf state = first_from (is_in state) 0 buf
