-- ===== src/Simd/Tests.antt =====
-- The theorems on a SIMD core at concrete tasks.
use hy_gcn_a_gcn_accelerator.Base.{ℕ, ◌+◌, ◌*◌, ◌<◌, ◌≡◌, refl, pos, u64, arith}
use hy_gcn_a_gcn_accelerator.Simd.{Simd, new, assign_task, computing, ready}
use hy_gcn_a_gcn_accelerator.Simd.Run.{ticks, assign_task-ticks}

-- A core of 4 multipliers with a task of 3 edges and 2 features.
abbrev busy : Simd
unfolding new
busy = record (new 4) {
  depth = pos 3;
  width = 2;
  state = computing;
  byte_aggrbuf_read = 8;
  byte_aggrbuf_write = 8;
  byte_ebuf_read = 12;
}

assign_task-ticks_example :
    ((k : ℕ) → k < 3 → (ticks k busy).state ≡ computing)
    × ((ticks 3 busy).state ≡ ready)
    × ((ticks 3 busy).num_mac_op ≡ u64 ((new 4).num_mac_op + 3 * 2))
unfolding new assign_task
assign_task-ticks_example = assign_task-ticks (new 4) busy 2 3 (omega arith) refl
