-- ===== src/Spma/Target.antt =====
-- spm.cpp: what the search for a buffer finds.
use hy_gcn_a_gcn_accelerator.Base.{
  ◌≡◌, ◌↔◌, refl, true, List, [], ◌∷◌, All, Found, first_from-Found, arith,
}
use hy_gcn_a_gcn_accelerator.Spma.{Spma, State, idle, is_in, get_target_buf, all_buf_idle}

-- `GetTargetBuf` gives the first buffer in the state, and -1 exactly where no buffer is in it.
get_target_buf-Found :
    (bufs : List Spma) (s : State) → Found (is_in s) 0 bufs (get_target_buf bufs s)
unfolding get_target_buf
get_target_buf-Found bufs s = first_from-Found (is_in s) 0 bufs

-- `AllBufIdle` holds exactly where every buffer is idle.
all_buf_idle_iff : (bufs : List Spma) → (all_buf_idle bufs ≡ true) ↔ All (λ b. b.state ≡ idle) bufs
unfolding all_buf_idle
all_buf_idle_iff [] = (λ _. tt, λ _. refl)
all_buf_idle_iff (b ∷ bufs) =
    let ih = all_buf_idle_iff bufs in
    (λ h. (ground arith, ih.0 (ground arith)), λ h. ground (arith, ih.1 h.1))
