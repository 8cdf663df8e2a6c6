-- ===== src/Simd/Run.antt =====
-- simd.h: a task runs for as many cycles as it has edges.
use hy_gcn_a_gcn_accelerator.Base.{
  ℕ, zero, suc, ◌+◌, ◌*◌, ◌≤◌, ◌<◌, ◌≡◌, ◌≢◌, ap, ◌∙◌, true, false, some, pos, arith, u64,
}
use hy_gcn_a_gcn_accelerator.Simd.{Simd, computing, ready, idle, clock_tick, assign_task}

pub ticks : ℕ → Simd → Simd
ticks zero s = s
ticks (suc n) s = ticks n (clock_tick s)

-- `k` cycles into a task of `d` edges, at `m` operations.
abbrev Works : ℕ → ℕ → ℕ → Simd → Type 0
Works d w m s = (s.state ≡ computing) × (s.depth ≡ pos d) × (s.width ≡ w) × (s.num_mac_op ≡ m)

clock_tick-Works :
    (d w m : ℕ) (s : Simd)
    → Works (suc (suc d)) w m s
    → Works (suc d) w (u64 (m + w)) (clock_tick s)
unfolding clock_tick
clock_tick-Works d w m s h = ground arith

clock_tick-last :
    (w m : ℕ) (s : Simd)
    → Works 1 w m s
    → ((clock_tick s).state ≡ ready) × ((clock_tick s).num_mac_op ≡ u64 (m + w))
unfolding clock_tick
clock_tick-last w m s h = ground arith

u64_add : (m a b : ℕ) → u64 (u64 (m + a) + b) ≡ u64 (m + (a + b))
u64_add m a b = omega arith

ticks-Works : (d w m k : ℕ) (s : Simd) → Works (suc d) w m s → k ≤ d → (ticks k s).state ≡ computing
unfolding ticks
ticks-Works d w m zero s h p = h.0
ticks-Works zero w m (suc k) s h p = absurd (omega arith)
ticks-Works (suc d) w m (suc k) s h p =
    ticks-Works d w (u64 (m + w)) k (clock_tick s) (clock_tick-Works d w m s h) (omega arith)

ticks-last :
    (d w m : ℕ) (s : Simd)
    → Works (suc d) w m s
    → ((ticks (suc d) s).state ≡ ready) × ((ticks (suc d) s).num_mac_op ≡ u64 (m + suc d * w))
unfolding ticks
ticks-last zero w m s h = ground (arith, clock_tick-last w m s h)
ticks-last (suc d) w m s h =
    let ih = ticks-last d w (u64 (m + w)) (clock_tick s) (clock_tick-Works d w m s h) in
    (ih.0, ih.1 ∙ u64_add m w (suc d * w) ∙ ap (λ t. u64 (m + t)) (omega arith))

-- An idle core that takes a task of `edges` edges computes for exactly that many cycles: it is
-- computing after fewer, ready after `edges`, and has then counted `edges * len_feature` operations.
pub assign_task-ticks :
    (s t : Simd) (len_feature edges : ℕ)
    → 0 < edges
    → assign_task s len_feature edges ≡ some (t, true)
    → ((k : ℕ) → k < edges → (ticks k t).state ≡ computing)
      × ((ticks edges t).state ≡ ready)
      × ((ticks edges t).num_mac_op ≡ u64 (s.num_mac_op + edges * len_feature))
unfolding assign_task
assign_task-ticks s t len zero h e = elim h [ ]
assign_task-ticks s t len (suc d) h e =
    let works : Works (suc d) len s.num_mac_op t = ground arith in
    let last = ticks-last d len s.num_mac_op t works in
    ((λ k p. ticks-Works d len s.num_mac_op k t works (omega arith)), last.0, last.1)

-- Only an idle core takes a task; any other is left as it was.
assign_task-busy :
    (s : Simd) (len_feature edges : ℕ)
    → s.state ≢ idle
    → assign_task s len_feature edges ≡ some (s, false)
unfolding assign_task
assign_task-busy s len edges h = ground arith
