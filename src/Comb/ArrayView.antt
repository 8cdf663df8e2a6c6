-- ===== src/Comb/ArrayView.antt =====
-- hygcn/hardware/systolic_arr.cpp: a cycle of the array for the engine that waits for it.
use hy_gcn_a_gcn_accelerator.Base.{
  ap, sym, ◌∙◌, ◌+◌, ◌≡◌, refl, inl, inr, Bool, true, false, ◌==◌, ltb, leb_ℤ, eqb_ℤ, pos,
  decrement, arith, Bool-cases,
}
use hy_gcn_a_gcn_accelerator.SystolicArray.{
  SystolicArray, ArrayState, filling, computing, ready, out_sync, finished, idle, Tiling,
  count_tile, issue_tile, gen_data_flow, clock_tick, is_idle, sz_row,
}

-- An array that stays bound to its buffers and stays at work.
abbrev Stays : SystolicArray → SystolicArray → Type 0
Stays s s' = (s'.binding ≡ s.binding) × (is_idle s' ≡ false)

abbrev is_idle_state : ArrayState → Bool
is_idle_state idle = true
is_idle_state _ = false

count_tile-busy :
    (t : Tiling) (st : ArrayState)
    → is_idle_state st ≡ false
    → is_idle_state (count_tile t st).1 ≡ false
unfolding count_tile
count_tile-busy t st h = ground (arith, h)

-- What a cycle leaves as it is.
abbrev Same : SystolicArray → SystolicArray → Type 0
Same s s' = (s'.binding ≡ s.binding) × (is_idle s' ≡ is_idle s)

issue_tile-Stays : (s : SystolicArray) → Stays s (issue_tile s)
unfolding issue_tile
issue_tile-Stays s = (refl, count_tile-busy _ filling refl)

gen_data_flow-Stays : (s : SystolicArray) → Stays s (gen_data_flow s)
unfolding gen_data_flow
gen_data_flow-Stays s = elim (Bool-cases (s.tiling.h_tile_cnt == 0)) [
  | inl e ↦ elim (Bool-cases (ltb s.cap_outbuf (s.tiling.sz_output + sz_row s))) [
    | inl f ↦ rw (e, f) (refl, refl)
    | inr f ↦
        rw (e, f)
          (issue_tile-Stays
            (record s { tiling = record s.tiling { sz_output = s.tiling.sz_output + sz_row s } }))
  ]
  | inr e ↦ rw e (issue_tile-Stays s)
]

clock_tick-at : (s : SystolicArray) (st : ArrayState) → s.state ≡ st → Same s (clock_tick s)
unfolding clock_tick
clock_tick-at s filling e = elim (Bool-cases (leb_ℤ (decrement s.fill_weight_cycle) (pos 0))) [
  | inl f ↦ rw (e, f) (refl, refl)
  | inr f ↦ rw (e, f) (refl, refl)
]
clock_tick-at s computing e = elim (Bool-cases (eqb_ℤ (decrement s.compute_cycle) (pos 0))) [
  | inl f ↦ rw (e, f) (refl, refl)
  | inr f ↦ rw (e, f) (refl, refl)
]
clock_tick-at s ready e =
    let (same, busy) = gen_data_flow-Stays s in
    let tick : clock_tick s ≡ gen_data_flow s = simp (e, clock_tick) in
    let here : is_idle s ≡ false = simp (e, is_idle) in
    (ap (λ t. t.binding) tick ∙ same, ap is_idle tick ∙ busy ∙ sym here)
clock_tick-at s out_sync e = rw e (refl, refl)
clock_tick-at s finished e = rw e (refl, refl)
clock_tick-at s idle e = rw e (refl, refl)

pub clock_tick-Same : (s : SystolicArray) → Same s (clock_tick s)
clock_tick-Same s = clock_tick-at s s.state refl
