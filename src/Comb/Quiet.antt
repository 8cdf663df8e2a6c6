-- ===== src/Comb/Quiet.antt =====
-- comb.cpp, `ClockTick` of an engine that is done: it requests nothing more.
use hy_gcn_a_gcn_accelerator.Base.{
  ℕ, zero, suc, ◌+◌, ◌≡◌, refl, sym, ap, ◌∙◌, subst, inl, inr, Bool, true, false, Option, some,
  ◌==◌, if◌then◌else◌, get_elem?, Bool-cases, Option-cases, some-eq, >>=-eq-some, ◌>>=◌,
}
use hy_gcn_a_gcn_accelerator.Spm
use hy_gcn_a_gcn_accelerator.Spm.{Spm, event_done, get_target_buf}
use hy_gcn_a_gcn_accelerator.SystolicArray
use hy_gcn_a_gcn_accelerator.SystolicArray.{SystolicArray, ArrayState, Matrix, set_matrix, is_idle}
use hy_gcn_a_gcn_accelerator.Config.Layers.{HyConfig}
use hy_gcn_a_gcn_accelerator.Comb.{
  Comb, World, update, to_state, get_ready_for_compute, fetch_next_block,
}
use hy_gcn_a_gcn_accelerator.Comb.Traffic.{gen_comb_data_flow}
use hy_gcn_a_gcn_accelerator.Comb.Cycle.{
  collect, start_array, launch, serve_array, count_cycle, clock_tick,
}
use hy_gcn_a_gcn_accelerator.Comb.Simulation.{
  Readied, not_ready, is_ready, get_ready_for_compute-Readied,
}

-- Cycles of the engine one after another.
unfoldable pub cycles : HyConfig → ℕ → World → Option World
cycles hy zero w = some w
cycles hy (suc n) w = clock_tick hy w >>= cycles hy n

-- What an engine that is done leaves as it is.
abbrev Quiet : World → World → Type 0
Quiet w w' = (w'.coordinator ≡ w.coordinator) × (w'.comb.is_done ≡ w.comb.is_done)

collect-Quiet : (w : World) {w' : World} → collect w ≡ some w' → Quiet w w'
unfolding collect
collect-Quiet w {w'} e = elim (Option-cases w.comb.writing_outbuf_ptr) [
  | inr (k, a) ↦ subst (Quiet w) (some-eq (simp (a, collect) at e)) (refl, refl)
  | inl a ↦
      let c = w.comb in
      let s = w.array.binding in
      let last = (s.output_chunk + 1) == c.num_output_chunk in
      let (_, _, r₁) =
        >>=-eq-some (update (to_state (if last then Spm.idle else Spm.ready)) s.cur_inbuf c.inbuf) _
          (rw (a, collect) at e) in
      let (_, _, r₂) = >>=-eq-some (update (to_state Spm.idle) s.cur_wbuf c.wbuf) _ r₁ in
      let (_, _, r₃) = >>=-eq-some (update (to_state Spm.writing) s.cur_outbuf c.outbuf) _ r₂ in
      subst (Quiet w) (some-eq r₃) (refl, refl)
]

fetch_next_block-is_done : (c : Comb) → (fetch_next_block c).is_done ≡ c.is_done
unfolding fetch_next_block
fetch_next_block-is_done c = elim (Bool-cases ((c.output_chunk_cnt + 1) == c.num_output_chunk)) [
  | inl e ↦ elim (Bool-cases ((c.input_chunk_cnt + 1) == c.num_input_chunk)) [
    | inl f ↦ rw (e, f) refl
    | inr f ↦ rw (e, f) refl
  ]
  | inr e ↦ elim (Bool-cases (c.input_chunk_cnt == c.num_input_chunk)) [
    | inl f ↦ rw (e, f) refl
    | inr f ↦ rw (e, f) refl
  ]
]

start_array-Quiet :
    (w : World) (c : Comb) {w' : World}
    → c.is_done ≡ w.comb.is_done
    → start_array w c ≡ some w'
    → Quiet w w'
unfolding start_array
start_array-Quiet w c same e =
    let (i, _, e₁) = >>=-eq-some (get_target_buf c.inbuf Spm.draining) _ e in
    let (j, _, e₂) = >>=-eq-some (get_target_buf c.wbuf Spm.draining) _ e₁ in
    let (ib, _, e₃) = >>=-eq-some (get_elem? c.inbuf i) _ e₂ in
    let (wb, _, e₄) = >>=-eq-some (get_elem? c.wbuf j) _ e₃ in
    let a : Matrix = record { h = ib.matrix_h; w = ib.matrix_w } in
    let b : Matrix = record { h = wb.matrix_h; w = wb.matrix_w } in
    let (array, _, e₅) = >>=-eq-some (set_matrix w.array a b) _ e₄ in
    subst (Quiet w) (some-eq e₅) (refl, fetch_next_block-is_done c ∙ same)

Readied-is_done : {c c' : Comb} {r : Bool} → Readied c c' r → c'.is_done ≡ c.is_done
Readied-is_done (not_ready x) = ap (λ c. c.is_done) (sym x)
Readied-is_done (is_ready i j k ib wb ob _ _ _ _ _ _ x) = ap (λ c. c.is_done) (sym x)

launch-Quiet : (w : World) {w' : World} → launch w ≡ some w' → Quiet w w'
unfolding launch
launch-Quiet w {w'} e =
    let ((c, r), run, rest) = >>=-eq-some (get_ready_for_compute w.comb) _ e in
    go c r (Readied-is_done (get_ready_for_compute-Readied w.comb run)) rest
  where
    go :
        (c : Comb) (r : Bool)
        → c.is_done ≡ w.comb.is_done
        → (if r then start_array w c else some (record w { comb = c })) ≡ some w'
        → Quiet w w'
    go c true x h = start_array-Quiet w c x h
    go c false x h = subst (Quiet w) (some-eq h) (refl, x)

serve_array-Quiet : (w : World) {w' : World} → serve_array w ≡ some w' → Quiet w w'
unfolding serve_array SystolicArray.get_state
serve_array-Quiet w {w'} e = go w.array.state refl
  where
    go : (st : ArrayState) → w.array.state ≡ st → Quiet w w'
    go SystolicArray.out_sync h = let e' = simp (h, serve_array) at e in cc
    go SystolicArray.finished h = collect-Quiet w (simp (h, serve_array) at e)
    go SystolicArray.idle h = launch-Quiet w (simp (h, serve_array) at e)
    go SystolicArray.filling h = subst (Quiet w) (some-eq (simp (h, serve_array) at e)) (refl, refl)
    go SystolicArray.computing h =
        subst (Quiet w) (some-eq (simp (h, serve_array) at e)) (refl, refl)
    go SystolicArray.ready h = subst (Quiet w) (some-eq (simp (h, serve_array) at e)) (refl, refl)

count_cycle-done : (c : Comb) → c.is_done ≡ true → (count_cycle c).is_done ≡ true
unfolding count_cycle
count_cycle-done c d = elim (Bool-cases (c.vertex_ptr == c.halt_vertex)) [
  | inl e ↦ rw (e, d) refl
  | inr e ↦ rw (e, d) refl
]

-- An engine that is done requests nothing more.
done-cycle :
    (hy : HyConfig) (w : World) {w' : World}
    → w.comb.is_done ≡ true
    → clock_tick hy w ≡ some w'
    → (w'.coordinator ≡ w.coordinator) × (w'.comb.is_done ≡ true)
unfolding clock_tick gen_comb_data_flow
done-cycle hy w {w'} d e =
    let w₀ : World = record w { array = SystolicArray.clock_tick w.array } in
    let (w₁, f₁, r₁) = >>=-eq-some (serve_array w₀) _ e in
    let (same, still) = serve_array-Quiet w₀ f₁ in
    let halted : gen_comb_data_flow hy w₁ ≡ some w₁ = simp (still ∙ d, gen_comb_data_flow) refl in
    let (w₂, f₂, r₂) = >>=-eq-some (gen_comb_data_flow hy w₁) _ r₁ in
    let w₁₂ : w₁ ≡ w₂ = some-eq (sym halted ∙ f₂) in
    let w₂' = some-eq r₂ in
    (
      ap (λ w. w.coordinator) (sym w₂') ∙ ap (λ w. w.coordinator) (sym w₁₂) ∙ same,
      ap (λ w. w.comb.is_done) (sym w₂')
          ∙ count_cycle-done w₂.comb (ap (λ w. w.comb.is_done) (sym w₁₂) ∙ still ∙ d),
    )

pub done-cycles :
    (hy : HyConfig) (n : ℕ) (w : World) {w' : World}
    → w.comb.is_done ≡ true
    → cycles hy n w ≡ some w'
    → w'.coordinator ≡ w.coordinator
unfolding cycles
done-cycles hy zero w d e = ap (λ w. w.coordinator) (sym (some-eq e))
done-cycles hy (suc n) w d e =
    let (w₁, f, r) = >>=-eq-some (clock_tick hy w) _ e in
    let (same, still) = done-cycle hy w d f in done-cycles hy n w₁ still r ∙ same
