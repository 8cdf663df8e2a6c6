-- ===== src/Comb/Serves.antt =====
-- comb.cpp, `ClockTick`: which buffers the array takes.
use hy_gcn_a_gcn_accelerator.Base.{
  ℕ, ◌≡◌, refl, sym, ap, inl, inr, Bool, true, false, some, if◌then◌else◌, get_elem?, ◌+◌, ◌==◌,
  Option-cases, some-eq, >>=-eq-some,
}
use hy_gcn_a_gcn_accelerator.Spm
use hy_gcn_a_gcn_accelerator.Spm.{Spm}
use hy_gcn_a_gcn_accelerator.SystolicArray
use hy_gcn_a_gcn_accelerator.SystolicArray.{ArrayState, is_idle}
use hy_gcn_a_gcn_accelerator.Comb.{
  Comb, World, update, to_state, get_ready_for_compute, get_ready_buf,
}
use hy_gcn_a_gcn_accelerator.Comb.Cycle.{collect, start_array, launch, serve_array}
use hy_gcn_a_gcn_accelerator.Comb.View.{get_target_buf-ready}

-- Inputs and weights that are `READY`.
pub record BothReady (c : Comb) : Type 0 where
  pub inputs : Spm
  pub weights : Spm
  pub i : ℕ
  pub j : ℕ
  pub inputs_at : get_elem? c.inbuf i ≡ some inputs
  pub inputs_ready : inputs.state ≡ Spm.ready
  pub weights_at : get_elem? c.wbuf j ≡ some weights
  pub weights_ready : weights.state ≡ Spm.ready

-- What a cycle does to the array: an idle one begins to work only on buffers that are `READY`.
pub data Serves (w w₁ : World) : Type 0 where
  keeps : is_idle w₁.array ≡ is_idle w.array → Serves w w₁
  takes : is_idle w.array ≡ true → BothReady w.comb → Serves w w₁
  gives : is_idle w.array ≡ false → is_idle w₁.array ≡ true → Serves w w₁

get_ready_for_compute-BothReady :
    (c : Comb) {c' : Comb} → get_ready_for_compute c ≡ some (c', true) → BothReady c
unfolding get_ready_for_compute
get_ready_for_compute-BothReady c e = elim (Option-cases (get_ready_buf c.inbuf)) [
  | inl a ↦ let e' = rw (a, get_ready_for_compute) at e in cc
  | inr (i, a) ↦ elim (Option-cases (get_ready_buf c.wbuf)) [
    | inl b ↦ let e' = rw (a, b, get_ready_for_compute) at e in cc
    | inr (j, b) ↦
        let (inputs, at_i, is_i) = get_target_buf-ready c.inbuf a in
        let (weights, at_j, is_j) = get_target_buf-ready c.wbuf b in
        record {
          inputs = inputs;
          weights = weights;
          i = i;
          j = j;
          inputs_at = at_i;
          inputs_ready = is_i;
          weights_at = at_j;
          weights_ready = is_j;
        }
  ]
]

launch-Serves : (w : World) {w₁ : World} → is_idle w.array ≡ true → launch w ≡ some w₁ → Serves w w₁
unfolding launch
launch-Serves w {w₁} idle e =
    let ((c, r), run, rest) = >>=-eq-some (get_ready_for_compute w.comb) _ e in go c r run rest
  where
    go :
        (c : Comb) (r : Bool)
        → get_ready_for_compute w.comb ≡ some (c, r)
        → (if r then start_array w c else some (record w { comb = c })) ≡ some w₁
        → Serves w w₁
    go c true run h = takes idle (get_ready_for_compute-BothReady w.comb run)
    go c false run h = keeps (ap (λ v. is_idle v.array) (sym (some-eq h)))

collect-Serves :
    (w : World) {w₁ : World} → is_idle w.array ≡ false → collect w ≡ some w₁ → Serves w w₁
unfolding collect SystolicArray.get_result
collect-Serves w {w₁} busy e = elim (Option-cases w.comb.writing_outbuf_ptr) [
  | inr (k, a) ↦ keeps (ap (λ v. is_idle v.array) (sym (some-eq (rw (a, collect) at e))))
  | inl a ↦
      let s = w.array.binding in
      let last = (s.output_chunk + 1) == w.comb.num_output_chunk in
      let (ibs, _, r₁) =
        >>=-eq-some
          (update (to_state (if last then Spm.idle else Spm.ready)) s.cur_inbuf w.comb.inbuf) _
          (rw (a, collect) at e) in
      let (wbs, _, r₂) = >>=-eq-some (update (to_state Spm.idle) s.cur_wbuf w.comb.wbuf) _ r₁ in
      let (obs, _, r₃) =
        >>=-eq-some (update (to_state Spm.writing) s.cur_outbuf w.comb.outbuf) _ r₂ in
      gives busy (ap (λ v. is_idle v.array) (sym (some-eq r₃)))
]

pub serve_array-Serves : (w : World) {w₁ : World} → serve_array w ≡ some w₁ → Serves w w₁
unfolding serve_array SystolicArray.get_state
serve_array-Serves w {w₁} e = go w.array.state refl
  where
    stays : some w ≡ some w₁ → Serves w w₁
    stays h = keeps (ap (λ v. is_idle v.array) (sym (some-eq h)))

    go : (st : ArrayState) → w.array.state ≡ st → Serves w w₁
    go SystolicArray.out_sync h = let e' = simp (h, serve_array) at e in cc
    go SystolicArray.finished h = collect-Serves w (simp (h, is_idle)) (simp (h, serve_array) at e)
    go SystolicArray.idle h = launch-Serves w (simp (h, is_idle)) (simp (h, serve_array) at e)
    go SystolicArray.filling h = stays (simp (h, serve_array) at e)
    go SystolicArray.computing h = stays (simp (h, serve_array) at e)
    go SystolicArray.ready h = stays (simp (h, serve_array) at e)
