-- ===== src/Comb/Simulation.antt =====
-- comb.cpp, `ClockTick`: the moves of the control that a cycle makes.
use hy_gcn_a_gcn_accelerator.Base.{
  ℕ, ◌+◌, ◌≡◌, refl, sym, ap, ◌∙◌, subst, inl, inr, Bool, true, false, not, Option, some, List,
  ◌==◌, ◌&&◌, if◌then◌else◌, check, get_elem?, set, Bool-cases, Option-cases, some-eq, >>=-eq-some,
  ltb, leb, ◌*◌,
}
use hy_gcn_a_gcn_accelerator.Spm
use hy_gcn_a_gcn_accelerator.Spm.{Spm, get_target_buf}
use hy_gcn_a_gcn_accelerator.SystolicArray
use hy_gcn_a_gcn_accelerator.SystolicArray.{
  SystolicArray, ArrayState, Matrix, set_matrix, load_matrix, batch_of, is_idle,
}
use hy_gcn_a_gcn_accelerator.Comb.{
  Comb, World, update, to_state, get_ready_for_compute, fetch_next_block, get_ready_buf,
  get_idle_buf,
}
use hy_gcn_a_gcn_accelerator.Comb.Cycle.{collect, start_array, launch, serve_array}
use hy_gcn_a_gcn_accelerator.Comb.Slots.{free, load, drain}
use hy_gcn_a_gcn_accelerator.Comb.Protocol
use hy_gcn_a_gcn_accelerator.Comb.Protocol.{
  Control, Move, Moves, done, more, next_block, launched, collected,
}
use hy_gcn_a_gcn_accelerator.Comb.View.{
  kinds, view, view_of, kinds-set, update-some, get_target_buf-kind,
}

-- The counters and pointers go to the next block as those of the control do.
fetch_next_block-view :
    (c : Comb) (s : SystolicArray) → view (fetch_next_block c) s ≡ next_block (view c s)
unfolding fetch_next_block
fetch_next_block-view c s = elim (Bool-cases ((c.output_chunk_cnt + 1) == c.num_output_chunk)) [
  | inl e ↦ elim (Bool-cases ((c.input_chunk_cnt + 1) == c.num_input_chunk)) [
    | inl f ↦ rw (e, f) refl
    | inr f ↦ rw (e, f) refl
  ]
  | inr e ↦ elim (Bool-cases (c.input_chunk_cnt == c.num_input_chunk)) [
    | inl f ↦ rw (e, f) refl
    | inr f ↦ rw (e, f) refl
  ]
]

-- What `GetReadyForCompute` makes of the engine.
pub data Readied (c c' : Comb) : Bool → Type 0 where
  not_ready : c ≡ c' → Readied c c' false
  is_ready :
      (i j k : ℕ) (inbuf wbuf outbuf : List Spm)
      → get_elem? (kinds c.inbuf) i ≡ some load
      → get_elem? (kinds c.wbuf) j ≡ some load
      → get_elem? (kinds c.outbuf) k ≡ some free
      → kinds inbuf ≡ set (kinds c.inbuf) i drain
      → kinds wbuf ≡ set (kinds c.wbuf) j drain
      → kinds outbuf ≡ set (kinds c.outbuf) k load
      → record c { inbuf = inbuf; wbuf = wbuf; outbuf = outbuf; filling_outbuf_ptr = some k } ≡ c'
      → Readied c c' true

pub get_ready_for_compute-Readied :
    (c : Comb) {c' : Comb} {r : Bool} → get_ready_for_compute c ≡ some (c', r) → Readied c c' r
unfolding get_ready_for_compute
get_ready_for_compute-Readied c {c'} {r} e = elim (Option-cases (get_ready_buf c.inbuf)) [
  | inl a ↦ stays (rw (a, get_ready_for_compute) at e)
  | inr (i, a) ↦ elim (Option-cases (get_ready_buf c.wbuf)) [
    | inl b ↦ stays (rw (a, b, get_ready_for_compute) at e)
    | inr (j, b) ↦ elim (Option-cases (get_idle_buf c.outbuf)) [
      | inl d ↦ stays (rw (a, b, d, get_ready_for_compute) at e)
      | inr (k, d) ↦
          let (ib, at_i, e₁) =
            >>=-eq-some (get_elem? c.inbuf i) _ (rw (a, b, d, get_ready_for_compute) at e) in
          let (wb, at_j, e₂) = >>=-eq-some (get_elem? c.wbuf j) _ e₁ in
          let (ob, at_k, e₃) = >>=-eq-some (get_elem? c.outbuf k) _ e₂ in
          subst (λ p. Readied c p.0 p.1) (some-eq e₃)
            (is_ready i j k _ _ _ (get_target_buf-kind c.inbuf Spm.ready a)
              (get_target_buf-kind c.wbuf Spm.ready b) (get_target_buf-kind c.outbuf Spm.idle d)
              (kinds-set c.inbuf i _) (kinds-set c.wbuf j _) (kinds-set c.outbuf k _) refl)
    ]
  ]
]
  where
    stays : ◌≡◌ {A = Option (Comb × Bool)} (some (c, false)) (some (c', r)) → Readied c c' r
    stays h = subst (λ p. Readied c p.0 p.1) (some-eq h) (not_ready refl)

set_matrix-some :
    (s : SystolicArray) (a w : Matrix) {s' : SystolicArray}
    → set_matrix s a w ≡ some s'
    → load_matrix s a w ≡ s'
unfolding set_matrix
set_matrix-some s a w e =
    let (_, _, e₁) = >>=-eq-some (check (ltb 0 (w.w * s.data_bytes))) _ e in
    let (_, _, e₂) =
      >>=-eq-some (check (ltb 0 s.height && ltb 0 s.width && ltb 0 (batch_of s a w))) _ e₁ in
    let (_, _, e₃) = >>=-eq-some (check (leb (a.h * s.width) s.cap_outbuf)) _ e₂ in some-eq e₃

-- What the control is after the array has taken the buffers.
start_array-view :
    (w : World) (c : Comb) {w' : World}
    → start_array w c ≡ some w'
    → view_of w'
      ≡ next_block (record (view c w.array) {
        busy = true;
        cur_in = c.inbuf_ptr;
        cur_w = c.wbuf_ptr;
        cur_out = c.filling_outbuf_ptr;
        chunk = c.output_chunk_cnt;
      })
unfolding start_array load_matrix SystolicArray.set_buf_config SystolicArray.set_block_config
start_array-view w c e =
    let (i, _, e₁) = >>=-eq-some (get_target_buf c.inbuf Spm.draining) _ e in
    let (j, _, e₂) = >>=-eq-some (get_target_buf c.wbuf Spm.draining) _ e₁ in
    let (ib, _, e₃) = >>=-eq-some (get_elem? c.inbuf i) _ e₂ in
    let (wb, _, e₄) = >>=-eq-some (get_elem? c.wbuf j) _ e₃ in
    let a : Matrix = record { h = ib.matrix_h; w = ib.matrix_w } in
    let b : Matrix = record { h = wb.matrix_h; w = wb.matrix_w } in
    let (array, taken, e₅) = >>=-eq-some (set_matrix w.array a b) _ e₄ in
    let bound =
      SystolicArray.set_block_config
        (SystolicArray.set_buf_config (load_matrix w.array a b) c.inbuf_ptr c.wbuf_ptr
          c.filling_outbuf_ptr)
        c.input_chunk_cnt c.output_chunk_cnt in
    ap view_of (sym (some-eq e₅))
    ∙ ap
        (λ s. view (fetch_next_block c) (
          SystolicArray.set_block_config
            (SystolicArray.set_buf_config s c.inbuf_ptr c.wbuf_ptr c.filling_outbuf_ptr)
            c.input_chunk_cnt c.output_chunk_cnt))
        (sym (set_matrix-some w.array a b taken))
    ∙ fetch_next_block-view c bound

launch-Moves :
    (w : World) {w' : World}
    → is_idle w.array ≡ true
    → launch w ≡ some w'
    → Moves (view_of w) (view_of w')
unfolding launch
launch-Moves w {w'} idle e =
    let ((c, r), run, rest) = >>=-eq-some (get_ready_for_compute w.comb) _ e in
    go c r (get_ready_for_compute-Readied w.comb run) rest
  where
    go :
        (c : Comb) (r : Bool)
        → Readied w.comb c r
        → (if r then start_array w c else some (record w { comb = c })) ≡ some w'
        → Moves (view_of w) (view_of w')
    go c false (not_ready x) h =
        subst (Moves (view_of w)) (ap (λ c. view c w.array) x ∙ ap view_of (some-eq h)) done
    go c true (is_ready i j k inbuf wbuf outbuf ei ej ek in_is w_is out_is x) h =
        let engine : Comb = record w.comb {
          inbuf = inbuf;
          wbuf = wbuf;
          outbuf = outbuf;
          filling_outbuf_ptr = some k;
        } in
        let target = start_array-view w engine (subst (λ c. start_array w c ≡ some w') (sym x) h) in
        more done
          (Protocol.launch i j k (ap not idle) ei ej ek (target ∙ rw (in_is, w_is, out_is) refl))

kinds-collect :
    (bufs : List Spm) (i : ℕ) (b : Bool) (buf : Spm)
    → kinds (set bufs i (to_state (if b then Spm.idle else Spm.ready) buf))
      ≡ set (kinds bufs) i (if b then free else load)
kinds-collect bufs i true buf = kinds-set bufs i (to_state Spm.idle buf)
kinds-collect bufs i false buf = kinds-set bufs i (to_state Spm.ready buf)

collect-Moves :
    (w : World) {w' : World}
    → is_idle w.array ≡ false
    → collect w ≡ some w'
    → Moves (view_of w) (view_of w')
unfolding collect SystolicArray.get_result
collect-Moves w {w'} busy e = elim (Option-cases w.comb.writing_outbuf_ptr) [
  | inr (k, a) ↦
      let same = some-eq (rw (a, collect) at e) in subst (Moves (view_of w)) (ap view_of same) done
  | inl a ↦
      let c = w.comb in
      let s = w.array.binding in
      let last = (s.output_chunk + 1) == c.num_output_chunk in
      let (ibs, e₁, r₁) =
        >>=-eq-some (update (to_state (if last then Spm.idle else Spm.ready)) s.cur_inbuf c.inbuf) _
          (rw (a, collect) at e) in
      let (wbs, e₂, r₂) = >>=-eq-some (update (to_state Spm.idle) s.cur_wbuf c.wbuf) _ r₁ in
      let (obs, e₃, r₃) = >>=-eq-some (update (to_state Spm.writing) s.cur_outbuf c.outbuf) _ r₂ in
      let (i, ib, ei, _, in_is) = update-some _ s.cur_inbuf c.inbuf e₁ in
      let (j, wb, ej, _, w_is) = update-some (to_state Spm.idle) s.cur_wbuf c.wbuf e₂ in
      let (k, ob, ek, _, out_is) = update-some (to_state Spm.writing) s.cur_outbuf c.outbuf e₃ in
      let target : view_of w' ≡ collected i j k (view_of w) =
        ap view_of (sym (some-eq r₃))
        ∙ rw
            (
              ap kinds (sym in_is) ∙ kinds-collect c.inbuf i last ib,
              ap kinds (sym w_is) ∙ kinds-set c.wbuf j _,
              ap kinds (sym out_is) ∙ kinds-set c.outbuf k _,
            )
            refl in
      more done (Protocol.collect i j k (ap not busy) a ei ej ek target)
]

-- The engine serves the array.
pub serve_array-Moves :
    (w : World) {w' : World} → serve_array w ≡ some w' → Moves (view_of w) (view_of w')
unfolding serve_array SystolicArray.get_state
serve_array-Moves w {w'} e = go w.array.state refl
  where
    stays : some w ≡ some w' → Moves (view_of w) (view_of w')
    stays h = subst (Moves (view_of w)) (ap view_of (some-eq h)) done

    go : (st : ArrayState) → w.array.state ≡ st → Moves (view_of w) (view_of w')
    go SystolicArray.out_sync h = let e' = simp (h, serve_array) at e in cc
    go SystolicArray.finished h = collect-Moves w (simp (h, is_idle)) (simp (h, serve_array) at e)
    go SystolicArray.idle h = launch-Moves w (simp (h, is_idle)) (simp (h, serve_array) at e)
    go SystolicArray.filling h = stays (simp (h, serve_array) at e)
    go SystolicArray.computing h = stays (simp (h, serve_array) at e)
    go SystolicArray.ready h = stays (simp (h, serve_array) at e)
