-- ===== src/Comb/FetchMoves.antt =====
-- comb.cpp, `GetReadyForFetch` and the fetches of `GenCombDataFlow`: their moves of the control.
use hy_gcn_a_gcn_accelerator.Base.{
  ℕ, ◌≡◌, refl, sym, ap, ◌∙◌, subst, inl, inr, arith, true, false, not, some, ◌==◌, ◌&&◌, ltb,
  if◌then◌else◌, check, get_elem?, set, Bool-cases, ==_iff, Option-cases, some-eq, >>=-eq-some,
  ◌>>=◌,
}
use hy_gcn_a_gcn_accelerator.Spm
use hy_gcn_a_gcn_accelerator.Spm.{Spm, event_done, get_target_buf}
use hy_gcn_a_gcn_accelerator.SystolicArray.{SystolicArray}
use hy_gcn_a_gcn_accelerator.Config.Layers.{HyConfig}
use hy_gcn_a_gcn_accelerator.Comb.{Comb, World, to_state, get_idle_buf}
use hy_gcn_a_gcn_accelerator.Comb.Traffic.{
  fetch_features, fetch_weights, get_inbuf, get_wbuf, get_ready_for_fetch, fetch, fetch_step,
}
use hy_gcn_a_gcn_accelerator.Comb.Slots.{free, load}
use hy_gcn_a_gcn_accelerator.Comb.Protocol
use hy_gcn_a_gcn_accelerator.Comb.Protocol.{Control, Move, Moves, done, more, Moves-trans}
use hy_gcn_a_gcn_accelerator.Comb.View.{kinds, view, view_of, kinds-set, get_target_buf-kind}
use hy_gcn_a_gcn_accelerator.Comb.Requests.{fetch_features-view, fetch_weights-view}

-- The buffers that are being filled, once all of them has come.
fetch-Moves :
    (hy : HyConfig) (i j : ℕ) (w : World) {w' : World}
    → w.comb.inbuf_ptr ≡ some i
    → w.comb.wbuf_ptr ≡ some j
    → fetch hy i j w ≡ some w'
    → Moves (view_of w) (view_of w')
unfolding fetch
fetch-Moves hy i j w {w'} ei ej e = elim (Bool-cases (w.comb.output_chunk_cnt == 0)) [
  | inl z ↦
      let (w₁, f₁, r₁) = >>=-eq-some (fetch_weights hy w) _ (rw (z, fetch) at e) in
      let (w₂, f₂, r₂) = >>=-eq-some (fetch_features hy w₁) _ r₁ in
      let (ib, _, r₃) = >>=-eq-some (get_elem? w₂.comb.inbuf i) _ r₂ in
      let (wb, _, r₄) = >>=-eq-some (get_elem? w₂.comb.wbuf j) _ r₃ in
      let same : view_of w ≡ view_of w₂ =
        fetch_weights-view hy w f₁ ∙ fetch_features-view hy w₁ f₂ in
      subst (λ t. Moves t (view_of w')) (sym same)
        (elim (Bool-cases (event_done ib && event_done wb)) [
          | inr a ↦ subst (Moves (view_of w₂)) (ap view_of (some-eq (rw a at r₄))) done
          | inl a ↦ more done (
              Protocol.both_ready i j (ap (λ t. t.in_at) (sym same) ∙ ei)
                (ap (λ t. t.w_at) (sym same) ∙ ej)
                (ap (λ t. t.col) (sym same) ∙ (==_iff w.comb.output_chunk_cnt 0).0 z)
                (ap view_of (sym (some-eq (rw a at r₄)))
                  ∙ rw
                      (
                        kinds-set w₂.comb.wbuf j (to_state Spm.ready wb),
                        kinds-set w₂.comb.inbuf i (to_state Spm.ready ib),
                      )
                      refl))
        ])
  | inr z ↦
      let (w₁, f₁, r₁) = >>=-eq-some (fetch_weights hy w) _ (rw (z, fetch) at e) in
      let (wb, _, r₂) = >>=-eq-some (get_elem? w₁.comb.wbuf j) _ r₁ in
      let same = fetch_weights-view hy w f₁ in
      subst (λ t. Moves t (view_of w')) (sym same)
        (elim (Bool-cases (event_done wb)) [
          | inr a ↦ subst (Moves (view_of w₁)) (ap view_of (some-eq (rw a at r₂))) done
          | inl a ↦ more done (
              Protocol.weights_ready j (ap (λ t. t.w_at) (sym same) ∙ ej) (
                ap view_of (sym (some-eq (rw a at r₂)))
                ∙ rw (kinds-set w₁.comb.wbuf j (to_state Spm.ready wb)) refl))
        ])
]

-- The buffers that are taken.
get_inbuf-some :
    (hy : HyConfig) (c : Comb) {c' : Comb}
    → get_inbuf hy c ≡ some c'
    → (i : ℕ) × (get_elem? (kinds c.inbuf) i ≡ some free)
      × (c'.wbuf ≡ c.wbuf)
      × ((s : SystolicArray)
          → view c' s ≡ record (view c s) { in_at = some i; ins = set (kinds c.inbuf) i load })
unfolding get_inbuf
get_inbuf-some hy c e =
    let (i, found, r₁) = >>=-eq-some (get_idle_buf c.inbuf) _ e in
    let (b, _, r₂) = >>=-eq-some (get_elem? c.inbuf i) _ r₁ in
    let (_, _, r₃) = >>=-eq-some (check (ltb 0 hy.layer_config.data_bytes)) _ r₂ in
    (
      i,
      get_target_buf-kind c.inbuf Spm.idle found,
      ap (λ c. c.wbuf) (sym (some-eq r₃)),
      λ s. ap (λ c. view c s) (sym (some-eq r₃)) ∙ rw (kinds-set c.inbuf i _) refl,
    )

get_wbuf-some :
    (hy : HyConfig) (c : Comb) {c' : Comb}
    → get_wbuf hy c ≡ some c'
    → (j : ℕ) × (get_elem? (kinds c.wbuf) j ≡ some free)
      × ((s : SystolicArray)
          → view c' s ≡ record (view c s) { w_at = some j; ws = set (kinds c.wbuf) j load })
unfolding get_wbuf
get_wbuf-some hy c e =
    let (j, found, r₁) = >>=-eq-some (get_idle_buf c.wbuf) _ e in
    let (b, _, r₂) = >>=-eq-some (get_elem? c.wbuf j) _ r₁ in
    (
      j,
      get_target_buf-kind c.wbuf Spm.idle found,
      λ s. ap (λ c. view c s) (sym (some-eq r₂)) ∙ rw (kinds-set c.wbuf j _) refl,
    )

both_taken-view :
    (c c₁ c₂ : Comb) (s : SystolicArray) (i j : ℕ)
    → c₁.wbuf ≡ c.wbuf
    → view c₁ s ≡ record (view c s) { in_at = some i; ins = set (kinds c.inbuf) i load }
    → view c₂ s ≡ record (view c₁ s) { w_at = some j; ws = set (kinds c₁.wbuf) j load }
    → record (view c₂ s) { opened = false } ≡ record (view c s) {
      in_at = some i;
      ins = set (kinds c.inbuf) i load;
      w_at = some j;
      ws = set (kinds c.wbuf) j load;
      opened = false;
    }
both_taken-view c c₁ c₂ s i j same_w v₁ v₂ =
    ap {A = Control} (λ t. record t { opened = false }) v₂
    ∙ ap {A = Control}
        (λ t. record t { w_at = some j; ws = set (kinds c₁.wbuf) j load; opened = false }) v₁
    ∙ ap
        (λ bufs. record (view c s) {
          in_at = some i;
          ins = set (kinds c.inbuf) i load;
          w_at = some j;
          ws = set (kinds bufs) j load;
          opened = false;
        })
        same_w

get_ready_for_fetch-Moves :
    (hy : HyConfig) (c : Comb) (s : SystolicArray) {c' : Comb}
    → c.enable_fetch ≡ true
    → get_ready_for_fetch hy c ≡ some c'
    → Moves (view c s) (view c' s)
unfolding get_ready_for_fetch
get_ready_for_fetch-Moves hy c s {c'} o e = elim (Bool-cases (c.vertex_ptr == c.end_vertex)) [
  | inl a ↦
      subst (Moves (view c s)) (ap (λ c. view c s) (some-eq (rw (a, get_ready_for_fetch) at e)))
        done
  | inr a ↦ elim (Bool-cases (c.output_chunk_cnt == 0)) [
    | inl z ↦
        let (c₁, f₁, r₁) = >>=-eq-some (get_inbuf hy c) _ (rw (a, z, get_ready_for_fetch) at e) in
        let (c₂, f₂, r₂) = >>=-eq-some (get_wbuf hy c₁) _ r₁ in
        let (i, ei, same_w, v₁) = get_inbuf-some hy c f₁ in
        let (j, ej, v₂) = get_wbuf-some hy c₁ f₂ in
        more done (
          Protocol.take_both i j o ((==_iff c.output_chunk_cnt 0).0 z) ei
            (ap (λ b. get_elem? (kinds b) j) (sym same_w) ∙ ej)
            (ap (λ c. view c s) (sym (some-eq r₂))
              ∙ both_taken-view c c₁ c₂ s i j same_w (v₁ s) (v₂ s)))
    | inr z ↦
        let (c₂, f₂, r₂) = >>=-eq-some (get_wbuf hy c) _ (rw (a, z, get_ready_for_fetch) at e) in
        let (j, ej, v₂) = get_wbuf-some hy c f₂ in
        more done (
          Protocol.take_weights j o (ground (arith, z)) ej (
            ap (λ c. view c s) (sym (some-eq r₂))
            ∙ ap {A = Control} (λ t. record t { opened = false }) (v₂ s)))
  ]
]

-- What to fetch next.
pub fetch_step-Moves :
    (hy : HyConfig) (w : World) {w' : World}
    → fetch_step hy w ≡ some w'
    → Moves (view_of w) (view_of w')
unfolding fetch_step
fetch_step-Moves hy w {w'} e = elim (Option-cases w.comb.inbuf_ptr) [
  | inl a ↦ prepare (rw (a, fetch_step) at e)
  | inr (i, a) ↦ elim (Option-cases w.comb.wbuf_ptr) [
    | inl b ↦ prepare (rw (a, b, fetch_step) at e)
    | inr (j, b) ↦ fetch-Moves hy i j w a b (rw (a, b, fetch_step) at e)
  ]
]
  where
    prepare :
        (if w.comb.enable_fetch
            then (check (not (w.comb.input_chunk_cnt == w.comb.num_input_chunk)) >>= λ _.
                get_ready_for_fetch hy w.comb >>= λ c. some (record w { comb = c }))
            else some w)
          ≡ some w'
        → Moves (view_of w) (view_of w')
    prepare h = elim (Bool-cases w.comb.enable_fetch) [
      | inr o ↦ subst (Moves (view_of w)) (ap view_of (some-eq (simp o at h))) done
      | inl o ↦
          let (_, _, r₁) =
            >>=-eq-some (check (not (w.comb.input_chunk_cnt == w.comb.num_input_chunk))) _
              (simp o at h) in
          let (c, f, r₂) = >>=-eq-some (get_ready_for_fetch hy w.comb) _ r₁ in
          subst (Moves (view_of w)) (ap view_of (some-eq r₂))
            (get_ready_for_fetch-Moves hy w.comb w.array o f)
    ]
