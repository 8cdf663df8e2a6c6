-- ===== src/Comb/TrafficMoves.antt =====
-- comb.cpp, `GenCombDataFlow`: the moves of the control that the writes make, and those of all of it.
use hy_gcn_a_gcn_accelerator.Base.{
  ℕ, ◌≡◌, refl, sym, ap, ◌∙◌, subst, inl, inr, none, some, ◌==◌, if◌then◌else◌, check, check-true,
  get_elem?, set, Bool-cases, ==_iff, Option-cases, some-eq, >>=-eq-some,
}
use hy_gcn_a_gcn_accelerator.Spm
use hy_gcn_a_gcn_accelerator.Spm.{Spm, event_done, get_target_buf}
use hy_gcn_a_gcn_accelerator.Config.Layers.{HyConfig}
use hy_gcn_a_gcn_accelerator.Comb.{World, to_state, batch_vertex, next_batch}
use hy_gcn_a_gcn_accelerator.Comb.Traffic.{
  write_features, batch_and_fetch, write_step, gen_comb_data_flow,
}
use hy_gcn_a_gcn_accelerator.Comb.Protocol
use hy_gcn_a_gcn_accelerator.Comb.Protocol.{Control, Move, Moves, done, more, Moves-trans}
use hy_gcn_a_gcn_accelerator.Comb.View.{view_of, kinds-set}
use hy_gcn_a_gcn_accelerator.Comb.Requests.{write_features-view, batch_vertex-view}
use hy_gcn_a_gcn_accelerator.Comb.FetchMoves.{fetch_step-Moves}

-- The batch that is left.
next_batch-Moves :
    (w : World) {w' : World} → next_batch w ≡ some w' → Moves (view_of w) (view_of w')
unfolding next_batch
next_batch-Moves w e =
    let at_end = w.comb.input_chunk_cnt == w.comb.num_input_chunk in
    let (_, t, r) = >>=-eq-some (check at_end) _ e in
    more done (Protocol.batch ((==_iff _ _).0 (check-true at_end t)) (ap view_of (sym (some-eq r))))

-- What to write back.
write_step-Moves :
    (hy : HyConfig) (w : World) {w' : World}
    → write_step hy w ≡ some w'
    → Moves (view_of w) (view_of w')
unfolding write_step
write_step-Moves hy w {w'} e = elim (Option-cases w.comb.writing_outbuf_ptr) [
  | inl a ↦ subst (Moves (view_of w)) (ap view_of (some-eq (rw (a, write_step) at e))) done
  | inr (k, a) ↦
      let (w₁, f₁, r₁) = >>=-eq-some (write_features hy w) _ (rw (a, write_step) at e) in
      let (b, _, r₂) = >>=-eq-some (get_elem? w₁.comb.outbuf k) _ r₁ in
      let same = write_features-view hy w f₁ in
      subst (λ t. Moves t (view_of w')) (sym same)
        (after_write w₁ k b (ap (λ t. t.write_at) (sym same) ∙ a) r₂)
]
  where
    after_write :
        (w₁ : World) (k : ℕ) (b : Spm)
        → w₁.comb.writing_outbuf_ptr ≡ some k
        → let w₂ = record w₁ {
          comb = record w₁.comb {
            outbuf = set w₁.comb.outbuf k (to_state Spm.idle b);
            writing_outbuf_ptr = none;
          };
        } in
          (if event_done b
              then (if w₂.comb.input_chunk_cnt == w₂.comb.num_input_chunk
                  then next_batch w₂
                  else some w₂)
              else some w₁)
            ≡ some w'
          → Moves (view_of w₁) (view_of w')
    after_write w₁ k b a r = elim (Bool-cases (event_done b)) [
      | inr d ↦ subst (Moves (view_of w₁)) (ap view_of (some-eq (rw d at r))) done
      | inl d ↦
          let w₂ : World = record w₁ {
            comb = record w₁.comb {
              outbuf = set w₁.comb.outbuf k (to_state Spm.idle b);
              writing_outbuf_ptr = none;
            };
          } in
          let freed : Moves (view_of w₁) (view_of w₂) =
            more done
              (Protocol.written k a (rw (kinds-set w₁.comb.outbuf k (to_state Spm.idle b)) refl)) in
          elim (Bool-cases (w₁.comb.input_chunk_cnt == w₁.comb.num_input_chunk)) [
            | inl z ↦ Moves-trans freed (next_batch-Moves w₂ (rw (d, z) at r))
            | inr z ↦ subst (Moves (view_of w₁)) (ap view_of (some-eq (rw (d, z) at r))) freed
          ]
    ]

batch_and_fetch-Moves :
    (hy : HyConfig) (w : World) {w' : World}
    → batch_and_fetch hy w ≡ some w'
    → Moves (view_of w) (view_of w')
unfolding batch_and_fetch
batch_and_fetch-Moves hy w {w'} e = elim (Bool-cases (w.comb.vertex_ptr == w.comb.end_vertex)) [
  | inl a ↦
      let (w₁, f₁, r₁) = >>=-eq-some (batch_vertex w) _ (simp (a, batch_and_fetch) at e) in
      subst (λ t. Moves t (view_of w')) (sym (batch_vertex-view w f₁)) (fetch_step-Moves hy w₁ r₁)
  | inr a ↦ fetch_step-Moves hy w (simp (a, batch_and_fetch) at e)
]

pub gen_comb_data_flow-Moves :
    (hy : HyConfig) (w : World) {w' : World}
    → gen_comb_data_flow hy w ≡ some w'
    → Moves (view_of w) (view_of w')
unfolding gen_comb_data_flow
gen_comb_data_flow-Moves hy w {w'} e = elim (Bool-cases w.comb.is_done) [
  | inl d ↦
      subst (Moves (view_of w)) (ap view_of (some-eq (simp (d, gen_comb_data_flow) at e))) done
  | inr d ↦
      let (w₁, f₁, r₁) = >>=-eq-some (batch_and_fetch hy w) _ (simp (d, gen_comb_data_flow) at e) in
      Moves-trans (batch_and_fetch-Moves hy w f₁) (write_step-Moves hy w₁ r₁)
]
