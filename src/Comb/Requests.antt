-- ===== src/Comb/Requests.antt =====
-- comb.cpp, `FetchFeatures`, `FetchWeights`, `WriteFeatures` and `BatchVertex`: none changes the control.
use hy_gcn_a_gcn_accelerator.Base.{
  ◌+◌, ◌*◌, ◌-◌, ◌≡◌, refl, ap, inl, inr, some, leb, ltb, check, get_elem?, Bool-cases, ℤ, pos,
  negsuc, some-eq, >>=-eq-some, u64,
}
use hy_gcn_a_gcn_accelerator.Event.{dram, edram, read, write, weight, aggr_feature, output_feature}
use hy_gcn_a_gcn_accelerator.Event
use hy_gcn_a_gcn_accelerator.AggrBuf.{get_ready_vertex_num}
use hy_gcn_a_gcn_accelerator.Coordinator.{add_event}
use hy_gcn_a_gcn_accelerator.Config.{space_aligned_vertex, space_aligned_output_vertex}
use hy_gcn_a_gcn_accelerator.Config.Layers.{HyConfig}
use hy_gcn_a_gcn_accelerator.Comb.{World, batch_vertex}
use hy_gcn_a_gcn_accelerator.Comb.Traffic.{
  slice_bytes, fetch_features, fetch_weights, write_features,
}
use hy_gcn_a_gcn_accelerator.Comb.Weights.{weight_addr}
use hy_gcn_a_gcn_accelerator.Comb.View.{view_of}

-- The requests leave the control as it is.
pub fetch_features-view :
    (hy : HyConfig) (w : World) {w' : World}
    → fetch_features hy w ≡ some w'
    → view_of w ≡ view_of w'
unfolding fetch_features
fetch_features-view hy w e =
    let c = w.comb in
    let block = hy.sys_config.block_size in
    let addr = u64 (
      w.aggr_buf.done_ptr.offset
      + c.i_slice_cnt * space_aligned_vertex hy.layer_config block
      + c.input_chunk_cnt * c.sz_input_chunk) in
    let m =
      add_event w.coordinator (Event.new block addr (slice_bytes hy c) edram read aggr_feature) in
    elim (Bool-cases (leb (c.end_vertex - c.start_vertex) c.i_slice_cnt)) [
      | inl a ↦ ap view_of (some-eq (rw (a, fetch_features) at e))
      | inr a ↦
          let (_, _, r) = >>=-eq-some m _ (rw (a, fetch_features) at e) in ap view_of (some-eq r)
    ]

pub fetch_weights-view :
    (hy : HyConfig) (w : World) {w' : World} → fetch_weights hy w ≡ some w' → view_of w ≡ view_of w'
unfolding fetch_weights
fetch_weights-view hy w e =
    let block = hy.sys_config.block_size in
    let addr = u64 (weight_addr hy w.comb) in
    let m =
      add_event w.coordinator
        (Event.new block addr hy.tile_config.sz_comb_w_chunk dram read weight) in
    elim (Bool-cases (leb hy.tile_config.ele_comb_h_chunk w.comb.w_slice_cnt)) [
      | inl a ↦ ap view_of (some-eq (rw (a, fetch_weights) at e))
      | inr a ↦
          let (_, _, r₁) =
            >>=-eq-some (check (ltb addr hy.mapper.weight_end_addr)) _
              (rw (a, fetch_weights) at e) in
          let (_, _, r) = >>=-eq-some m _ r₁ in ap view_of (some-eq r)
    ]

pub write_features-view :
    (hy : HyConfig) (w : World) {w' : World}
    → write_features hy w ≡ some w'
    → view_of w ≡ view_of w'
unfolding write_features
write_features-view hy w e =
    let c = w.comb in
    let block = hy.sys_config.block_size in
    let addr = u64 (
      hy.mapper.output_start_addr
      + (w.aggr_buf.done_ptr.vertex
          + c.o_slice_cnt * space_aligned_output_vertex hy.layer_config block)
      + c.output_chunk_cnt * c.sz_output_chunk) in
    let (ptr, _, r₁) = >>=-eq-some c.writing_outbuf_ptr _ e in
    let (b, _, r₂) = >>=-eq-some (get_elem? c.outbuf ptr) _ r₁ in
    let m =
      add_event w.coordinator (
        Event.new block addr (b.matrix_w * hy.layer_config.data_bytes) dram write output_feature) in
    elim (Bool-cases (leb b.matrix_h c.o_slice_cnt)) [
      | inl a ↦ ap view_of (some-eq (rw a at r₂))
      | inr a ↦
          let (_, _, r₃) =
            >>=-eq-some (check (ltb addr hy.mapper.output_end_addr)) _ (rw a at r₂) in
          let (_, _, r) = >>=-eq-some m _ r₃ in ap view_of (some-eq r)
    ]

-- So does the search for a batch.
pub batch_vertex-view : (w : World) {w' : World} → batch_vertex w ≡ some w' → view_of w ≡ view_of w'
unfolding batch_vertex
batch_vertex-view w {w'} e = go (get_ready_vertex_num w.aggr_buf) refl
  where
    go : (n : ℤ) → get_ready_vertex_num w.aggr_buf ≡ n → view_of w ≡ view_of w'
    go (negsuc n) h = let e' = rw (h, batch_vertex) at e in cc
    go (pos n) h = elim (Bool-cases (ltb 0 n)) [
      | inl a ↦ ap view_of (some-eq (rw (h, a, batch_vertex) at e))
      | inr a ↦ ap view_of (some-eq (rw (h, a, batch_vertex) at e))
    ]
