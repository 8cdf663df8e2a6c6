-- ===== src/Comb/Columns.antt =====
-- comb.cpp, `ClockTick` and `WriteFeatures`: where the outputs of a block go that the array gives back.
use native.Mathlib.Nat.{zero-mul}
use hy_gcn_a_gcn_accelerator.Base.{
  ℕ, ◌+◌, ◌*◌, ◌<◌, ◌≡◌, refl, sym, ap, ◌∙◌, subst, arith, none, some, ◌==◌, not, if◌then◌else◌,
  check, ltb, leb, get_elem?, set, length, get_elem?-set_self, List, [], ◌∷◌, zero, suc, some-eq,
  >>=-eq-some, u64, false,
}
use hy_gcn_a_gcn_accelerator.Event.{dram, write, output_feature}
use hy_gcn_a_gcn_accelerator.Event
use hy_gcn_a_gcn_accelerator.Spm
use hy_gcn_a_gcn_accelerator.Spm.{Spm}
use hy_gcn_a_gcn_accelerator.SystolicArray
use hy_gcn_a_gcn_accelerator.SystolicArray.{is_idle}
use hy_gcn_a_gcn_accelerator.Coordinator.{add_event}
use hy_gcn_a_gcn_accelerator.Config.{space_aligned_output_vertex}
use hy_gcn_a_gcn_accelerator.Config.Layers.{HyConfig}
use hy_gcn_a_gcn_accelerator.Comb.{World, update, to_state}
use hy_gcn_a_gcn_accelerator.Comb.Traffic.{write_features}
use hy_gcn_a_gcn_accelerator.Comb.Cycle.{collect}
use hy_gcn_a_gcn_accelerator.Comb.ArrayView.{clock_tick-Same}
use hy_gcn_a_gcn_accelerator.Comb.View.{update-some}
use hy_gcn_a_gcn_accelerator.Comb.Reach.{Reach, Reach-InvOf, column_after, Reach-column}

-- What `collect` makes of what `WriteFeatures` reads: the outputs in the array, all slices to be written.
record Given (w w₁ : World) (k : ℕ) (b : Spm) : Type 0 where
  at_ptr : w₁.comb.writing_outbuf_ptr ≡ some k
  buf : get_elem? w₁.comb.outbuf k ≡ some b
  slices : w₁.comb.o_slice_cnt ≡ 0
  column : w₁.comb.output_chunk_cnt ≡ w.comb.output_chunk_cnt
  wide : w₁.comb.sz_output_chunk ≡ w.comb.sz_output_chunk
  done : w₁.aggr_buf ≡ w.aggr_buf

get_elem?-lt : (bufs : List Spm) (i : ℕ) {b : Spm} → get_elem? bufs i ≡ some b → i < length bufs
get_elem?-lt [] i e = cc
get_elem?-lt (x ∷ bufs) zero e = omega arith
get_elem?-lt (x ∷ bufs) (suc i) e = omega (arith, get_elem?-lt bufs i e)

collect-Given :
    (w : World) {w₁ : World} {k : ℕ} {b : Spm}
    → w.comb.writing_outbuf_ptr ≡ none
    → collect w ≡ some w₁
    → w.comb.filling_outbuf_ptr ≡ some k
    → w.array.binding.cur_outbuf ≡ some k
    → get_elem? w.comb.outbuf k ≡ some b
    → Given w w₁ k (to_state Spm.writing b)
unfolding collect
collect-Given w {w₁} {k} {b} a e f cur at_k =
    let c = w.comb in
    let s = w.array.binding in
    let last = (s.output_chunk + 1) == c.num_output_chunk in
    let (ibs, _, r₁) =
      >>=-eq-some (update (to_state (if last then Spm.idle else Spm.ready)) s.cur_inbuf c.inbuf) _
        (rw (a, collect) at e) in
    let (wbs, _, r₂) = >>=-eq-some (update (to_state Spm.idle) s.cur_wbuf c.wbuf) _ r₁ in
    let (obs, e₃, r₃) = >>=-eq-some (update (to_state Spm.writing) s.cur_outbuf c.outbuf) _ r₂ in
    let (j, ob, ej, there, out_is) = update-some (to_state Spm.writing) s.cur_outbuf c.outbuf e₃ in
    let same : j ≡ k = some-eq (sym ej ∙ cur) in
    let same_buf : ob ≡ b = some-eq (sym there ∙ ap (get_elem? c.outbuf) same ∙ at_k) in
    let outs : get_elem? obs k ≡ some (to_state Spm.writing b) =
      ap (λ l. get_elem? l k) (sym out_is)
      ∙ ap (λ i. get_elem? (set c.outbuf i (to_state Spm.writing ob)) k) same
      ∙ get_elem?-set_self c.outbuf k (to_state Spm.writing ob) (get_elem?-lt c.outbuf k at_k)
      ∙ ap (λ b. some (to_state Spm.writing b)) same_buf in
    subst (λ v. Given w v k (to_state Spm.writing b)) (some-eq r₃)
      (record { at_ptr = f; buf = outs; slices = refl; column = refl; wide = refl; done = refl })

-- The address of the outputs of the first vertex of a batch, for a column of blocks.
abbrev pub first_output : HyConfig → World → ℕ → ℕ
first_output hy w column =
    u64 (hy.mapper.output_start_addr + w.aggr_buf.done_ptr.vertex + column * w.comb.sz_output_chunk)

-- From a state that the engine reaches, for a tiling with blocks, where no outputs are being written and
-- the array, in this cycle, gives back the outputs of a block with at least one vertex: the first
-- request that `WriteFeatures` makes for these outputs goes, by its address, to the column of blocks
-- after that of the block that the array worked on, and to the first column after the last.
pub collect-write_features :
    (hy : HyConfig) {w w₁ w₂ : World} {k : ℕ} {b : Spm}
    → 0 < hy.tile_config.num_comb_h_chunk
    → 0 < hy.tile_config.num_comb_w_chunk
    → Reach hy w
    → is_idle w.array ≡ false
    → w.comb.writing_outbuf_ptr ≡ none
    → w.array.binding.cur_outbuf ≡ some k
    → get_elem? w.comb.outbuf k ≡ some b
    → 0 < b.matrix_h
    → collect (record w { array = SystolicArray.clock_tick w.array }) ≡ some w₁
    → write_features hy w₁ ≡ some w₂
    → add_event w₁.coordinator (
        Event.new hy.sys_config.block_size
          (first_output hy w (column_after hy w.array.binding.output_chunk))
          (b.matrix_w * hy.layer_config.data_bytes)
          dram
          write
          output_feature)
      ≡ some w₂.coordinator
unfolding write_features
collect-write_features hy {w} {w₁} {w₂} {k} {b} p q r busy free cur at_k tall e write_ok =
    let v = Reach-InvOf hy p q r in
    let (bound, _) = clock_tick-Same w.array in
    let w₀ : World = record w { array = SystolicArray.clock_tick w.array } in
    let g : Given w₀ w₁ k (to_state Spm.writing b) =
      collect-Given w₀ free e (v.fill (ap not busy) ∙ cur) (ap (λ s. s.cur_outbuf) bound ∙ cur)
        at_k in
    let addr = u64 (
      hy.mapper.output_start_addr
      + (w₁.aggr_buf.done_ptr.vertex
          + w₁.comb.o_slice_cnt
            * space_aligned_output_vertex hy.layer_config hy.sys_config.block_size)
      + w₁.comb.output_chunk_cnt * w₁.comb.sz_output_chunk) in
    let addr_is : addr ≡ first_output hy w (column_after hy w.array.binding.output_chunk) =
      rw (g.slices, g.column, g.wide, g.done, Reach-column hy p q r busy, zero-mul)
        (ap u64 (omega arith)) in
    let some_left : leb b.matrix_h w₁.comb.o_slice_cnt ≡ false = ground (arith, tall, g.slices) in
    let run = simp (g.at_ptr, g.buf, some_left, write_features) at write_ok in
    let (_, _, r₁) = >>=-eq-some (check (ltb addr hy.mapper.output_end_addr)) _ run in
    let request = λ (a : ℕ). add_event w₁.coordinator (
      Event.new hy.sys_config.block_size a (b.matrix_w * hy.layer_config.data_bytes) dram write
        output_feature) in
    let (c, asked, r₂) = >>=-eq-some (request addr) _ r₁ in
    ap request (sym addr_is) ∙ asked ∙ ap (λ (w : World). some w.coordinator) (some-eq r₂)
