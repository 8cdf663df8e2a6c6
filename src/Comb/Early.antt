-- ===== src/Comb/Early.antt =====
-- comb.cpp, `GenCombDataFlow` and `NextBatch`: a batch that is left while its last block is computed.
use hy_gcn_a_gcn_accelerator.Base.{
  ℕ, ◌≤◌, ◌<◌, ◌≡◌, ◌≢◌, refl, subst, inl, inr, arith, true, false, none, some, ◌==◌, leb,
  get_elem?, set, ◌-◌, Bool-cases, Option-cases,
}
use hy_gcn_a_gcn_accelerator.Spm
use hy_gcn_a_gcn_accelerator.Spm.{Spm, event_done, get_target_buf}
use hy_gcn_a_gcn_accelerator.AggrBuf.{confirm_comb}
use hy_gcn_a_gcn_accelerator.SystolicArray
use hy_gcn_a_gcn_accelerator.SystolicArray.{SystolicArray, ArrayState, Matrix, set_matrix, is_idle}
use hy_gcn_a_gcn_accelerator.Config.Layers.{HyConfig}
use hy_gcn_a_gcn_accelerator.Comb.{Comb, World, to_state, next_batch}
use hy_gcn_a_gcn_accelerator.Comb.Traffic.{
  fetch_step, write_features, write_step, gen_comb_data_flow,
}
use hy_gcn_a_gcn_accelerator.Comb.Cycle.{serve_array, count_cycle, clock_tick}
use hy_gcn_a_gcn_accelerator.Comb.Protocol.{Inv}
use hy_gcn_a_gcn_accelerator.Comb.Protocol.Blocks.{end-free}
use hy_gcn_a_gcn_accelerator.Comb.View.{view_of}
use hy_gcn_a_gcn_accelerator.Comb.Reach.{Reach, Reach-InvOf, InvOf, tick-view}
use hy_gcn_a_gcn_accelerator.Comb.Quiet.{cycles, done-cycles}

-- With nothing to fetch, the fetches leave everything as it is.
fetch_step-none :
    (hy : HyConfig) (w : World)
    → w.comb.wbuf_ptr ≡ none
    → w.comb.enable_fetch ≡ false
    → fetch_step hy w ≡ some w
unfolding fetch_step
fetch_step-none hy w n o = elim (Option-cases w.comb.inbuf_ptr) [
  | inl a ↦ simp (a, o, fetch_step) refl
  | inr (i, a) ↦ simp (a, n, o, fetch_step) refl
]

-- The state after the last write of the block `k`, when the batch ends with it.
abbrev left : ℕ → Spm → World → World
left k b w =
    let c = w.comb in
    record w {
      comb = record c {
        outbuf = set c.outbuf k (to_state Spm.idle b);
        writing_outbuf_ptr = none;
        input_chunk_cnt = 0;
        output_chunk_cnt = 0;
        enable_fetch = true;
        vertex_ptr = c.end_vertex;
      };
      aggr_buf = confirm_comb w.aggr_buf (c.end_vertex - c.start_vertex);
    }

-- All slices have been asked for.
write_features-all :
    (hy : HyConfig) (w : World) (k : ℕ) (b : Spm)
    → w.comb.writing_outbuf_ptr ≡ some k
    → get_elem? w.comb.outbuf k ≡ some b
    → b.matrix_h ≤ w.comb.o_slice_cnt
    → write_features hy w ≡ some w
unfolding write_features
write_features-all hy w k b p at_k all =
    let over : leb b.matrix_h w.comb.o_slice_cnt ≡ true = ground (arith, all) in
    simp (p, at_k, over, write_features) refl

next_batch-left :
    (k : ℕ) (b : Spm) (w : World)
    → w.comb.input_chunk_cnt ≡ w.comb.num_input_chunk
    → next_batch (record w {
      comb = record w.comb {
        outbuf = set w.comb.outbuf k (to_state Spm.idle b);
        writing_outbuf_ptr = none;
      };
    })
      ≡ some (left k b w)
unfolding next_batch
next_batch-left k b w e =
    let rows : (w.comb.input_chunk_cnt == w.comb.num_input_chunk) ≡ true = ground (arith, e) in
    simp (rows, next_batch) refl

write_step-left :
    (hy : HyConfig) (w : World) (k : ℕ) (b : Spm)
    → w.comb.writing_outbuf_ptr ≡ some k
    → get_elem? w.comb.outbuf k ≡ some b
    → b.matrix_h ≤ w.comb.o_slice_cnt
    → event_done b ≡ true
    → w.comb.input_chunk_cnt ≡ w.comb.num_input_chunk
    → write_step hy w ≡ some (left k b w)
unfolding write_step
write_step-left hy w k b p at_k all d e =
    let rows : (w.comb.input_chunk_cnt == w.comb.num_input_chunk) ≡ true = ground (arith, e) in
    let asked = write_features-all hy w k b p at_k all in
    simp (p, asked, at_k, d, rows, write_step) (next_batch-left k b w e)

gen_comb_data_flow-left :
    (hy : HyConfig) (w : World) (k : ℕ) (b : Spm)
    → w.comb.is_done ≡ false
    → w.comb.vertex_ptr ≢ w.comb.end_vertex
    → fetch_step hy w ≡ some w
    → write_step hy w ≡ some (left k b w)
    → gen_comb_data_flow hy w ≡ some (left k b w)
unfolding gen_comb_data_flow
gen_comb_data_flow-left hy w k b d ne f s =
    let batch : (w.comb.vertex_ptr == w.comb.end_vertex) ≡ false = ground (arith, ne) in
    simp (d, batch, f, s, gen_comb_data_flow) refl

serve_array-computing :
    (w : World) → w.array.state ≡ SystolicArray.computing → serve_array w ≡ some w
unfolding serve_array SystolicArray.get_state
serve_array-computing w e = simp (e, serve_array) refl

count_cycle-halt :
    (c : Comb) → c.vertex_ptr ≡ c.halt_vertex → c.is_done ≡ false → (count_cycle c).is_done ≡ true
unfolding count_cycle
count_cycle-halt c e d =
    let at_end : (c.vertex_ptr == c.halt_vertex) ≡ true = ground (arith, e) in rw (at_end, d) refl

-- At the end of the rows of blocks nothing is fetched.
idle-fetch :
    (hy : HyConfig) (w : World)
    → InvOf hy w
    → w.comb.input_chunk_cnt ≡ w.comb.num_input_chunk
    → fetch_step hy w ≡ some w
idle-fetch hy w v e =
    fetch_step-none hy w (end-free (view_of w) e v) (elim (Bool-cases w.comb.enable_fetch) [
      | inr o ↦ o
      | inl o ↦ absurd (omega (arith, (v.open_row o).0, v.rows_is, e))
    ])

-- In a state that the engine reaches, for a tiling with blocks, let the last block of the last batch
-- be in the array, which computes it, while all slices of the block before it are written. Then the
-- cycle succeeds, and it ends the batch and the engine; the array still works; and however many
-- cycles follow, the engine requests nothing more: the outputs of the last block are never written.
pub clock_tick-early :
    (hy : HyConfig) (w : World) (k : ℕ) (b : Spm)
    → 0 < hy.tile_config.num_comb_h_chunk
    → 0 < hy.tile_config.num_comb_w_chunk
    → Reach hy w
    → (SystolicArray.clock_tick w.array).state ≡ SystolicArray.computing
    → w.comb.is_done ≡ false
    → w.comb.input_chunk_cnt ≡ w.comb.num_input_chunk
    → w.comb.vertex_ptr ≢ w.comb.end_vertex
    → w.comb.end_vertex ≡ w.comb.halt_vertex
    → w.comb.writing_outbuf_ptr ≡ some k
    → get_elem? w.comb.outbuf k ≡ some b
    → b.matrix_h ≤ w.comb.o_slice_cnt
    → event_done b ≡ true
    → (w' : World) × (clock_tick hy w ≡ some w')
      × (w'.comb.is_done ≡ true)
      × (is_idle w'.array ≡ false)
      × (w'.coordinator ≡ w.coordinator)
      × ((n : ℕ) (v : World) → cycles hy n w' ≡ some v → v.coordinator ≡ w.coordinator)
unfolding clock_tick
clock_tick-early hy w k b p q r st d e ne halt pk at_k all ev =
    let v = Reach-InvOf hy p q r in
    let w₀ : World = record w { array = SystolicArray.clock_tick w.array } in
    let v₀ : InvOf hy w₀ =
      subst
        (Inv hy.tile_config.num_comb_h_chunk hy.tile_config.num_comb_w_chunk
          hy.tile_config.sz_comb_w_chunk)
        (tick-view w) v in
    let w₁ = left k b w₀ in
    let w' : World = record w₁ { comb = count_cycle w₁.comb } in
    let run : clock_tick hy w ≡ some w' =
      simp
        (
          serve_array-computing w₀ st,
          gen_comb_data_flow-left hy w₀ k b d ne (idle-fetch hy w₀ v₀ e)
              (write_step-left hy w₀ k b pk at_k all ev e),
          clock_tick,
        )
        refl in
    let ended : w'.comb.is_done ≡ true = count_cycle-halt w₁.comb halt d in
    (w', run, ended, simp (st, is_idle) refl, refl, λ n v after. done-cycles hy n w' ended after)
