-- ===== src/Comb/Reach.antt =====
-- comb.cpp: the combination engine over all orders of its cycles, of returned events and of what the
-- rest of the accelerator does to what it shares.
use hy_gcn_a_gcn_accelerator.Base.{
  ℕ, ◌+◌, ◌<◌, ◌≡◌, refl, sym, ap, ◌∙◌, subst, inl, inr, arith, Bool, true, false, not, Option,
  none, some, ◌==◌, ◌&&◌, if◌then◌else◌, Bool-cases, some-eq, >>=-eq-some,
}
use hy_gcn_a_gcn_accelerator.Event.{EventDataType}
use hy_gcn_a_gcn_accelerator.Spm
use hy_gcn_a_gcn_accelerator.AggrBuf.{AggrBuf}
use hy_gcn_a_gcn_accelerator.Coordinator.{Coordinator}
use hy_gcn_a_gcn_accelerator.SystolicArray
use hy_gcn_a_gcn_accelerator.SystolicArray.{SystolicArray, is_idle}
use hy_gcn_a_gcn_accelerator.Config.Layers.{HyConfig}
use hy_gcn_a_gcn_accelerator.Comb
use hy_gcn_a_gcn_accelerator.Comb.{Comb, World, process_returned_event, set_halt_vertex}
use hy_gcn_a_gcn_accelerator.Comb.Traffic.{gen_comb_data_flow}
use hy_gcn_a_gcn_accelerator.Comb.Cycle.{serve_array, count_cycle, clock_tick}
use hy_gcn_a_gcn_accelerator.Comb.Slots.{Slots-two_free}
use hy_gcn_a_gcn_accelerator.Comb.Protocol.{
  Moves, Moves-trans, Inv, Link, between, after_last, within,
}
use hy_gcn_a_gcn_accelerator.Comb.Protocol.Blocks.{Moves-Inv}
use hy_gcn_a_gcn_accelerator.Comb.View.{view, view_of, process_returned_event-view}
use hy_gcn_a_gcn_accelerator.Comb.ArrayView.{clock_tick-Same}
use hy_gcn_a_gcn_accelerator.Comb.Simulation.{serve_array-Moves}
use hy_gcn_a_gcn_accelerator.Comb.Serves.{Serves, serve_array-Serves}
use hy_gcn_a_gcn_accelerator.Comb.TrafficMoves.{gen_comb_data_flow-Moves}

pub tick-view :
    (w : World) → view_of w ≡ view_of (record w { array = SystolicArray.clock_tick w.array })
tick-view w =
    let (bound, busy) = clock_tick-Same w.array in
    ap {A = Bool} (λ b. record (view_of w) { busy = not b }) (sym busy)
    ∙ ap
        (λ bind. record (view_of w) {
          busy = not (is_idle (SystolicArray.clock_tick w.array));
          cur_in = bind.cur_inbuf;
          cur_w = bind.cur_wbuf;
          cur_out = bind.cur_outbuf;
          chunk = bind.output_chunk;
        })
        (sym bound)

count_cycle-view : (c : Comb) (s : SystolicArray) → view (count_cycle c) s ≡ view c s
unfolding count_cycle
count_cycle-view c s = elim (Bool-cases ((c.vertex_ptr == c.halt_vertex) && not c.is_done)) [
  | inl e ↦ rw e refl
  | inr e ↦ rw e refl
]

pub clock_tick-Moves :
    (hy : HyConfig) (w : World) {w' : World}
    → clock_tick hy w ≡ some w'
    → Moves (view_of w) (view_of w')
      × (w₁ : World) × (serve_array (record w { array = SystolicArray.clock_tick w.array })
          ≡ some w₁)
      × Serves (record w { array = SystolicArray.clock_tick w.array }) w₁
unfolding clock_tick
clock_tick-Moves hy w {w'} e =
    let w₀ : World = record w { array = SystolicArray.clock_tick w.array } in
    let (w₁, f₁, r₁) = >>=-eq-some (serve_array w₀) _ e in
    let (w₂, f₂, r₂) = >>=-eq-some (gen_comb_data_flow hy w₁) _ r₁ in
    let counted : view_of w₂ ≡ view_of w' =
      sym (count_cycle-view w₂.comb w₂.array) ∙ ap view_of (some-eq r₂) in
    (
      subst (λ t. Moves t (view_of w')) (sym (tick-view w))
          (subst (Moves (view_of w₀)) counted
            (Moves-trans (serve_array-Moves w₀ f₁) (gen_comb_data_flow-Moves hy w₁ f₂))),
      w₁,
      f₁,
      serve_array-Serves w₀ f₁,
    )

-- What is done to the engine: a cycle, a returned event, another last vertex, and whatever becomes of
-- the aggregation buffer and the coordinator, which it shares.
pub data Step (hy : HyConfig) : World → World → Type 0 where
  ticks : (w w' : World) → clock_tick hy w ≡ some w' → Step hy w w'
  returns :
      (w : World) (t : EventDataType) (c : Comb)
      → process_returned_event t w.comb ≡ some c
      → Step hy w (record w { comb = c })
  halts : (w : World) (vid : ℕ) → Step hy w (record w { comb = set_halt_vertex w.comb vid })
  shares :
      (w : World) (b : AggrBuf) (c : Coordinator)
      → Step hy w (record w { aggr_buf = b; coordinator = c })

pub data Reach (hy : HyConfig) : World → Type 0 where
  begin :
      (junk : ℕ) (s : SystolicArray) (b : AggrBuf) (c : Coordinator)
      → is_idle s ≡ true
      → Reach hy (record { comb = Comb.new hy junk; array = s; aggr_buf = b; coordinator = c })
  next : (w w' : World) → Reach hy w → Step hy w w' → Reach hy w'

-- The invariant of the control, for the tiling of a configuration.
abbrev pub InvOf : HyConfig → World → Type 0
InvOf hy w =
    let t = hy.tile_config in
    Inv t.num_comb_h_chunk t.num_comb_w_chunk t.sz_comb_w_chunk (view_of w)

begin-Inv :
    (hy : HyConfig) (junk : ℕ) (s : SystolicArray) (b : AggrBuf) (c : Coordinator)
    → 0 < hy.tile_config.num_comb_h_chunk
    → 0 < hy.tile_config.num_comb_w_chunk
    → is_idle s ≡ true
    → InvOf hy (record { comb = Comb.new hy junk; array = s; aggr_buf = b; coordinator = c })
unfolding Comb.new Spm.new
begin-Inv hy junk s b c rows cols idle = record {
  rows_is = refl;
  cols_is = refl;
  wide_is = refl;
  row_le = omega arith;
  col_lt = cols;
  row_end = λ _. refl;
  open_row = λ _. (rows, refl);
  w_row = λ _ _. rows;
  w_in = λ _ e. cc;
  ws = rw idle Slots-two_free;
  ins = (
    none,
    rw idle Slots-two_free,
    between (ap not idle) refl (λ _ _. refl) (λ h. absurd (omega (arith, h))),
  );
  outs = rw idle Slots-two_free;
  fill = λ h. let at_work = sym h ∙ ap not idle in cc;
  cur = λ h. let at_work = sym h ∙ ap not idle in cc;
}

Step-Inv :
    (hy : HyConfig) {w w' : World}
    → 0 < hy.tile_config.num_comb_h_chunk
    → Step hy w w'
    → InvOf hy w
    → InvOf hy w'
unfolding set_halt_vertex
Step-Inv hy p (ticks w w' e) v = Moves-Inv p (clock_tick-Moves hy w e).0 v
Step-Inv hy p (returns w t c e) v =
    let k = hy.tile_config in
    subst (Inv k.num_comb_h_chunk k.num_comb_w_chunk k.sz_comb_w_chunk)
      (sym (process_returned_event-view t w.comb e w.array)) v
Step-Inv hy p (halts w vid) v = v
Step-Inv hy p (shares w b c) v = v

-- In every state that the engine reaches, for a tiling with blocks: it stands at a block of the
-- tiling or at the end of its rows; of each pair of buffers at most one is being filled or ready,
-- and at most one in use, and the pointers name them; while it may fetch, it holds no weights and
-- blocks are left; with weights it has inputs; and a busy array holds an input, a weight and an
-- output buffer, for the block before the one that the engine stands at.
pub Reach-InvOf :
    (hy : HyConfig) {w : World}
    → 0 < hy.tile_config.num_comb_h_chunk
    → 0 < hy.tile_config.num_comb_w_chunk
    → Reach hy w
    → InvOf hy w
Reach-InvOf hy p q (begin junk s b c idle) = begin-Inv hy junk s b c p q idle
Reach-InvOf hy p q (next w w' r step) = Step-Inv hy p step (Reach-InvOf hy p q r)

-- The column after a column.
abbrev pub column_after : HyConfig → ℕ → ℕ
column_after hy col = if (col + 1) == hy.tile_config.num_comb_w_chunk then 0 else col + 1

-- While the array works on a block, the counter of columns stands at the one after it.
pub Reach-column :
    (hy : HyConfig) {w : World}
    → 0 < hy.tile_config.num_comb_h_chunk
    → 0 < hy.tile_config.num_comb_w_chunk
    → Reach hy w
    → is_idle w.array ≡ false
    → w.comb.output_chunk_cnt ≡ column_after hy w.array.binding.output_chunk
Reach-column hy {w} p q r busy =
    let v = Reach-InvOf hy p q r in let (l, _, link) = v.ins in go l link v.cols_is v.col_lt
  where
    go :
        (l : Option ℕ)
        → Link
            (view_of w).busy
            (view_of w).in_at
            (view_of w).w_at
            (view_of w).cur_in
            (view_of w).col
            (view_of w).cols
            (view_of w).chunk
            l
        → (view_of w).cols ≡ hy.tile_config.num_comb_w_chunk
        → (view_of w).col < hy.tile_config.num_comb_w_chunk
        → w.comb.output_chunk_cnt ≡ column_after hy w.array.binding.output_chunk
    go l (between h _ _ _) c k = let at_work = sym h ∙ ap not busy in cc
    go l (after_last _ _ e z _) c k = ground (arith, e, z, c)
    go l (within _ _ _ e) c k = ground (arith, e, k)
