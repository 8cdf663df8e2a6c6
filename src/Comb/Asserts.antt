-- ===== src/Comb/Asserts.antt =====
-- comb.cpp, `GenCombDataFlow`: the assertions of the fetches, in every state that the engine reaches.
use hy_gcn_a_gcn_accelerator.Base.{
  ℕ, ◌+◌, ◌-◌, ◌<◌, ◌≡◌, refl, sym, ap, ◌∙◌, subst, inl, inr, arith, true, false, not, Option, none,
  some, List, ◌==◌, leb, lt→ltb, ==_iff, if◌then◌else◌, check, get_elem?, Bool-cases, Option-cases,
  ◌>>=◌, u64_mod,
}
use hy_gcn_a_gcn_accelerator.Event.{edram, read, aggr_feature}
use hy_gcn_a_gcn_accelerator.Event
use hy_gcn_a_gcn_accelerator.Spm.{Spm}
use hy_gcn_a_gcn_accelerator.Coordinator.{add_event}
use hy_gcn_a_gcn_accelerator.Config.Layers.{HyConfig}
use hy_gcn_a_gcn_accelerator.Config.Tiles.{IsTiling}
use hy_gcn_a_gcn_accelerator.Comb.{Comb, World}
use hy_gcn_a_gcn_accelerator.Comb.Traffic.{
  fetch_features, fetch_weights, get_inbuf, get_wbuf, get_ready_for_fetch, fetch, fetch_step,
}
use hy_gcn_a_gcn_accelerator.Comb.Weights.{InRange, fetch_weights-issues}
use hy_gcn_a_gcn_accelerator.Comb.Slots.{Slots}
use hy_gcn_a_gcn_accelerator.Comb.Protocol.{
  Control, Inv, Link, between, after_last, within, while_busy,
}
use hy_gcn_a_gcn_accelerator.Comb.View.{kinds, view_of}
use hy_gcn_a_gcn_accelerator.Comb.Requests.{fetch_weights-view, fetch_features-view}
use hy_gcn_a_gcn_accelerator.Comb.Reach.{InvOf}
use hy_gcn_a_gcn_accelerator.Comb.Search.{kinds-some, get_idle_buf-some}

abbrev pub IsSome : {A : Type 0} → Option A → Type 0
IsSome {A} m = (a : A) × (m ≡ some a)

chain :
    {A B : Type 0} {m : Option A} {a : A} (f : A → Option B)
    → m ≡ some a
    → IsSome (f a)
    → IsSome (m >>= f)
chain f e h = rw e h

-- What the requests of weights rely on: the tiling, and a region of the memory for the weights that
-- the addresses do not wrap around in.
pub record Placed (hy : HyConfig) : Type 0 where
  pub tiling : IsTiling hy.sys_config hy.layer_config hy.tile_config
  pub region :
      hy.mapper.weight_end_addr ≡ hy.mapper.weight_start_addr + hy.tile_config.space_aligned_weight
  pub no_wrap : hy.mapper.weight_end_addr < u64_mod
  pub sized : 0 < hy.layer_config.data_bytes
  pub rows : 0 < hy.tile_config.num_comb_h_chunk
  pub cols : 0 < hy.tile_config.num_comb_w_chunk

fetch_weights-IsSome :
    (hy : HyConfig) (w : World) (j : ℕ)
    → Placed hy
    → InvOf hy w
    → w.comb.wbuf_ptr ≡ some j
    → IsSome (fetch_weights hy w)
unfolding fetch_weights
fetch_weights-IsSome hy w j p v e =
    elim (Bool-cases (leb hy.tile_config.ele_comb_h_chunk w.comb.w_slice_cnt)) [
      | inl a ↦ rw (a, fetch_weights) (w, refl)
      | inr a ↦
          let range : InRange hy w.comb = record {
            rows = v.rows_is;
            cols = v.cols_is;
            wide = v.wide_is;
            row = omega (arith, v.w_row j e, v.rows_is);
            col = omega (arith, v.col_lt, v.cols_is);
            slice = ground (arith, a);
            region = p.region;
            no_wrap = p.no_wrap;
          } in
          let (c, run, _, _, _, _) = fetch_weights-issues hy w p.tiling range in (_, run)
    ]

fetch_features-IsSome : (hy : HyConfig) (w : World) → IsSome (fetch_features hy w)
unfolding fetch_features add_event Event.new
fetch_features-IsSome hy w =
    elim (Bool-cases (leb (w.comb.end_vertex - w.comb.start_vertex) w.comb.i_slice_cnt)) [
      | inl a ↦ rw (a, fetch_features) (w, refl)
      | inr a ↦ rw (a, fetch_features) (_, refl)
    ]

-- The inputs that the engine points at are there.
in_at-IsSome :
    {rows cols wide : ℕ} (t : Control) (i : ℕ)
    → Inv rows cols wide t
    → t.in_at ≡ some i
    → IsSome (get_elem? t.ins i)
in_at-IsSome t i v e = let (l, s, link) = v.ins in go l s link
  where
    go :
        (l : Option ℕ)
        → Slots l (while_busy t.busy t.cur_in) t.ins
        → Link t.busy t.in_at t.w_at t.cur_in t.col t.cols t.chunk l
        → IsSome (get_elem? t.ins i)
    go l s (between _ h _ _) = (_, s.loaded i (sym h ∙ e))
    go l s (after_last _ h _ _ _) = (_, s.loaded i (sym h ∙ e))
    go l s (within b _ h _) = (_, s.drained i (ap (λ b. while_busy b t.cur_in) b ∙ sym h ∙ e))

-- The two buffers in a state with the same control.
held-IsSome :
    (bufs : List Spm) (i : ℕ) → IsSome (get_elem? (kinds bufs) i) → IsSome (get_elem? bufs i)
held-IsSome bufs i (a, h) = let (b, there, _) = kinds-some bufs i h in (b, there)

-- The buffers that are filled are there, and the requests are taken.
fetch-IsSome :
    (hy : HyConfig) (i j : ℕ) (w : World)
    → Placed hy
    → InvOf hy w
    → w.comb.inbuf_ptr ≡ some i
    → w.comb.wbuf_ptr ≡ some j
    → IsSome (fetch hy i j w)
unfolding fetch
fetch-IsSome hy i j w p v ei ej =
    let (w₁, f₁) = fetch_weights-IsSome hy w j p v ej in
    let (w₂, f₂) = fetch_features-IsSome hy w₁ in
    let s₁ = fetch_weights-view hy w f₁ in
    let s₂ = s₁ ∙ fetch_features-view hy w₁ f₂ in
    let inputs : IsSome (get_elem? (view_of w).ins i) = in_at-IsSome (view_of w) i v ei in
    let weights : IsSome (get_elem? (view_of w).ws j) = (_, v.ws.loaded j ej) in
    elim (Bool-cases (w.comb.output_chunk_cnt == 0)) [
      | inl z ↦
          let (ib, at_i) =
            held-IsSome w₂.comb.inbuf i (subst (λ t. IsSome (get_elem? t.ins i)) s₂ inputs) in
          let (wb, at_j) =
            held-IsSome w₂.comb.wbuf j (subst (λ t. IsSome (get_elem? t.ws j)) s₂ weights) in
          rw (z, f₁, f₂, at_i, at_j, fetch) (_, refl)
      | inr z ↦
          let (wb, at_j) =
            held-IsSome w₁.comb.wbuf j (subst (λ t. IsSome (get_elem? t.ws j)) s₁ weights) in
          rw (z, f₁, at_j, fetch) (_, refl)
    ]

get_inbuf-total :
    (hy : HyConfig) (c : Comb) {d : Option ℕ}
    → 0 < hy.layer_config.data_bytes
    → Slots none d (kinds c.inbuf)
    → (c' : Comb) × (get_inbuf hy c ≡ some c') × (c'.wbuf ≡ c.wbuf)
unfolding get_inbuf
get_inbuf-total hy c p s =
    let (i, b, found, there) = get_idle_buf-some c.inbuf s in
    rw (found, there, lt→ltb 0 hy.layer_config.data_bytes p, get_inbuf) (_, refl, refl)

get_wbuf-total :
    (hy : HyConfig) (c : Comb) {d : Option ℕ} → Slots none d (kinds c.wbuf) → IsSome (get_wbuf hy c)
unfolding get_wbuf
get_wbuf-total hy c s =
    let (j, b, found, there) = get_idle_buf-some c.wbuf s in rw (found, there, get_wbuf) (_, refl)

-- While the engine may fetch, it finds the idle buffers that it asks for.
get_ready_for_fetch-IsSome :
    (hy : HyConfig) (w : World)
    → Placed hy
    → InvOf hy w
    → w.comb.enable_fetch ≡ true
    → IsSome (get_ready_for_fetch hy w.comb)
unfolding get_ready_for_fetch
get_ready_for_fetch-IsSome hy w p v o =
    let c = w.comb in
    let (_, no_w) = v.open_row o in
    let ws =
      subst (λ a. Slots a (while_busy (view_of w).busy (view_of w).cur_w) (kinds c.wbuf)) no_w
        v.ws in
    elim (Bool-cases (c.vertex_ptr == c.end_vertex)) [
      | inl a ↦ rw (a, get_ready_for_fetch) (_, refl)
      | inr a ↦ elim (Bool-cases (c.output_chunk_cnt == 0)) [
        | inr z ↦
            let (c₁, f₁) = get_wbuf-total hy c ws in rw (a, z, f₁, get_ready_for_fetch) (_, refl)
        | inl z ↦
            let (l, s, link) = v.ins in
            let none_in = nothing l link no_w ((==_iff c.output_chunk_cnt 0).0 z) in
            let (c₁, f₁, same) = get_inbuf-total hy c p.sized (
              subst (λ l. Slots l (while_busy (view_of w).busy (view_of w).cur_in) (kinds c.inbuf))
                none_in s) in
            let (c₂, f₂) = get_wbuf-total hy c₁ (
              subst (λ b. Slots none (while_busy (view_of w).busy (view_of w).cur_w) (kinds b))
                (sym same) ws) in
            rw (a, z, f₁, f₂, get_ready_for_fetch) (_, refl)
      ]
    ]
  where
    nothing :
        (l : Option ℕ)
        → Link
            (view_of w).busy
            (view_of w).in_at
            (view_of w).w_at
            (view_of w).cur_in
            (view_of w).col
            (view_of w).cols
            (view_of w).chunk
            l
        → w.comb.wbuf_ptr ≡ none
        → w.comb.output_chunk_cnt ≡ 0
        → l ≡ none
    nothing l (between _ _ f _) n z = f z n
    nothing l (after_last _ _ _ _ f) n z = f n
    nothing l (within _ e _ _) n z = e

pub fetch_step-IsSome :
    (hy : HyConfig) (w : World) → Placed hy → InvOf hy w → IsSome (fetch_step hy w)
unfolding fetch_step
fetch_step-IsSome hy w p v = elim (Option-cases w.comb.inbuf_ptr) [
  | inl a ↦ simp (a, fetch_step) prepare
  | inr (i, a) ↦ elim (Option-cases w.comb.wbuf_ptr) [
    | inl b ↦ simp (a, b, fetch_step) prepare
    | inr (j, b) ↦ simp (a, b, fetch_step) (fetch-IsSome hy i j w p v a b)
  ]
]
  where
    prepare : IsSome (
        if w.comb.enable_fetch
        then (check (not (w.comb.input_chunk_cnt == w.comb.num_input_chunk)) >>= λ _.
            get_ready_for_fetch hy w.comb >>= λ c. some (record w { comb = c }))
        else some w)
    prepare = elim (Bool-cases w.comb.enable_fetch) [
      | inr o ↦ simp o (w, refl)
      | inl o ↦
          let (less, _) = v.open_row o in
          let open_rows : (w.comb.input_chunk_cnt == w.comb.num_input_chunk) ≡ false =
            ground (arith, less, v.rows_is) in
          let (c, f) = get_ready_for_fetch-IsSome hy w p v o in
          simp (o, open_rows) (simp f (_, refl))
    ]
