-- ===== src/Comb/Protocol/Buffers.antt =====
-- comb.cpp, the control of the combination engine: one lemma for each move.
use hy_gcn_a_gcn_accelerator.Base.{
  ℕ, ◌<◌, ◌≡◌, refl, sym, ◌∙◌, subst, arith, true, false, Option, none, some, get_elem?, set,
}
use hy_gcn_a_gcn_accelerator.Comb.Slots.{free, load, Slots, Slots-load, Slots-ready, Slots-free}
use hy_gcn_a_gcn_accelerator.Comb.Protocol.{
  Control, while_busy, Link, between, after_last, within, Inv,
}

module _ {rows cols wide : ℕ} where
  pub take_both-Inv :
      (t : Control) (i j : ℕ)
      → t.opened ≡ true
      → t.col ≡ 0
      → get_elem? t.ins i ≡ some free
      → get_elem? t.ws j ≡ some free
      → Inv rows cols wide t
      → Inv rows cols wide (record t {
        in_at = some i;
        ins = set t.ins i load;
        w_at = some j;
        ws = set t.ws j load;
        opened = false;
      })
  take_both-Inv t i j o z ei ej v =
      let (less, no_w) = v.open_row o in
      let (l, s, link) = v.ins in
      let no_l : l ≡ none = nothing l link no_w in
      record {
        rows_is = v.rows_is;
        cols_is = v.cols_is;
        wide_is = v.wide_is;
        row_le = v.row_le;
        col_lt = v.col_lt;
        row_end = v.row_end;
        open_row = λ e. cc;
        w_row = λ _ _. less;
        w_in = λ _ _. (i, refl);
        ws = Slots-load j (subst (λ w. Slots w (while_busy t.busy t.cur_w) t.ws) no_w v.ws) ej;
        ins = (
          some i,
          Slots-load i (subst (λ w. Slots w (while_busy t.busy t.cur_in) t.ins) no_l s) ei,
          relink l link,
        );
        outs = v.outs;
        fill = v.fill;
        cur = v.cur;
      }
    where
      nothing :
          (l : Option ℕ)
          → Link t.busy t.in_at t.w_at t.cur_in t.col t.cols t.chunk l
          → t.w_at ≡ none
          → l ≡ none
      nothing l (between b e f g) n = f z n
      nothing l (after_last b e c d f) n = f n
      nothing l (within b e c d) n = e

      relink :
          (l : Option ℕ)
          → Link t.busy t.in_at t.w_at t.cur_in t.col t.cols t.chunk l
          → Link t.busy (some i) (some j) t.cur_in t.col t.cols t.chunk (some i)
      relink l (between b e f g) = between b refl (λ _ h. cc) (λ _. (i, refl))
      relink l (after_last b e c d f) = after_last b refl c d (λ h. cc)
      relink l (within b e c d) = absurd (omega (arith, d, z))

  pub take_weights-Inv :
      (t : Control) (j : ℕ)
      → t.opened ≡ true
      → 0 < t.col
      → get_elem? t.ws j ≡ some free
      → Inv rows cols wide t
      → Inv rows cols wide (record t { w_at = some j; ws = set t.ws j load; opened = false })
  take_weights-Inv t j o z ej v =
      let (less, no_w) = v.open_row o in
      let (l, s, link) = v.ins in
      record {
        rows_is = v.rows_is;
        cols_is = v.cols_is;
        wide_is = v.wide_is;
        row_le = v.row_le;
        col_lt = v.col_lt;
        row_end = v.row_end;
        open_row = λ e. cc;
        w_row = λ _ _. less;
        w_in = λ _ _. held l link;
        ws = Slots-load j (subst (λ w. Slots w (while_busy t.busy t.cur_w) t.ws) no_w v.ws) ej;
        ins = (l, s, relink l link);
        outs = v.outs;
        fill = v.fill;
        cur = v.cur;
      }
    where
      held :
          (l : Option ℕ)
          → Link t.busy t.in_at t.w_at t.cur_in t.col t.cols t.chunk l
          → (i : ℕ) × (t.in_at ≡ some i)
      held l (between b e f g) = let (i, h) = g z in (i, e ∙ h)
      held l (after_last b e c d f) = absurd (omega (arith, d, z))
      held l (within b e c d) = let (i, h) = (v.cur b).0 in (i, c ∙ h)

      relink :
          (l : Option ℕ)
          → Link t.busy t.in_at t.w_at t.cur_in t.col t.cols t.chunk l
          → Link t.busy t.in_at (some j) t.cur_in t.col t.cols t.chunk l
      relink l (between b e f g) = between b e (λ h. absurd (omega (arith, h, z))) g
      relink l (after_last b e c d f) = absurd (omega (arith, d, z))
      relink l (within b e c d) = within b e c d

  pub both_ready-Inv :
      (t : Control) (i j : ℕ)
      → t.in_at ≡ some i
      → t.w_at ≡ some j
      → t.col ≡ 0
      → Inv rows cols wide t
      → Inv rows cols wide (record t { ins = set t.ins i load; ws = set t.ws j load })
  both_ready-Inv t i j ei ej z v =
      let (l, s, link) = v.ins in
      record {
        rows_is = v.rows_is;
        cols_is = v.cols_is;
        wide_is = v.wide_is;
        row_le = v.row_le;
        col_lt = v.col_lt;
        row_end = v.row_end;
        open_row = v.open_row;
        w_row = v.w_row;
        w_in = v.w_in;
        ws = Slots-ready j v.ws ej;
        ins = (l, Slots-ready i s (sym (same l link) ∙ ei), link);
        outs = v.outs;
        fill = v.fill;
        cur = v.cur;
      }
    where
      same :
          (l : Option ℕ) → Link t.busy t.in_at t.w_at t.cur_in t.col t.cols t.chunk l → t.in_at ≡ l
      same l (between b e f g) = e
      same l (after_last b e c d f) = e
      same l (within b e c d) = absurd (omega (arith, d, z))

  pub weights_ready-Inv :
      (t : Control) (j : ℕ)
      → t.w_at ≡ some j
      → Inv rows cols wide t
      → Inv rows cols wide (record t { ws = set t.ws j load })
  weights_ready-Inv t j ej v = record {
    rows_is = v.rows_is;
    cols_is = v.cols_is;
    wide_is = v.wide_is;
    row_le = v.row_le;
    col_lt = v.col_lt;
    row_end = v.row_end;
    open_row = v.open_row;
    w_row = v.w_row;
    w_in = v.w_in;
    ws = Slots-ready j v.ws ej;
    ins = v.ins;
    outs = v.outs;
    fill = v.fill;
    cur = v.cur;
  }

  pub written-Inv :
      (t : Control) (k : ℕ)
      → t.write_at ≡ some k
      → Inv rows cols wide t
      → Inv rows cols wide (record t { outs = set t.outs k free; write_at = none })
  written-Inv t k e v = record {
    rows_is = v.rows_is;
    cols_is = v.cols_is;
    wide_is = v.wide_is;
    row_le = v.row_le;
    col_lt = v.col_lt;
    row_end = v.row_end;
    open_row = v.open_row;
    w_row = v.w_row;
    w_in = v.w_in;
    ws = v.ws;
    ins = v.ins;
    outs = Slots-free k (subst (λ w. Slots (while_busy t.busy t.cur_out) w t.outs) e v.outs);
    fill = v.fill;
    cur = v.cur;
  }
