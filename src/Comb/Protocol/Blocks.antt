-- ===== src/Comb/Protocol/Blocks.antt =====
-- comb.cpp, the control of the combination engine: from block to block and from batch to batch.
use hy_gcn_a_gcn_accelerator.Base.{
  ℕ, ◌+◌, ◌≤◌, ◌<◌, ◌≡◌, refl, sym, ap, ◌∙◌, subst, inl, inr, arith, true, false, Option, none,
  some, ◌==◌, get_elem?, set, if◌then◌else◌, Bool-cases, Option-cases,
}
use hy_gcn_a_gcn_accelerator.Comb.Slots.{
  free, load, drain, Slots, Slots-load, Slots-drain, Slots-free, Slots-keep,
}
use hy_gcn_a_gcn_accelerator.Comb.Protocol.{
  Control, Move, take_both, take_weights, both_ready, weights_ready, launch, collect, written,
  batch, Moves, done, more, next_block, launched, collected, while_busy, Link, between, after_last,
  within, Inv,
}
use hy_gcn_a_gcn_accelerator.Comb.Protocol.Buffers.{
  take_both-Inv, take_weights-Inv, both_ready-Inv, weights_ready-Inv, written-Inv,
}

module _ {rows cols wide : ℕ} where
  -- At the end of the rows nothing is filled.
  pub end-free : (t : Control) → t.row ≡ t.rows → Inv rows cols wide t → t.w_at ≡ none
  end-free t e v = elim (Option-cases t.w_at) [
    | inl n ↦ n
    | inr (j, h) ↦ absurd (omega (arith, v.w_row j h, v.rows_is, e))
  ]

  batch-Inv :
      (t : Control)
      → 0 < rows
      → t.row ≡ t.rows
      → Inv rows cols wide t
      → Inv rows cols wide (record t { row = 0; col = 0; opened = true })
  batch-Inv t some_rows e v =
      let no_w = end-free t e v in
      let at_zero : t.col ≡ 0 = v.row_end (e ∙ v.rows_is) in
      let (l, s, link) = v.ins in
      record {
        rows_is = v.rows_is;
        cols_is = v.cols_is;
        wide_is = v.wide_is;
        row_le = omega arith;
        col_lt = omega (arith, v.col_lt);
        row_end = λ _. refl;
        open_row = λ _. (some_rows, no_w);
        w_row = λ _ _. some_rows;
        w_in = v.w_in;
        ws = v.ws;
        ins = (
          l,
          s,
          subst (λ n. Link t.busy t.in_at t.w_at t.cur_in n t.cols t.chunk l) at_zero link,
        );
        outs = v.outs;
        fill = v.fill;
        cur = v.cur;
      }

  -- `enable_fetch_` is set again, unless the rows are at their end.
  reopen :
      (u : Control)
      → u.w_at ≡ none
      → Inv rows cols wide u
      → Inv rows cols wide (if u.row == u.rows then u else record u { opened = true })
  reopen u n v = elim (Bool-cases (u.row == u.rows)) [
    | inl e ↦ rw e v
    | inr e ↦
        let less : u.row < rows = ground (arith, e, v.row_le, v.rows_is) in
        rw e (record {
          rows_is = v.rows_is;
          cols_is = v.cols_is;
          wide_is = v.wide_is;
          row_le = v.row_le;
          col_lt = v.col_lt;
          row_end = v.row_end;
          open_row = λ _. (less, n);
          w_row = v.w_row;
          w_in = v.w_in;
          ws = v.ws;
          ins = v.ins;
          outs = v.outs;
          fill = v.fill;
          cur = v.cur;
        })
  ]

  -- The counters and pointers after a block that has been launched, and what the rest needs of them.
  launched-Inv :
      (t : Control) (i j k row col : ℕ) (in_at : Option ℕ)
      → t.busy ≡ false
      → get_elem? t.ins i ≡ some load
      → get_elem? t.ws j ≡ some load
      → get_elem? t.outs k ≡ some free
      → row ≤ rows
      → col < cols
      → (row ≡ rows → col ≡ 0)
      → Link true in_at none t.in_at col t.cols t.col none
      → Inv rows cols wide t
      → Inv rows cols wide
          (record (launched i j k t) { row = row; col = col; in_at = in_at; w_at = none })
  launched-Inv t i j k row col in_at b ei ej ek r c z link v =
      let (l, s, old) = v.ins in
      let (w_here, ws) =
        Slots-drain j (subst (λ b. Slots t.w_at (while_busy b t.cur_w) t.ws) b v.ws) ej in
      let (l_here, ins) =
        Slots-drain i (subst (λ b. Slots l (while_busy b t.cur_in) t.ins) b s) ei in
      let in_here : t.in_at ≡ some i = same l old ∙ l_here in
      record {
        rows_is = v.rows_is;
        cols_is = v.cols_is;
        wide_is = v.wide_is;
        row_le = r;
        col_lt = c;
        row_end = z;
        open_row = λ o. let no_w = (v.open_row o).1 in cc;
        w_row = λ _ h. cc;
        w_in = λ _ h. cc;
        ws = subst (λ w. Slots none w (set t.ws j drain)) (sym w_here) ws;
        ins = (none, subst (λ w. Slots none w (set t.ins i drain)) (sym in_here) ins, link);
        outs =
            Slots-load k (subst (λ b. Slots (while_busy b t.cur_out) t.write_at t.outs) b v.outs)
              ek;
        fill = λ _. refl;
        cur = λ _. ((i, in_here), (j, w_here), (k, refl));
      }
    where
      same :
          (l : Option ℕ) → Link t.busy t.in_at t.w_at t.cur_in t.col t.cols t.chunk l → t.in_at ≡ l
      same l (between _ e f g) = e
      same l (after_last e _ _ _ _) = cc
      same l (within e _ _ _) = cc

  launch-Inv :
      (t : Control) (i j k : ℕ)
      → t.busy ≡ false
      → get_elem? t.ins i ≡ some load
      → get_elem? t.ws j ≡ some load
      → get_elem? t.outs k ≡ some free
      → Inv rows cols wide t
      → Inv rows cols wide (next_block (launched i j k t))
  launch-Inv t i j k b ei ej ek v =
      let w_here =
        (Slots-drain j (subst (λ b. Slots t.w_at (while_busy b t.cur_w) t.ws) b v.ws) ej).0 in
      let less = v.w_row j w_here in
      elim (Bool-cases ((t.col + 1) == t.cols)) [
        | inl e ↦
            let last : t.col + 1 ≡ t.cols = ground (arith, e) in
            rw e (
              reopen
                (record (launched i j k t) { col = 0; row = t.row + 1; in_at = none; w_at = none })
                refl
                (launched-Inv t i j k (t.row + 1) 0 none b ei ej ek (omega (arith, less))
                  (omega (arith, v.col_lt)) (λ _. refl) (after_last refl refl last refl (λ _. refl))
                  v))
        | inr e ↦
            let more : t.col + 1 < cols = ground (arith, e, v.col_lt, v.cols_is) in
            rw e (
              reopen (record (launched i j k t) { col = t.col + 1; w_at = none }) refl
                (launched-Inv t i j k t.row (t.col + 1) t.in_at b ei ej ek v.row_le more
                  (λ h. absurd (omega (arith, less, h))) (within refl refl refl refl) v))
      ]

  -- The array has its result: the inputs are kept for the next block of their row.
  collect-Inv :
      (t : Control) (i j k : ℕ)
      → t.busy ≡ true
      → t.write_at ≡ none
      → t.cur_in ≡ some i
      → t.cur_w ≡ some j
      → t.cur_out ≡ some k
      → Inv rows cols wide t
      → Inv rows cols wide (collected i j k t)
  collect-Inv t i j k b n ei ej ek v =
      let drained = ap (λ b. while_busy b t.cur_w) b ∙ ej in
      let loaded = ap (λ b. while_busy b t.cur_out) b ∙ ek in
      let outs : Slots (some k) none t.outs =
        subst (λ w. Slots (some k) w t.outs) n
          (subst (λ l. Slots l t.write_at t.outs) loaded v.outs) in
      let (_, drained_out) = Slots-drain k outs (outs.loaded k refl) in
      record {
        rows_is = v.rows_is;
        cols_is = v.cols_is;
        wide_is = v.wide_is;
        row_le = v.row_le;
        col_lt = v.col_lt;
        row_end = v.row_end;
        open_row = v.open_row;
        w_row = v.w_row;
        w_in = v.w_in;
        ws = Slots-free j (subst (λ d. Slots t.w_at d t.ws) drained v.ws);
        ins =
            kept v.ins.0
              (subst (λ d. Slots v.ins.0 d t.ins) (ap (λ b. while_busy b t.cur_in) b ∙ ei) v.ins.1)
              v.ins.2;
        outs = subst (λ w. Slots none w (set t.outs k drain)) (sym (v.fill b ∙ ek)) drained_out;
        fill = λ h. cc;
        cur = λ h. cc;
      }
    where
      kept :
          (l : Option ℕ)
          → Slots l (some i) t.ins
          → Link t.busy t.in_at t.w_at t.cur_in t.col t.cols t.chunk l
          → (l : Option ℕ) × Slots l none
              (set t.ins i (if (t.chunk + 1) == t.cols then free else load))
            × Link false t.in_at t.w_at t.cur_in t.col t.cols t.chunk l
      kept l s (between h _ _ _) = cc
      kept l s (after_last _ e c d f) =
          let at_end : ((t.chunk + 1) == t.cols) ≡ true = ground (arith, c) in
          (
            l,
            rw at_end (Slots-free i s),
            between refl e (λ _. f) (λ h. absurd (omega (arith, d, h))),
          )
      kept l s (within _ e c d) =
          let inside : ((t.chunk + 1) == t.cols) ≡ false = ground (arith, d, v.col_lt, v.cols_is) in
          (
            some i,
            rw inside (Slots-keep i (subst (λ l. Slots l (some i) t.ins) e s)),
            between refl (c ∙ ei) (λ h. absurd (omega (arith, d, h))) (λ _. (i, refl)),
          )

  pub Move-Inv : {t u : Control} → 0 < rows → Move t u → Inv rows cols wide t → Inv rows cols wide u
  Move-Inv {t} p (take_both i j o z ei ej e) v =
      subst (Inv rows cols wide) (sym e) (take_both-Inv t i j o z ei ej v)
  Move-Inv {t} p (take_weights j o z ej e) v =
      subst (Inv rows cols wide) (sym e) (take_weights-Inv t j o z ej v)
  Move-Inv {t} p (both_ready i j ei ej z e) v =
      subst (Inv rows cols wide) (sym e) (both_ready-Inv t i j ei ej z v)
  Move-Inv {t} p (weights_ready j ej e) v =
      subst (Inv rows cols wide) (sym e) (weights_ready-Inv t j ej v)
  Move-Inv {t} p (launch i j k b ei ej ek e) v =
      subst (Inv rows cols wide) (sym e) (launch-Inv t i j k b ei ej ek v)
  Move-Inv {t} p (collect i j k b n ei ej ek e) v =
      subst (Inv rows cols wide) (sym e) (collect-Inv t i j k b n ei ej ek v)
  Move-Inv {t} p (written k ek e) v = subst (Inv rows cols wide) (sym e) (written-Inv t k ek v)
  Move-Inv {t} p (batch z e) v = subst (Inv rows cols wide) (sym e) (batch-Inv t p z v)

  pub Moves-Inv :
      {t u : Control} → 0 < rows → Moves t u → Inv rows cols wide t → Inv rows cols wide u
  Moves-Inv p done v = v
  Moves-Inv p (more q m) v = Move-Inv p m (Moves-Inv p q v)
