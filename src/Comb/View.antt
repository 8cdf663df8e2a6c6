-- ===== src/Comb/View.antt =====
-- comb.cpp: the control of the combination engine, as what the code keeps of it, and what leaves it
-- as it is.
use hy_gcn_a_gcn_accelerator.Base.{
  ℕ, zero, suc, ◌+◌, ◌≡◌, refl, sym, ap, ◌∙◌, inl, inr, arith, Bool, true, not, Option, none, some,
  List, [], ◌∷◌, get_elem?, set, first_from, Bool-cases, some-eq, >>=-eq-some, ltb, if◌then◌else◌,
}
use hy_gcn_a_gcn_accelerator.Event.{
  EventDataType, edge, weight, input_feature, aggr_feature, output_feature, none_data,
}
use hy_gcn_a_gcn_accelerator.Spm
use hy_gcn_a_gcn_accelerator.Spm.{Spm, get_target_buf, is_in, code, confirm_event}
use hy_gcn_a_gcn_accelerator.SystolicArray.{SystolicArray, is_idle}
use hy_gcn_a_gcn_accelerator.Comb.{Comb, World, update, process_returned_event}
use hy_gcn_a_gcn_accelerator.Comb.Slots.{Kind, free, load, drain}
use hy_gcn_a_gcn_accelerator.Comb.Protocol.{Control}

abbrev pub kind : Spm.State → Kind
kind Spm.filling = load
kind Spm.ready = load
kind Spm.draining = drain
kind Spm.writing = drain
kind Spm.idle = free

abbrev pub kinds : List Spm → List Kind
kinds [] = []
kinds (b ∷ bufs) = kind b.state ∷ kinds bufs

abbrev pub view : Comb → SystolicArray → Control
view c s = record {
  rows = c.num_input_chunk;
  cols = c.num_output_chunk;
  wide = c.sz_output_chunk;
  row = c.input_chunk_cnt;
  col = c.output_chunk_cnt;
  opened = c.enable_fetch;
  in_at = c.inbuf_ptr;
  w_at = c.wbuf_ptr;
  fill_at = c.filling_outbuf_ptr;
  write_at = c.writing_outbuf_ptr;
  ins = kinds c.inbuf;
  ws = kinds c.wbuf;
  outs = kinds c.outbuf;
  busy = not (is_idle s);
  cur_in = s.binding.cur_inbuf;
  cur_w = s.binding.cur_wbuf;
  cur_out = s.binding.cur_outbuf;
  chunk = s.binding.output_chunk;
}

abbrev pub view_of : World → Control
view_of w = view w.comb w.array

pub kinds-get :
    (bufs : List Spm) (i : ℕ) {b : Spm}
    → get_elem? bufs i ≡ some b
    → get_elem? (kinds bufs) i ≡ some (kind b.state)
kinds-get [] i e = cc
kinds-get (x ∷ bufs) zero e = ap (λ b. some (kind b.state)) (some-eq e)
kinds-get (x ∷ bufs) (suc i) e = kinds-get bufs i e

pub kinds-set :
    (bufs : List Spm) (i : ℕ) (b : Spm) → kinds (set bufs i b) ≡ set (kinds bufs) i (kind b.state)
kinds-set [] i b = refl
kinds-set (x ∷ bufs) zero b = refl
kinds-set (x ∷ bufs) (suc i) b = ap (◌∷◌ (kind x.state)) (kinds-set bufs i b)

-- To confirm a transaction of a buffer changes no state.
kinds-confirm :
    (bufs : List Spm) (i : ℕ) {b : Spm}
    → get_elem? bufs i ≡ some b
    → kinds (set bufs i (confirm_event b)) ≡ kinds bufs
kinds-confirm [] i e = cc
kinds-confirm (x ∷ bufs) zero e = ap (λ b. kind b.state ∷ kinds bufs) (sym (some-eq e))
kinds-confirm (x ∷ bufs) (suc i) e = ap (◌∷◌ (kind x.state)) (kinds-confirm bufs i e)

pub update-some :
    (f : Spm → Spm) (p : Option ℕ) (bufs : List Spm) {bufs' : List Spm}
    → update f p bufs ≡ some bufs'
    → (i : ℕ) × (b : Spm) × (p ≡ some i) × (get_elem? bufs i ≡ some b) × (set bufs i (f b) ≡ bufs')
update-some f none bufs e = cc
update-some f (some i) bufs e =
    let (b, there, done) = >>=-eq-some (get_elem? bufs i) _ e in (i, b, refl, there, some-eq done)

first_from-test :
    (test : Spm → Bool) (n : ℕ) (bufs : List Spm) {k : ℕ}
    → first_from test n bufs ≡ some k
    → (i : ℕ) × (b : Spm) × (k ≡ n + i) × (get_elem? bufs i ≡ some b) × (test b ≡ true)
unfolding first_from
first_from-test test n [] e = cc
first_from-test test n (x ∷ bufs) e = elim (Bool-cases (test x)) [
  | inl t ↦ (0, x, sym (some-eq (rw t at e)) ∙ omega arith, refl, t)
  | inr t ↦
      let (i, b, k, there, h) = first_from-test test (n + 1) bufs (rw t at e) in
      (suc i, b, omega (arith, k), there, h)
]

abbrev kind_of : ℕ → Kind
kind_of n = if ltb n 2 then load else if ltb n 4 then drain else free

kind_of-code : (s : Spm.State) → kind_of (code s) ≡ kind s
kind_of-code Spm.filling = refl
kind_of-code Spm.ready = refl
kind_of-code Spm.draining = refl
kind_of-code Spm.writing = refl
kind_of-code Spm.idle = refl

-- The buffer that a search for a state finds is of its kind.
pub get_target_buf-kind :
    (bufs : List Spm) (s : Spm.State) {k : ℕ}
    → get_target_buf bufs s ≡ some k
    → get_elem? (kinds bufs) k ≡ some (kind s)
unfolding get_target_buf
get_target_buf-kind bufs s {k} e =
    let (i, b, k_is, there, test) = first_from-test (is_in s) 0 bufs e in
    let same : code b.state ≡ code s = ground (arith, test) in
    let at_k : k ≡ i = omega (arith, k_is) in
    ap (get_elem? (kinds bufs)) at_k
    ∙ kinds-get bufs i there
    ∙ ap some (sym (kind_of-code b.state) ∙ ap kind_of same ∙ kind_of-code s)

is_in-ready : (b : Spm) → is_in Spm.ready b ≡ true → b.state ≡ Spm.ready
is_in-ready b e = go b.state refl e
  where
    go : (st : Spm.State) → b.state ≡ st → is_in Spm.ready b ≡ true → b.state ≡ Spm.ready
    go Spm.idle h e = let e' = simp h at e in cc
    go Spm.filling h e = let e' = simp h at e in cc
    go Spm.ready h e = h
    go Spm.draining h e = let e' = simp h at e in cc
    go Spm.writing h e = let e' = simp h at e in cc

-- The buffer that a search for a ready one finds is `READY`.
pub get_target_buf-ready :
    (bufs : List Spm) {k : ℕ}
    → get_target_buf bufs Spm.ready ≡ some k
    → (b : Spm) × (get_elem? bufs k ≡ some b) × (b.state ≡ Spm.ready)
unfolding get_target_buf
get_target_buf-ready bufs {k} e =
    let (i, b, k_is, there, test) = first_from-test (is_in Spm.ready) 0 bufs e in
    let at_k : k ≡ i = omega (arith, k_is) in
    (b, ap (get_elem? bufs) at_k ∙ there, is_in-ready b test)

-- What changes nothing of the control.
abbrev pub SameView : Comb → Comb → Type 0
SameView c c' = (s : SystolicArray) → view c' s ≡ view c s

-- A returned event leaves the control as it is.
pub process_returned_event-view :
    (t : EventDataType) (c : Comb) {c' : Comb}
    → process_returned_event t c ≡ some c'
    → SameView c c'
unfolding process_returned_event
process_returned_event-view aggr_feature c e s =
    let (bufs, run, done) = >>=-eq-some (update confirm_event c.inbuf_ptr c.inbuf) _ e in
    let (i, b, _, there, is) = update-some confirm_event c.inbuf_ptr c.inbuf run in
    ap (λ c. view c s) (sym (some-eq done))
    ∙ ap (λ ks. record (view c s) { ins = ks }) (ap kinds (sym is) ∙ kinds-confirm c.inbuf i there)
process_returned_event-view weight c e s =
    let (bufs, run, done) = >>=-eq-some (update confirm_event c.wbuf_ptr c.wbuf) _ e in
    let (i, b, _, there, is) = update-some confirm_event c.wbuf_ptr c.wbuf run in
    ap (λ c. view c s) (sym (some-eq done))
    ∙ ap (λ ks. record (view c s) { ws = ks }) (ap kinds (sym is) ∙ kinds-confirm c.wbuf i there)
process_returned_event-view output_feature c e s =
    let (bufs, run, done) = >>=-eq-some (update confirm_event c.writing_outbuf_ptr c.outbuf) _ e in
    let (i, b, _, there, is) = update-some confirm_event c.writing_outbuf_ptr c.outbuf run in
    ap (λ c. view c s) (sym (some-eq done))
    ∙ ap (λ ks. record (view c s) { outs = ks })
        (ap kinds (sym is) ∙ kinds-confirm c.outbuf i there)
process_returned_event-view edge c e s = cc
process_returned_event-view input_feature c e s = cc
process_returned_event-view none_data c e s = cc
