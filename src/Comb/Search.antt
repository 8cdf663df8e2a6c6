-- ===== src/Comb/Search.antt =====
-- comb.cpp, `GetIdleBuf`: the search of an idle buffer in a pair of which none is filled.
use hy_gcn_a_gcn_accelerator.Base.{
  ℕ, zero, suc, ◌+◌, ◌≡◌, refl, sym, ◌∙◌, subst, inl, inr, Bool, true, false, Option, none, some,
  List, [], ◌∷◌, get_elem?, first_from, Bool-cases, Option-cases, some-eq,
}
use hy_gcn_a_gcn_accelerator.Spm
use hy_gcn_a_gcn_accelerator.Spm.{Spm, is_in, event_done, get_target_buf}
use hy_gcn_a_gcn_accelerator.Comb.{get_idle_buf}
use hy_gcn_a_gcn_accelerator.Comb.Slots.{Kind, free, Slots, Slots-free_one}
use hy_gcn_a_gcn_accelerator.Comb.View.{kind, kinds, get_target_buf-kind}

pub kinds-some :
    (bufs : List Spm) (i : ℕ) {a : Kind}
    → get_elem? (kinds bufs) i ≡ some a
    → (b : Spm) × (get_elem? bufs i ≡ some b) × (kind b.state ≡ a)
kinds-some [] i e = cc
kinds-some (x ∷ bufs) zero e = (x, refl, some-eq e)
kinds-some (x ∷ bufs) (suc i) e = kinds-some bufs i e

free-idle : (b : Spm) → kind b.state ≡ free → is_in Spm.idle b ≡ true
free-idle b e = go b.state refl e
  where
    go : (st : Spm.State) → b.state ≡ st → kind st ≡ free → is_in Spm.idle b ≡ true
    go Spm.idle h e = simp h
    go Spm.filling h e = cc
    go Spm.ready h e = cc
    go Spm.draining h e = cc
    go Spm.writing h e = cc

first_from-none :
    (test : Spm → Bool) (n : ℕ) (bufs : List Spm) (i : ℕ) {b : Spm}
    → first_from test n bufs ≡ none
    → get_elem? bufs i ≡ some b
    → test b ≡ false
unfolding first_from
first_from-none test n [] i e h = cc
first_from-none test n (x ∷ bufs) zero {b} e h = elim (Bool-cases (test x)) [
  | inl t ↦ let e' = rw t at e in cc
  | inr t ↦ subst (λ b. test b ≡ false) (some-eq h) t
]
first_from-none test n (x ∷ bufs) (suc i) e h = elim (Bool-cases (test x)) [
  | inl t ↦ let e' = rw t at e in cc
  | inr t ↦ first_from-none test (n + 1) bufs i (rw t at e) h
]

-- A buffer is idle while none of the two is filled.
pub get_idle_buf-some :
    (bufs : List Spm) {d : Option ℕ}
    → Slots none d (kinds bufs)
    → (i : ℕ) × (b : Spm) × (get_idle_buf bufs ≡ some i) × (get_elem? bufs i ≡ some b)
unfolding get_target_buf
get_idle_buf-some bufs s = elim (Option-cases (get_idle_buf bufs)) [
  | inl e ↦
      let (k, free_at) = Slots-free_one (kinds bufs) s in
      let (b, there, is_free) = kinds-some bufs k free_at in
      let busy : is_in Spm.idle b ≡ false = first_from-none (is_in Spm.idle) 0 bufs k e there in
      let idle = free-idle b is_free in absurd (true-false (sym idle ∙ busy))
  | inr (i, e) ↦
      let (b, there, _) = kinds-some bufs i (get_target_buf-kind bufs Spm.idle e) in
      (i, b, e, there)
]
  where
    true-false : true ≡ false → ⊥
    true-false h = cc
