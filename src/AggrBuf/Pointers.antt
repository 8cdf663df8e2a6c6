-- ===== src/AggrBuf/Pointers.antt =====
-- aggr_buf.h: how the four pointers of the ring move.
use native.Mathlib.Nat.{mod-eq_of_lt, mod-eq-sub-mod, mod-add-mod, mod-lt, add-mul, add_assoc}
use mathlib.Core.Path.{◌≡⟨◌⟩◌, ◌∎}
use hy_gcn_a_gcn_accelerator.Base.{ℕ, ◌+◌, ◌-◌, ◌*◌, ◌%◌, ◌^◌, ◌<◌, ◌≡◌, ap, arith, u64, u64_mod}
use hy_gcn_a_gcn_accelerator.AggrBuf.{
  Ptr, AggrBuf, advance, new, start_aggr, confirm_aggr, start_comb, confirm_comb,
}

-- The pointer stands at the byte of its vertex.
abbrev pub IsTracked : AggrBuf → Ptr → Type 0
IsTracked b p = p.offset ≡ p.vertex * b.sz_aggr_vector % b.cap_edram

pub record Inv (b : AggrBuf) : Type 0 where
  pub positive : 0 < b.cap_edram
  pub small : b.cap_edram < 2 ^ 31
  pub aggr_at : IsTracked b b.aggr_ptr
  pub ready_at : IsTracked b b.ready_ptr
  pub comb_at : IsTracked b b.comb_ptr
  pub done_at : IsTracked b b.done_ptr

-- A batch of vertices whose size in bytes is an `int`.
abbrev pub Fits : AggrBuf → ℕ → Type 0
Fits b n = n * b.sz_aggr_vector < 2 ^ 31

-- What the two engines do to the pointers. As in the source, nothing is asked of the order of the
-- pointers.
pub data Step : AggrBuf → AggrBuf → Type 0 where
  starts_aggr : (b : AggrBuf) (n : ℕ) → Fits b n → Step b (start_aggr b n)
  confirms_aggr : (b : AggrBuf) (n : ℕ) → Fits b n → Step b (confirm_aggr b n)
  starts_comb : (b : AggrBuf) (n : ℕ) → Fits b n → Step b (start_comb b n)
  confirms_comb : (b : AggrBuf) (n : ℕ) → Fits b n → Step b (confirm_comb b n)

pub data Reach (s : AggrBuf) : AggrBuf → Type 0 where
  here : Reach s s
  next : {t u : AggrBuf} → Reach s t → Step t u → Reach s u

-- The byte of a vertex further on, with a part of `q` bytes into it.
tracked_add :
    (c s v k o q : ℕ)
    → o ≡ v * s % c
    → o + k * s + q < u64_mod
    → u64 (o + k * s + q) % c ≡ ((v + k) * s + q) % c
tracked_add c s v k o q e h =
    u64 (o + k * s + q) % c
    ≡⟨ ap (λ t. t % c) (mod-eq_of_lt h) ⟩ (o + k * s + q) % c
    ≡⟨ rw (e, add_assoc) (mod-add-mod (v * s) c (k * s + q)) ⟩ (v * s + (k * s + q)) % c
    ≡⟨ ap (λ t. t % c) (omega (arith, add-mul v k s)) ⟩ ((v + k) * s + q) % c ∎

advance-IsTracked :
    (b : AggrBuf) (n : ℕ) (p : Ptr)
    → 0 < b.cap_edram
    → b.cap_edram < 2 ^ 31
    → Fits b n
    → IsTracked b p
    → IsTracked b (advance b n p)
unfolding advance
advance-IsTracked b n p pos small fits at =
    let c : ℕ = b.cap_edram in
    let s : ℕ = b.sz_aggr_vector in
    let below : p.offset < c = rw at (mod-lt (p.vertex * s) pos) in
    u64 (c + p.offset + n * s) % c
    ≡⟨ ap (λ t. t % c) (mod-eq_of_lt {n = c + p.offset + n * s} {m = u64_mod} (omega arith)) ⟩
      (c + p.offset + n * s) % c
    ≡⟨ mod-eq-sub-mod {n = c + p.offset + n * s} {m = c} (omega arith) ⟩
      (c + p.offset + n * s - c) % c
    ≡⟨ ap (λ t. t % c)
        (omega (arith, mod-eq_of_lt {n = p.offset + n * s + 0} {m = u64_mod} (omega arith))) ⟩
      u64 (p.offset + n * s + 0) % c
    ≡⟨ tracked_add c s p.vertex n p.offset 0 at (omega arith) ⟩ ((p.vertex + n) * s + 0) % c
    ≡⟨ ap (λ t. t % c) (omega arith) ⟩ (p.vertex + n) * s % c ∎

new-Inv : (cap sz block : ℕ) → 0 < cap → cap < 2 ^ 31 → Inv (new cap sz block)
unfolding new
new-Inv cap sz block h k = ground (arith, mod-eq_of_lt {n = 0} {m = cap} h)

Step-Inv : {b c : AggrBuf} → Step b c → Inv b → Inv c
unfolding start_aggr confirm_aggr start_comb confirm_comb
Step-Inv (starts_aggr b n f) v =
    ground (arith, advance-IsTracked b n b.aggr_ptr v.positive v.small f v.aggr_at)
Step-Inv (confirms_aggr b n f) v =
    ground (arith, advance-IsTracked b n b.ready_ptr v.positive v.small f v.ready_at)
Step-Inv (starts_comb b n f) v =
    ground (arith, advance-IsTracked b n b.comb_ptr v.positive v.small f v.comb_at)
Step-Inv (confirms_comb b n f) v =
    ground (arith, advance-IsTracked b n b.done_ptr v.positive v.small f v.done_at)

Reach-Inv : {b c : AggrBuf} → Inv b → Reach b c → Inv c
Reach-Inv v here = v
Reach-Inv v (next r st) = Step-Inv st (Reach-Inv v r)

-- From a fresh buffer of at least one and less than 2 ^ 31 bytes on, in any sequence of `StartAggr`, `ConfirmAggr`,
-- `StartComb` and `ConfirmComb`, each for vertices of less than 2 ^ 31 bytes: every pointer stands at
-- the byte `vertex * sz_aggr_vector` modulo the capacity, for the vertex it has reached.
pub Reach-new-Inv :
    (cap sz block : ℕ) {b : AggrBuf} → 0 < cap → cap < 2 ^ 31 → Reach (new cap sz block) b → Inv b
Reach-new-Inv cap sz block h k r = Reach-Inv (new-Inv cap sz block h k) r
