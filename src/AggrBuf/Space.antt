-- ===== src/AggrBuf/Space.antt =====
-- aggr_buf.h, `WillAllocate`: the test of the free space.
use native.Mathlib.Nat.{mod-eq_of_lt, mod-eq-sub-mod}
use hy_gcn_a_gcn_accelerator.Base.{
  ℕ, ◌+◌, ◌-◌, ◌*◌, ◌^◌, ◌≤◌, ◌<◌, ◌≡◌, ◌⊎◌, ◌↔◌, arith, true, false,
}
use hy_gcn_a_gcn_accelerator.AggrBuf.{AggrBuf, space_free, will_allocate}

-- `used` bytes lie between the oldest byte that is still needed and the next one to allocate.
pub record Holds (b : AggrBuf) (used : ℕ) : Type 0 where
  pub small : b.cap_edram < 2 ^ 31
  pub start : b.done_ptr.offset < b.cap_edram
  pub partial : used < b.cap_edram
  pub end :
      (b.aggr_ptr.offset ≡ b.done_ptr.offset + used)
      ⊎ (b.aggr_ptr.offset + b.cap_edram ≡ b.done_ptr.offset + used)

-- In use but not full: the "free" space is the number of bytes in use, or one less.
space_free_lem :
    (b : AggrBuf) (used : ℕ)
    → Holds b used
    → 0 < used
    → (space_free b ≡ used - 1) ⊎ (space_free b ≡ used)
unfolding space_free
space_free_lem b used h pos = grind (arith, mod-eq_of_lt, mod-eq-sub-mod)

-- Empty: the free space is the capacity.
space_free-empty : (b : AggrBuf) → Holds b 0 → space_free b ≡ b.cap_edram
unfolding space_free
space_free-empty b h = grind (arith, mod-eq_of_lt)

-- On an empty buffer the test accepts exactly the batches that fit.
will_allocate-empty :
    (b : AggrBuf) (n : ℕ)
    → Holds b 0
    → n * b.sz_aggr_vector < 2 ^ 31
    → (will_allocate b n ≡ true) ↔ (n * b.sz_aggr_vector ≤ b.cap_edram)
unfolding will_allocate
will_allocate-empty b n h fits = ground (arith, space_free-empty b h)

-- On a buffer in use the test measures the wrong side of the ring: it accepts every batch smaller
-- than what is in use, also where the batch does not fit in the rest, and it refuses every batch
-- larger than what is in use, also where it fits.
pub will_allocate-inverted :
    (b : AggrBuf) (used n : ℕ)
    → Holds b used
    → 0 < used
    → n * b.sz_aggr_vector < 2 ^ 31
    → (n * b.sz_aggr_vector < used → will_allocate b n ≡ true)
      × (used < n * b.sz_aggr_vector → will_allocate b n ≡ false)
unfolding will_allocate
will_allocate-inverted b used n h pos fits = (
  λ p. ground (arith, space_free_lem b used h pos),
  λ p. ground (arith, space_free_lem b used h pos),
)
