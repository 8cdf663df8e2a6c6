-- ===== src/Tool/Align.antt =====
-- What the two alignments promise: the nearest multiples of the chunk.
use native.Mathlib.Nat.{div-lt_iff_lt-mul, le-div_iff_mul-le, mul-le-mul_right, add-mul}
use native.Mathlib.Decide.{dec_lt}
use hy_gcn_a_gcn_accelerator.Base.{ℕ, ◌+◌, ◌-◌, ◌*◌, ◌/◌, ◌≤◌, ◌<◌, ◌↔◌, arith, ceil_div}
use hy_gcn_a_gcn_accelerator.Tool.{upper_align, lower_align}

-- `ceil_div` is the least count of chunks that holds `n`.
pub ceil_div-le_iff : (n d k : ℕ) → 0 < d → (ceil_div n d ≤ k) ↔ (n ≤ k * d)
ceil_div-le_iff n d k h = (
  λ p. omega (arith, (div-lt_iff_lt-mul {k = d} {x = n + d - 1} {y = k + 1} h).0 (omega arith)),
  λ p. omega (arith, (div-lt_iff_lt-mul {k = d} {x = n + d - 1} {y = k + 1} h).1 (omega arith)),
)

pub le-ceil_div-mul : (n d : ℕ) → 0 < d → n ≤ ceil_div n d * d
le-ceil_div-mul n d h = (ceil_div-le_iff n d (ceil_div n d) h).0 (omega arith)

pub ceil_div_pos : (n d : ℕ) → 0 < n → 0 < d → 0 < ceil_div n d
ceil_div_pos n d h k = elim (dec_lt 0 (ceil_div n d)) [
  | yes p ↦ p
  | no p ↦ absurd (omega (arith, (ceil_div-le_iff n d 0 k).0 (omega arith)))
]

-- `UpperAlign` gives the least multiple of the chunk that is not below the size, and wastes less
-- than one chunk.
upper_align-least :
    (n c m : ℕ)
    → 0 < c
    → n ≤ m * c
    → (n ≤ upper_align n c) × (upper_align n c ≤ m * c) × (upper_align n c < n + c)
unfolding upper_align
upper_align-least n c m h p = (
  le-ceil_div-mul n c h,
  mul-le-mul_right c ((ceil_div-le_iff n c m h).1 p),
  omega (arith, (le-div_iff_mul-le {k = c} {x = ceil_div n c} {y = n + c - 1} h).0 (omega arith)),
)

-- `LowerAlign` gives the greatest multiple of the chunk that is not above the size.
lower_align-greatest :
    (n c m : ℕ)
    → 0 < c
    → m * c ≤ n
    → (lower_align n c ≤ n) × (m * c ≤ lower_align n c) × (n < lower_align n c + c)
unfolding lower_align
lower_align-greatest n c m h p = (
  (le-div_iff_mul-le {k = c} {x = n / c} {y = n} h).0 (omega arith),
  mul-le-mul_right c ((le-div_iff_mul-le {k = c} {x = m} {y = n} h).1 p),
  omega (
    arith,
    (div-lt_iff_lt-mul {k = c} {x = n} {y = n / c + 1} h).0 (omega arith),
    add-mul (n / c) 1 c,
  ),
)
