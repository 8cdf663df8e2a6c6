-- ===== src/Config/Blocks.antt =====
-- config.cpp, `TileConfig`: a block of the weights and the weight buffer.
use native.Mathlib.Nat.{mul-le-mul_right, mul-le-mul, div-mul-le_self}
use hy_gcn_a_gcn_accelerator.Base.{
  ℕ, zero, suc, ◌*◌, ◌/◌, ◌≤◌, ◌<◌, ◌≡◌, inl, inr, arith, Option, none, some, ltb, leb, ◌&&◌,
  Bool-cases,
}
use hy_gcn_a_gcn_accelerator.Tool.{lower_align}
use hy_gcn_a_gcn_accelerator.Config.{SysConfig, sqrt_below, sqrt, divide, comb_chunk}

sqrt_below-square : (k n : ℕ) → sqrt_below k n * sqrt_below k n ≤ n
unfolding sqrt_below
sqrt_below-square zero n = omega arith
sqrt_below-square (suc k) n = elim (Bool-cases (leb (suc k * suc k) n)) [
  | inl h ↦ rw (h, sqrt_below) (ground (arith, h))
  | inr h ↦ rw (h, sqrt_below) (sqrt_below-square k n)
]

lower_align-le : (n c : ℕ) → lower_align n c ≤ n
unfolding lower_align
lower_align-le n c = div-mul-le_self n c

-- So many numbers of `data_bytes` each as the quotient counts fit.
area-le : (n cap data_bytes : ℕ) → n ≤ cap / data_bytes → n * data_bytes ≤ cap
area-le n cap data_bytes h =
    omega (arith, mul-le-mul_right data_bytes h, div-mul-le_self cap data_bytes)

pub divide-some : (a b : ℕ) {q : ℕ} → divide a b ≡ some q → (0 < b) × (q ≡ a / b)
divide-some a b h = ground (arith, h)

abbrev pub AreaOf : ℕ → ℕ → Option (ℕ × ℕ) → Type 0
AreaOf cap data_bytes none = Unit
AreaOf cap data_bytes (some (h, w)) = h * w * data_bytes ≤ cap

pub comb_chunk-AreaOf :
    (sys : SysConfig) (data_bytes aligned_h aligned_w : ℕ)
    → AreaOf sys.cap_wbuf data_bytes (comb_chunk sys data_bytes aligned_h aligned_w)
unfolding comb_chunk sqrt
comb_chunk-AreaOf sys data_bytes aligned_h aligned_w =
    let n = sys.cap_wbuf / data_bytes in
    let block = sys.block_size / data_bytes in
    let k = lower_align (sqrt n) block in
    let strip : (side : ℕ) → lower_align (n / side) block * side ≤ n = λ side.
      omega
        (arith, mul-le-mul_right side (lower_align-le (n / side) block), div-mul-le_self n side) in
    let square : k * k ≤ n = omega (
      arith,
      mul-le-mul (lower_align-le (sqrt n) block) (lower_align-le (sqrt n) block),
      sqrt_below-square n n,
    ) in
    elim (Bool-cases (leb (aligned_h * aligned_w * data_bytes) sys.cap_wbuf)) [
      | inl p ↦ rw (p, comb_chunk) (ground (arith, p))
      | inr p ↦ elim (Bool-cases (leb k aligned_h && leb k aligned_w)) [
        | inl q ↦ rw (p, q, comb_chunk) (area-le (k * k) sys.cap_wbuf data_bytes square)
        | inr q ↦ elim (Bool-cases (leb aligned_h k && ltb k aligned_w)) [
          | inl r ↦ elim (Bool-cases (ltb 0 aligned_h)) [
            | inl s ↦
                rw (p, q, r, s, comb_chunk)
                  (area-le (aligned_h * lower_align (n / aligned_h) block) sys.cap_wbuf data_bytes
                    (omega (arith, strip aligned_h)))
            | inr s ↦ rw (p, q, r, s, comb_chunk) tt
          ]
          | inr r ↦ elim (Bool-cases (leb aligned_w k && ltb k aligned_h)) [
            | inl t ↦ elim (Bool-cases (ltb 0 aligned_w)) [
              | inl s ↦
                  rw (p, q, r, t, s, comb_chunk)
                    (area-le (lower_align (n / aligned_w) block * aligned_w) sys.cap_wbuf data_bytes
                      (strip aligned_w))
              | inr s ↦ rw (p, q, r, t, s, comb_chunk) tt
            ]
            | inr t ↦ rw (p, q, r, t, comb_chunk) tt
          ]
        ]
      ]
    ]
