-- ===== src/Tool.antt =====
-- hygcn/tool.cpp: alignment of sizes to a chunk. The source computes `std::ceil((double)num /
-- chunk) * chunk`; doubles hold every whole number below 2 ^ 53, and the quotient of two such
-- numbers is not rounded over a whole number, so the model divides natural numbers.
pub mod Align
use hy_gcn_a_gcn_accelerator.Base.{ℕ, ◌*◌, ◌/◌, ceil_div}

unfoldable pub upper_align : ℕ → ℕ → ℕ
upper_align num chunk = ceil_div num chunk * chunk

unfoldable pub lower_align : ℕ → ℕ → ℕ
lower_align num chunk = num / chunk * chunk
