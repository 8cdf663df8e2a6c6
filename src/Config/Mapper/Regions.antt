-- ===== src/Config/Mapper/Regions.antt =====
-- config.cpp, `AddrMapper`: the regions of the memory follow one another.
use native.Mathlib.Nat.{mul-le-mul_right, mod-eq_of_lt}
use hy_gcn_a_gcn_accelerator.Base.{
  ◌≤◌, ℕ, ◌+◌, ◌*◌, ◌%◌, ◌<◌, ◌≡◌, refl, sym, ap, subst, ◌∙◌, arith, some, List, ◌==◌, check,
  length, u64, u64_mod, int_u64, int_u64-fits, ◌^◌, >>=-eq-some, some-eq,
}
use hy_gcn_a_gcn_accelerator.Config.{
  SysConfig, LayerConfig, TileConfig, space_aligned_vertex, space_aligned_output_vertex,
}
use hy_gcn_a_gcn_accelerator.Config.Mapper.{AddrMapper, edge_chunks, new_mapper}

-- The bytes of all regions, with `chunks` chunks of edges.
abbrev pub bytes_of : SysConfig → LayerConfig → TileConfig → ℕ → ℕ → ℕ
bytes_of sys layer tile num_vertex chunks =
    num_vertex * space_aligned_vertex layer sys.block_size
    + num_vertex * space_aligned_output_vertex layer sys.block_size
    + tile.space_aligned_weight
    + chunks * sys.cap_edgebuf

-- The regions that the layout multiplies out on `int`s are below 2 ^ 31 bytes, and all of them together
-- below 2 ^ 64.
abbrev pub Fits : SysConfig → LayerConfig → TileConfig → ℕ → ℕ → Type 0
Fits sys layer tile num_vertex chunks =
    (num_vertex * space_aligned_vertex layer sys.block_size < 2 ^ 31)
    × (num_vertex * space_aligned_output_vertex layer sys.block_size < 2 ^ 31)
    × (chunks * sys.cap_edgebuf < 2 ^ 31)
    × (bytes_of sys layer tile num_vertex chunks < u64_mod)

-- The inputs, the outputs, the weights and the chunks of edges, one region after the other from
-- address 0 on, each of the size of what it holds.
pub record Regions (sys : SysConfig) (layer : LayerConfig) (tile : TileConfig) (num_vertex : ℕ)
    (m : AddrMapper) : Type 0 where
  pub inputs_start : m.input_start_addr ≡ 0
  pub inputs : m.input_end_addr ≡ num_vertex * space_aligned_vertex layer sys.block_size
  pub outputs_start : m.output_start_addr ≡ m.input_end_addr
  pub outputs :
      m.output_end_addr
      ≡ m.output_start_addr + num_vertex * space_aligned_output_vertex layer sys.block_size
  pub weights_start : m.weight_start_addr ≡ m.output_end_addr
  pub weights : m.weight_end_addr ≡ m.weight_start_addr + tile.space_aligned_weight
  pub edges_start : m.edge_start_addr ≡ m.weight_end_addr
  pub edges : m.edge_end_addr ≡ m.edge_start_addr + m.num_edge_chunk * sys.cap_edgebuf
  pub no_wrap : m.edge_end_addr < u64_mod
  pub vertex_in :
      (v : ℕ)
      → v < num_vertex
      → let space = space_aligned_vertex layer sys.block_size in
        m.input_start_addr + v * space + space ≤ m.input_end_addr
  pub output_in :
      (v : ℕ)
      → v < num_vertex
      → let space = space_aligned_output_vertex layer sys.block_size in
        m.output_start_addr + v * space + space ≤ m.output_end_addr
  pub chunk_in :
      (k : ℕ)
      → k < m.num_edge_chunk
      → m.edge_start_addr + k * sys.cap_edgebuf + sys.cap_edgebuf ≤ m.edge_end_addr

-- The last of `n` slots ends where all of them do.
slot-le : (n v space : ℕ) → v < n → v * space + space ≤ n * space
slot-le n v space h =
    let up : (v + 1) * space ≤ n * space = mul-le-mul_right space (omega (arith, h)) in
    omega (arith, up)

-- A layout that the constructor comes to, where the inputs, the outputs and the chunks of edges take less
-- than 2 ^ 31 bytes each, as they are products of `int`s, and all regions together less than
-- 2 ^ 64: the inputs, the outputs, the weights and the chunks of edges lie one after the other from address 0 on,
-- each in a region of its size that no address wraps around in, and the features of each vertex, its
-- outputs and each chunk of edges lie in their region, all of them.
pub new_mapper-Regions :
    (sys : SysConfig) (layer : LayerConfig) (tile : TileConfig) (num_vertex : ℕ)
    (rows : List (List ℕ)) {m : AddrMapper}
    → new_mapper sys layer tile num_vertex rows ≡ some m
    → Fits sys layer tile num_vertex m.num_edge_chunk
    → Regions sys layer tile num_vertex m
unfolding new_mapper
new_mapper-Regions sys layer tile num_vertex rows {m} e fits =
    let (_, _, e₁) = >>=-eq-some (check (sys.cap_edgebuf % sys.block_size == 0)) _ e in
    let (s, _, e₂) =
      >>=-eq-some
        (edge_chunks sys.cap_edgebuf tile.ele_aggr_w_interval layer.idx_bytes layer.data_bytes
          num_vertex rows)
        _ e₁ in
    let made = some-eq e₂ in
    let a = num_vertex * space_aligned_vertex layer sys.block_size in
    let b = num_vertex * space_aligned_output_vertex layer sys.block_size in
    let c = length s.chunks * sys.cap_edgebuf in
    let (a_fits, b_fits, c_fits, all) =
      subst (Fits sys layer tile num_vertex) (sym (ap (λ (m : AddrMapper). m.num_edge_chunk) made))
        fits in
    let x = int_u64 a in
    let y = int_u64 b in
    let z = int_u64 c in
    let a_is : u64 x ≡ a = ap u64 (int_u64-fits a a_fits) ∙ mod-eq_of_lt (omega (arith, all)) in
    let b_is : u64 (u64 x + y) ≡ a + b =
      ap (λ n. u64 (n + y)) a_is
      ∙ ap (λ n. u64 (a + n)) (int_u64-fits b b_fits)
      ∙ mod-eq_of_lt (omega (arith, all)) in
    let w_is : u64 (u64 (u64 x + y) + tile.space_aligned_weight)
        ≡ a + b + tile.space_aligned_weight =
      ap (λ n. u64 (n + tile.space_aligned_weight)) b_is ∙ mod-eq_of_lt (omega (arith, all)) in
    let c_is : u64 (u64 (u64 (u64 x + y) + tile.space_aligned_weight) + z)
        ≡ a + b + tile.space_aligned_weight + c =
      ap (λ n. u64 (n + z)) w_is
      ∙ ap (λ n. u64 (a + b + tile.space_aligned_weight + n)) (int_u64-fits c c_fits)
      ∙ mod-eq_of_lt (omega (arith, all)) in
    subst (Regions sys layer tile num_vertex) made (record {
      inputs_start = refl;
      inputs = a_is;
      outputs_start = refl;
      outputs = b_is ∙ ap (λ n. n + b) (sym a_is);
      weights_start = refl;
      weights = w_is ∙ ap (λ n. n + tile.space_aligned_weight) (sym b_is);
      edges_start = refl;
      edges = c_is ∙ ap (λ n. n + c) (sym w_is);
      no_wrap = subst (λ n. n < u64_mod) (sym c_is) all;
      vertex_in = λ v h.
          omega (arith, a_is, slot-le num_vertex v (space_aligned_vertex layer sys.block_size) h);
      output_in = λ v h. omega (
        arith,
        a_is,
        b_is,
        slot-le num_vertex v (space_aligned_output_vertex layer sys.block_size) h,
      );
      chunk_in = λ k h. omega (arith, w_is, c_is, slot-le (length s.chunks) k sys.cap_edgebuf h);
    })
