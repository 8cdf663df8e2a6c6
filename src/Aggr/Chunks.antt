-- ===== src/Aggr/Chunks.antt =====
-- aggr.cpp, `GenDataFlow`: the request of a chunk of edges, and where the chunk lies.
use native.Mathlib.Nat.{mul-le-mul_right, mul-le-mul_left, mod-eq_of_lt}
use hy_gcn_a_gcn_accelerator.Base.{
  ℕ, ◌+◌, ◌-◌, ◌*◌, ◌≤◌, ◌<◌, ◌≡◌, refl, sym, ap, subst, ◌∙◌, arith, min, some, [], ◌∷◌, ◌++◌,
  check, ltb, get_elem?, u64, u64_mod, some-eq, >>=-eq-some,
}
use hy_gcn_a_gcn_accelerator.Event.{Event, dram, read, edge}
use hy_gcn_a_gcn_accelerator.Event
use hy_gcn_a_gcn_accelerator.Coordinator.{Coordinator, add_event}
use hy_gcn_a_gcn_accelerator.Partition.{partition}
use hy_gcn_a_gcn_accelerator.Config.Layers.{HyConfig}
use hy_gcn_a_gcn_accelerator.Config.Mapper.Regions.{Regions}
use hy_gcn_a_gcn_accelerator.Aggr.{World, send}
use hy_gcn_a_gcn_accelerator.Aggr.Filling.{load_chunk, fill_ebuf}
use hy_gcn_a_gcn_accelerator.Spma.{Spma}

add_event-edge :
    (c : Coordinator) (sz_block address bytes : ℕ) {c' : Coordinator}
    → add_event c (Event.new sz_block address bytes dram read edge) ≡ some c'
    → c'.store ≡ c.store ++ (Event.new sz_block address bytes dram read edge ∷ [])
unfolding add_event Event.new
add_event-edge c sz_block address bytes e = ap (λ (c : Coordinator). c.store) (sym (some-eq e))

-- The bytes that are asked for at once.
abbrev pub asked_bytes : HyConfig → ℕ
asked_bytes hy = min hy.sys_config.cap_edgebuf hy.tile_config.space_aligned_weight

-- An address within the chunks does not wrap around.
inside :
    (start end k n cap bytes : ℕ)
    → k < n
    → bytes ≤ cap
    → end ≡ start + n * cap
    → end < u64_mod
    → start + k * bytes < u64_mod
inside start end k n cap bytes h b e p =
    let less : k * bytes ≤ k * cap = mul-le-mul_left k b in
    let more : k * cap ≤ n * cap = mul-le-mul_right cap (omega (arith, h)) in
    omega (arith, less, more, e, p)

distrib : (k a b : ℕ) → k * (a + b) ≡ k * a + k * b
distrib k a b = omega arith

-- A chunk that lies later by what each chunk is longer.
shifted :
    (start k weights cap : ℕ)
    → weights < cap
    → start + k * weights + k * (cap - weights) ≡ start + k * cap
shifted start k weights cap h =
    let whole : weights + (cap - weights) ≡ cap = omega (arith, h) in
    let split : k * (weights + (cap - weights)) ≡ k * weights + k * (cap - weights) =
      distrib k weights (cap - weights) in
    omega (arith, split, ap (λ n. k * n) whole)

-- To take a chunk asks for nothing.
load_chunk-coordinator :
    (hy : HyConfig) (i : ℕ) (b : Spma) (cnt : ℕ) (w : World) {w' : World}
    → load_chunk hy i b cnt w ≡ some w'
    → w'.coordinator ≡ w.coordinator
unfolding load_chunk
load_chunk-coordinator hy i b cnt w {w'} e =
    let (_, _, e₁) = >>=-eq-some (get_elem? hy.mapper.start_vertex_of_echunk cnt) _ e in
    let (_, _, e₂) = >>=-eq-some (get_elem? hy.mapper.end_vertex_of_echunk cnt) _ e₁ in
    let (chunk, _, e₃) = >>=-eq-some (get_elem? hy.mapper.edge_chunk cnt) _ e₂ in
    let (_, _, e₄) =
      >>=-eq-some (partition hy.raw_graph.num_vertex hy.tile_config.ele_aggr_h_interval chunk) _
        e₃ in
    subst (λ (v : World). v.coordinator ≡ w.coordinator) (some-eq e₄) refl

fill_ebuf-store :
    (hy : HyConfig) (i : ℕ) (w : World) {w' : World}
    → fill_ebuf hy i w ≡ some w'
    → let k = w.aggr.edge_chunk_cnt in
      w'.coordinator.store
      ≡ w.coordinator.store
        ++ (Event.new hy.sys_config.block_size
              (u64 (hy.mapper.edge_start_addr + k * asked_bytes hy))
              (asked_bytes hy)
              dram
              read
              edge
            ∷ [])
unfolding fill_ebuf
fill_ebuf-store hy i w e =
    let cnt = w.aggr.edge_chunk_cnt in
    let addr = u64 (hy.mapper.edge_start_addr + cnt * asked_bytes hy) in
    let event = Event.new hy.sys_config.block_size addr (asked_bytes hy) dram read edge in
    let (b, _, e₁) = >>=-eq-some (get_elem? w.aggr.ebuf i) _ e in
    let (_, _, e₂) = >>=-eq-some (check (ltb addr hy.mapper.edge_end_addr)) _ e₁ in
    let (w₁, sent, e₃) = >>=-eq-some (send event w) _ e₂ in
    let (c, added, is_w₁) = >>=-eq-some (add_event w.coordinator event) _ sent in
    ap (λ (c : Coordinator). c.store) (load_chunk-coordinator hy i b cnt w₁ e₃)
    ∙ ap (λ (w : World). w.coordinator.store) (sym (some-eq is_w₁))
    ∙ add_event-edge w.coordinator hy.sys_config.block_size addr (asked_bytes hy) added

-- With a layout whose regions follow one another, a chunk that is there is asked for by one request.
-- Where the weights take at least as much space as the edge buffer, it is the request of the
-- bytes of the chunk. Where they take less, it starts too early, by the difference for each chunk
-- before it, and is too short by the difference.
pub fill_ebuf-request :
    (hy : HyConfig) (i : ℕ) (w : World) {w' : World}
    → Regions hy.sys_config hy.layer_config hy.tile_config hy.raw_graph.num_vertex hy.mapper
    → w.aggr.edge_chunk_cnt < hy.mapper.num_edge_chunk
    → fill_ebuf hy i w ≡ some w'
    → let k = w.aggr.edge_chunk_cnt in
      let cap = hy.sys_config.cap_edgebuf in
      let weights = hy.tile_config.space_aligned_weight in
      (addr bytes : ℕ) × (w'.coordinator.store
        ≡ w.coordinator.store
          ++ (Event.new hy.sys_config.block_size addr bytes dram read edge ∷ []))
      × (cap ≤ weights → (addr ≡ hy.mapper.edge_start_addr + k * cap) × (bytes ≡ cap))
      × (weights < cap
          → (addr + k * (cap - weights) ≡ hy.mapper.edge_start_addr + k * cap)
            × (bytes + (cap - weights) ≡ cap))
fill_ebuf-request hy i w r h e =
    let k = w.aggr.edge_chunk_cnt in
    let cap = hy.sys_config.cap_edgebuf in
    let weights = hy.tile_config.space_aligned_weight in
    let bytes = asked_bytes hy in
    let start = hy.mapper.edge_start_addr in
    let exact : u64 (start + k * bytes) ≡ start + k * bytes = mod-eq_of_lt (
      inside start hy.mapper.edge_end_addr k hy.mapper.num_edge_chunk cap bytes h (omega arith)
        r.edges r.no_wrap) in
    (
      u64 (start + k * bytes),
      bytes,
      fill_ebuf-store hy i w e,
      λ fits.
          let all : bytes ≡ cap = omega (arith, fits) in (exact ∙ ap (λ n. start + k * n) all, all),
      λ less.
          let short : bytes ≡ weights = omega (arith, less) in
          (
            ap (λ n. n + k * (cap - weights)) (exact ∙ ap (λ n. start + k * n) short)
                ∙ shifted start k weights cap less,
            omega (arith, less),
          ),
    )
