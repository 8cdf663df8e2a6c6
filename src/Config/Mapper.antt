-- ===== src/Config/Mapper.antt =====
-- config.h and config.cpp, `AddrMapper`: where the inputs, the outputs, the weights and the edges lie
-- in the HBM, and how the rows of the graph are cut into chunks of the edge buffer.
pub mod Slices
pub mod Chunks
pub mod Regions
mod Tests
use hy_gcn_a_gcn_accelerator.Base.{
  ℕ, zero, suc, ◌+◌, ◌-◌, ◌*◌, ◌%◌, true, false, Option, none, some, List, [], ◌∷◌, ◌++◌, leb, ltb,
  ◌==◌, ◌||◌, if◌then◌else◌, ◌>>=◌, ◌>>◌, check, length, get_elem?, take, drop, u64, int_u64,
}
use hy_gcn_a_gcn_accelerator.Config.{
  SysConfig, LayerConfig, TileConfig, space_aligned_vertex, space_aligned_output_vertex,
}

pub record AddrMapper : Type 0 where
  pub hbm_start_addr : ℕ
  pub hbm_end_addr : ℕ
  pub input_start_addr : ℕ
  pub input_end_addr : ℕ
  pub output_start_addr : ℕ
  pub output_end_addr : ℕ
  pub weight_start_addr : ℕ
  pub weight_end_addr : ℕ
  pub edge_start_addr : ℕ
  pub edge_end_addr : ℕ
  pub num_edge_chunk : ℕ
  pub start_vertex_of_echunk : List ℕ
  pub end_vertex_of_echunk : List ℕ
  pub edge_chunk : List (List (List ℕ))

-- The variables of the loop over the rows.
pub record Chunking : Type 0 where
  pub i : ℕ
  pub edge_size : ℕ
  pub vertex_size : ℕ
  pub ends : List ℕ
  pub chunks : List (List (List ℕ))

-- `end_vertex_of_echunk.back()`, or the beginning.
abbrev pub last_end : List ℕ → ℕ
last_end [] = 0
last_end (e ∷ []) = e
last_end (e ∷ f ∷ es) = last_end (f ∷ es)

-- `std::vector(begin + from, begin + to)`.
abbrev pub slice {ℓ} : {A : Type ℓ} → ℕ → ℕ → List A → List A
slice from to xs = take (to - from) (drop from xs)

-- The chunk from the last end to row `to`.
abbrev pub flush : List (List ℕ) → ℕ → Chunking → Chunking
flush rows to s = record s {
  edge_size = 0;
  vertex_size = 0;
  ends = s.ends ++ (to ∷ []);
  chunks = s.chunks ++ (slice (last_end s.ends) to rows ∷ []);
}

-- The bytes of a row in the edge buffer.
abbrev pub edge_info : ℕ → ℕ → List ℕ → ℕ
edge_info idx_bytes data_bytes row = idx_bytes + length row * (idx_bytes + data_bytes)

-- One round of the loop at the row `row`.
unfoldable pub chunk_round :
    (space max_vertex idx_bytes data_bytes : ℕ)
    → List (List ℕ)
    → List ℕ
    → Chunking
    → Option Chunking
chunk_round space max_vertex idx_bytes data_bytes rows row s =
    let info = edge_info idx_bytes data_bytes row in
    if ltb space info
    then none
    else if ltb space (s.edge_size + info) || leb max_vertex s.vertex_size
    then some (flush rows s.i s)
    else some
        (record s { edge_size = s.edge_size + info; vertex_size = s.vertex_size + 1; i = s.i + 1 })

-- `for (int i = 0; i < num_vertex;)`, on fuel.
unfoldable pub chunk_loop :
    ℕ
    → (space max_vertex idx_bytes data_bytes num_vertex : ℕ) → List (List ℕ)
    → Chunking
    → Option Chunking
chunk_loop zero space max_vertex idx_bytes data_bytes num_vertex rows s = none
chunk_loop (suc fuel) space max_vertex idx_bytes data_bytes num_vertex rows s =
    elim (ltb s.i num_vertex) [
      | false ↦ some s
      | true ↦ elim (get_elem? rows s.i) [
        | none ↦ none
        | some row ↦ elim (chunk_round space max_vertex idx_bytes data_bytes rows row s) [
          | none ↦ none
          | some s' ↦ chunk_loop fuel space max_vertex idx_bytes data_bytes num_vertex rows s'
        ]
      ]
    ]

abbrev pub start : Chunking
start = record { i = 0; edge_size = 0; vertex_size = 0; ends = []; chunks = [] }

-- The loop and the chunk that is left. A row costs two rounds at most.
unfoldable pub edge_chunks :
    (space max_vertex idx_bytes data_bytes num_vertex : ℕ) → List (List ℕ) → Option Chunking
unfolding chunk_loop chunk_round
edge_chunks space max_vertex idx_bytes data_bytes num_vertex rows =
    chunk_loop (2 * num_vertex + 1) space max_vertex idx_bytes data_bytes num_vertex rows start
    >>= λ s. some (if s.edge_size == 0 then s else flush rows num_vertex s)

-- All but the last, where there is one.
abbrev pub drop_last : List ℕ → List ℕ
drop_last [] = []
drop_last (x ∷ []) = []
drop_last (x ∷ y ∷ xs) = x ∷ drop_last (y ∷ xs)

-- The constructor of `AddrMapper`, for the rows `r_adj` of the graph.
unfoldable pub new_mapper :
    SysConfig → LayerConfig → TileConfig → ℕ → List (List ℕ) → Option AddrMapper
unfolding edge_chunks
new_mapper sys layer tile num_vertex rows = do
  check (sys.cap_edgebuf % sys.block_size == 0)
  s ←
      edge_chunks sys.cap_edgebuf tile.ele_aggr_w_interval layer.idx_bytes layer.data_bytes
        num_vertex rows
  let input_end = u64 (int_u64 (num_vertex * space_aligned_vertex layer sys.block_size))
  let output_end =
      u64 (input_end + int_u64 (num_vertex * space_aligned_output_vertex layer sys.block_size))
  let weight_end = u64 (output_end + tile.space_aligned_weight)
  some (record {
    hbm_start_addr = 0;
    hbm_end_addr = sys.cap_hbm;
    input_start_addr = 0;
    input_end_addr = input_end;
    output_start_addr = input_end;
    output_end_addr = output_end;
    weight_start_addr = output_end;
    weight_end_addr = weight_end;
    edge_start_addr = weight_end;
    edge_end_addr = u64 (weight_end + int_u64 (length s.chunks * sys.cap_edgebuf));
    num_edge_chunk = length s.chunks;
    start_vertex_of_echunk = 0 ∷ drop_last s.ends;
    end_vertex_of_echunk = s.ends;
    edge_chunk = s.chunks;
  })
