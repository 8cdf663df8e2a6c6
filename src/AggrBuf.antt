-- ===== src/AggrBuf.antt =====
-- hygcn/hardware/aggr_buf.h: the on-chip buffer of aggregated vertices, a ring of `cap_edram` bytes
-- with four pointers that chase each other, and the short queue of its transactions. Vertex counts
-- are natural numbers. An `int` product such as `num_vertex * sz_aggr_vector` joins a `uint64_t`
-- sum, so the sum is taken modulo 2 ^ 64.
pub mod Pointers
pub mod Space
pub mod Ports
mod Tests
use hy_gcn_a_gcn_accelerator.Base.{
  ℕ, ◌+◌, ◌-◌, ◌*◌, ◌%◌, Bool, Option, some, List, [], ◌∷◌, ◌++◌, ℤ, leb, ltb, length, ◌>>=◌, ◌>>◌,
  check, u64, sub_u64, sub_ℕ,
}

-- `std::pair<int, uint64_t>`: the vertex that a pointer has reached, and its byte in the ring.
pub record Ptr : Type 0 where
  pub vertex : ℕ
  pub offset : ℕ

pub record AggrBuf : Type 0 where
  pub trans : List ℕ
  pub aggr_ptr : Ptr
  pub ready_ptr : Ptr
  pub comb_ptr : Ptr
  pub done_ptr : Ptr
  pub sz_aggr_vector : ℕ
  pub sz_block : ℕ
  pub cap_edram : ℕ

abbrev pub trans_per_clock : ℕ
trans_per_clock = 2

abbrev pub origin : Ptr
origin = record { vertex = 0; offset = 0 }

-- The constructor, and `Init`, which `HyGCN` calls next.
unfoldable pub new : ℕ → ℕ → ℕ → AggrBuf
new cap_edram sz_aggr_vector sz_block = record {
  trans = [];
  aggr_ptr = origin;
  ready_ptr = origin;
  comb_ptr = origin;
  done_ptr = origin;
  sz_aggr_vector = sz_aggr_vector;
  sz_block = sz_block;
  cap_edram = cap_edram;
}

unfoldable pub sync : AggrBuf → ℕ → AggrBuf
sync b start_vertex = record b {
  aggr_ptr = record b.aggr_ptr { vertex = start_vertex };
  ready_ptr = record b.ready_ptr { vertex = start_vertex };
  done_ptr = record b.done_ptr { vertex = start_vertex };
  comb_ptr = record b.comb_ptr { vertex = start_vertex };
}

pub space_free : AggrBuf → ℕ
space_free b = sub_u64 (b.cap_edram + b.aggr_ptr.offset) b.done_ptr.offset % u64 (b.cap_edram + 1)

unfoldable pub will_allocate : AggrBuf → ℕ → Bool
unfolding space_free
will_allocate b num_vertex = leb (u64 (num_vertex * b.sz_aggr_vector)) (space_free b)

-- The update that the four pointers share.
unfoldable pub advance : AggrBuf → ℕ → Ptr → Ptr
advance b num_vertex p = record {
  vertex = p.vertex + num_vertex;
  offset = u64 (b.cap_edram + p.offset + num_vertex * b.sz_aggr_vector) % b.cap_edram;
}

unfoldable pub start_aggr : AggrBuf → ℕ → AggrBuf
unfolding advance
start_aggr b num_vertex = record b { aggr_ptr = advance b num_vertex b.aggr_ptr }

unfoldable pub confirm_aggr : AggrBuf → ℕ → AggrBuf
unfolding advance
confirm_aggr b num_vertex = record b { ready_ptr = advance b num_vertex b.ready_ptr }

unfoldable pub get_ready_vertex_num : AggrBuf → ℤ
get_ready_vertex_num b = sub_ℕ b.ready_ptr.vertex b.comb_ptr.vertex

unfoldable pub start_comb : AggrBuf → ℕ → AggrBuf
unfolding advance
start_comb b num_vertex = record b { comb_ptr = advance b num_vertex b.comb_ptr }

unfoldable pub confirm_comb : AggrBuf → ℕ → AggrBuf
unfolding advance
confirm_comb b num_vertex = record b { done_ptr = advance b num_vertex b.done_ptr }

-- Both `assert`s of the source are checks.
unfoldable pub get_aggr_write_addr : AggrBuf → ℕ → ℕ → Option ℕ
get_aggr_write_addr b vertex_id part_id = do
  check (leb b.ready_ptr.vertex vertex_id)
  let res =
      u64 (
        b.ready_ptr.offset
        + (vertex_id - b.ready_ptr.vertex) * b.sz_aggr_vector
        + part_id * b.sz_block)
      % b.cap_edram
  check (ltb res b.cap_edram)
  some res

unfoldable pub will_accept_transaction : AggrBuf → Bool
will_accept_transaction b = ltb (length b.trans) trans_per_clock

unfoldable pub add_transaction : AggrBuf → ℕ → AggrBuf
add_transaction b addr = record b { trans = b.trans ++ (addr ∷ []) }

-- The callback reaches no field of the buffer, so the loop over the queue threads only its state.
unfoldable pub drain {ℓ} : {S : Type ℓ} → (ℕ → S → Option S) → List ℕ → S → Option S
drain callback [] s = some s
drain callback (addr ∷ trans) s = callback addr s >>= drain callback trans

unfoldable pub clock_tick {ℓ} :
    {S : Type ℓ} → (ℕ → S → Option S) → AggrBuf → S → Option (AggrBuf × S)
unfolding drain
clock_tick callback b s = drain callback b.trans s >>= λ s'. some (record b { trans = [] }, s')
