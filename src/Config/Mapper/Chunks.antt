-- ===== src/Config/Mapper/Chunks.antt =====
-- config.cpp, the constructor of `AddrMapper`: the loop that cuts the rows of the graph into chunks.
use native.Mathlib.Decide.{dec_lt}
use hy_gcn_a_gcn_accelerator.Base.{
  ℕ, zero, suc, ◌+◌, ◌-◌, ◌*◌, ◌≤◌, ◌<◌, ◌≡◌, refl, ap, ◌∙◌, inl, inr, List, [], ◌∷◌, ◌++◌, arith,
  some, length, get_elem?, take, drop, leb, ltb, ◌==◌, ◌||◌, if◌then◌else◌, sum_by, sum_by-append,
  All, All-append, length-take, length-drop, get_elem?_of_lt, Bool-cases,
}
use hy_gcn_a_gcn_accelerator.Config.Mapper.{
  Chunking, last_end, slice, flush, edge_info, chunk_round, chunk_loop, start, edge_chunks,
}
use hy_gcn_a_gcn_accelerator.Config.Mapper.Slices.{
  take-slice, take-all, take-suc, get_elem?-drop, last_end-snoc, concat, concat-snoc, EndsOf,
  last_end-from, EndsOf-snoc,
}

-- The bytes of a chunk in the edge buffer.
abbrev pub bytes : ℕ → ℕ → List (List ℕ) → ℕ
bytes idx_bytes data_bytes chunk = sum_by (edge_info idx_bytes data_bytes) chunk

-- A chunk that the engine can take: some rows, at most `max_vertex`, of at most `space` bytes.
pub record Fits (space max_vertex idx_bytes data_bytes : ℕ) (chunk : List (List ℕ)) : Type 0 where
  pub small : bytes idx_bytes data_bytes chunk ≤ space
  pub few : length chunk ≤ max_vertex
  pub some_rows : 0 < length chunk

All-get :
    (P : List ℕ → Type 0) (xs : List (List ℕ)) (i : ℕ) {x : List ℕ}
    → get_elem? xs i ≡ some x
    → All P xs
    → P x
All-get P [] i e a = cc
All-get P (y ∷ xs) zero {x = x} e a = let same : y ≡ x = ground arith in rw (← same) a.0
All-get P (y ∷ xs) (suc i) e a = All-get P xs i e a.1

module _ (space max_vertex idx_bytes data_bytes : ℕ) (rows : List (List ℕ)) where
  -- The state of the loop: the chunks are the rows before `last_end`, and the rows from there to `i`
  -- are open.
  record Inv (s : Chunking) : Type 0 where
    done : concat s.chunks ≡ take (last_end s.ends) rows
    counted : last_end s.ends + s.vertex_size ≡ s.i
    sized :
        s.edge_size ≡ bytes idx_bytes data_bytes (take s.vertex_size (drop (last_end s.ends) rows))
    small : s.edge_size ≤ space
    few : s.vertex_size ≤ max_vertex
    inside : s.i ≤ length rows
    fits : All (Fits space max_vertex idx_bytes data_bytes) s.chunks
    bounds : EndsOf 0 s.ends s.chunks

  Inv-start : Inv start
  Inv-start = record {
    done = refl;
    counted = omega arith;
    sized = refl;
    small = omega arith;
    few = omega arith;
    inside = omega arith;
    fits = tt;
    bounds = tt;
  }

  length-open :
      (s : Chunking)
      → Inv s
      → length (take s.vertex_size (drop (last_end s.ends) rows)) ≡ s.vertex_size
  length-open s v = omega (
    arith,
    v.counted,
    v.inside,
    length-take s.vertex_size (drop (last_end s.ends) rows),
    length-drop (last_end s.ends) rows,
  )

  -- The open rows become a chunk.
  Inv-flush : (s : Chunking) → Inv s → 0 < s.vertex_size → Inv (flush rows s.i s)
  Inv-flush s v some_rows =
      let e = last_end s.ends in
      let c = take s.vertex_size (drop e rows) in
      let same : slice e s.i rows ≡ c = ap (λ n. take n (drop e rows)) (omega (arith, v.counted)) in
      let last : last_end (s.ends ++ (s.i ∷ [])) ≡ s.i = last_end-snoc s.ends s.i in
      let long = length-open s v in
      record {
        done =
            rw
              (
                last,
                same,
                concat-snoc s.chunks c,
                v.done,
                take-slice e s.vertex_size rows,
                v.counted,
              )
              refl;
        counted = omega (arith, last);
        sized = refl;
        small = omega arith;
        few = omega arith;
        inside = v.inside;
        fits = All-append _ s.chunks _ v.fits (
          rw same (record {
            small = omega (arith, v.sized, v.small);
            few = omega (arith, long, v.few);
            some_rows = omega (arith, long);
          }),
          tt,
        );
        bounds =
            EndsOf-snoc 0 s.ends s.chunks s.i (slice e s.i rows) v.bounds
              (rw same (omega (arith, long, v.counted, last_end-from s.ends)));
      }

  -- A row joins the open ones.
  Inv-row :
      (s : Chunking) (row : List ℕ)
      → Inv s
      → get_elem? rows s.i ≡ some row
      → s.i < length rows
      → s.edge_size + edge_info idx_bytes data_bytes row ≤ space
      → s.vertex_size < max_vertex
      → Inv (record s {
        edge_size = s.edge_size + edge_info idx_bytes data_bytes row;
        vertex_size = s.vertex_size + 1;
        i = s.i + 1;
      })
  Inv-row s row v at lt room few =
      let open_rows = drop (last_end s.ends) rows in
      let here : get_elem? open_rows s.vertex_size ≡ some row =
        get_elem?-drop (last_end s.ends) s.vertex_size rows ∙ ap (get_elem? rows) v.counted ∙ at in
      let grown : take (s.vertex_size + 1) open_rows ≡ take s.vertex_size open_rows ++ (row ∷ []) =
        ap (λ n. take n open_rows) {y = suc s.vertex_size} (omega arith)
        ∙ take-suc s.vertex_size open_rows here in
      let total =
        sum_by-append (edge_info idx_bytes data_bytes) (take s.vertex_size open_rows) (row ∷ []) in
      record {
        done = v.done;
        counted = omega (arith, v.counted);
        sized = rw grown (omega (arith, v.sized, total));
        small = room;
        few = omega arith;
        inside = omega arith;
        fits = v.fits;
        bounds = v.bounds;
      }

  abbrev opened : Chunking → ℕ
  opened s = if ltb 0 s.vertex_size then 1 else 0

  -- Open rows take bytes where an index does.
  Inv-empty : (s : Chunking) → Inv s → s.vertex_size ≡ 0 → s.edge_size ≡ 0
  Inv-empty s v e =
      v.sized ∙ ap (λ n. bytes idx_bytes data_bytes (take n (drop (last_end s.ends) rows))) e

  chunk_loop-round :
      (fuel : ℕ) (s s' : Chunking) (row : List ℕ)
      → s.i < length rows
      → get_elem? rows s.i ≡ some row
      → chunk_round space max_vertex idx_bytes data_bytes rows row s ≡ some s'
      → chunk_loop (suc fuel) space max_vertex idx_bytes data_bytes (length rows) rows s
        ≡ chunk_loop fuel space max_vertex idx_bytes data_bytes (length rows) rows s'
  unfolding chunk_loop
  chunk_loop-round fuel s s' row go at e = ground (arith, go, at, e)

  -- With enough fuel the loop comes to the last row.
  chunk_loop-Inv :
      (fuel : ℕ) (s : Chunking)
      → 0 < max_vertex
      → All (λ row. edge_info idx_bytes data_bytes row ≤ space) rows
      → Inv s
      → 2 * (length rows - s.i) + opened s < fuel
      → (t : Chunking) × (chunk_loop fuel space max_vertex idx_bytes data_bytes (length rows) rows s
          ≡ some t)
        × Inv t
        × (t.i ≡ length rows)
  unfolding chunk_loop chunk_round
  chunk_loop-Inv zero s h a v f = absurd (omega arith)
  chunk_loop-Inv (suc fuel) s h a v f = elim (dec_lt s.i (length rows)) [
    | no stop ↦ (s, ground arith, v, omega (arith, v.inside))
    | yes go ↦
        let (row, at) = get_elem?_of_lt rows s.i go in
        let fit : edge_info idx_bytes data_bytes row ≤ space = All-get _ rows s.i at a in
        let info = edge_info idx_bytes data_bytes row in
        elim (Bool-cases (ltb space (s.edge_size + info) || leb max_vertex s.vertex_size)) [
          | inl full ↦
              let some_rows : 0 < s.vertex_size = ground (arith, Inv-empty s v) in
              let (t, run, w, end) =
                chunk_loop-Inv fuel (flush rows s.i s) h a (Inv-flush s v some_rows)
                  (ground arith) in
              (t, chunk_loop-round fuel s (flush rows s.i s) row go at (ground arith) ∙ run, w, end)
          | inr room ↦
              let s' : Chunking = record s {
                edge_size = s.edge_size + info;
                vertex_size = s.vertex_size + 1;
                i = s.i + 1;
              } in
              let (t, run, w, end) =
                chunk_loop-Inv fuel s' h a (Inv-row s row v at go (ground arith) (ground arith))
                  (ground arith) in
              (t, chunk_loop-round fuel s s' row go at (ground arith) ∙ run, w, end)
        ]
  ]

-- The chunks of edges of some rows: put together they are the rows, each fits, and the ends say at
-- which vertex each one ends.
pub record IsChunked (space max_vertex idx_bytes data_bytes : ℕ) (rows : List (List ℕ))
    (s : Chunking) : Type 0 where
  pub lossless : concat s.chunks ≡ rows
  pub fits : All (Fits space max_vertex idx_bytes data_bytes) s.chunks
  pub bounds : EndsOf 0 s.ends s.chunks

length-bytes :
    (idx_bytes data_bytes : ℕ) (c : List (List ℕ))
    → 0 < idx_bytes
    → length c ≤ bytes idx_bytes data_bytes c
length-bytes idx_bytes data_bytes [] h = omega arith
length-bytes idx_bytes data_bytes (row ∷ c) h = omega (arith, length-bytes idx_bytes data_bytes c h)

Inv-IsChunked :
    (space max_vertex idx_bytes data_bytes : ℕ) (rows : List (List ℕ)) (s : Chunking)
    → Inv space max_vertex idx_bytes data_bytes rows s
    → s.i ≡ length rows
    → s.vertex_size ≡ 0
    → IsChunked space max_vertex idx_bytes data_bytes rows s
Inv-IsChunked space max_vertex idx_bytes data_bytes rows s v end none_open = record {
  lossless = v.done ∙ take-all (last_end s.ends) rows (omega (arith, v.counted));
  fits = v.fits;
  bounds = v.bounds;
}

-- Where every row fits the edge buffer, a chunk may have a row and an index takes bytes, the loop
-- over the rows ends. The chunks, put together, are the rows of the graph, no one lost or moved; each
-- chunk has at least one row and at most `max_vertex`, and takes at most the bytes of the edge buffer;
-- and the end of a chunk, as a vertex number, is the end of the one before and its number of rows.
pub edge_chunks-IsChunked :
    (space max_vertex idx_bytes data_bytes : ℕ) (rows : List (List ℕ))
    → 0 < max_vertex
    → 0 < idx_bytes
    → All (λ row. edge_info idx_bytes data_bytes row ≤ space) rows
    → (s : Chunking) × (edge_chunks space max_vertex idx_bytes data_bytes (length rows) rows
        ≡ some s)
      × IsChunked space max_vertex idx_bytes data_bytes rows s
unfolding edge_chunks
edge_chunks-IsChunked space max_vertex idx_bytes data_bytes rows h k a =
    let (t, run, v, end) =
      chunk_loop-Inv space max_vertex idx_bytes data_bytes rows (2 * length rows + 1) start h a
        (Inv-start space max_vertex idx_bytes data_bytes rows) (omega arith) in
    elim (Bool-cases (t.edge_size == 0)) [
      | inl closed ↦
          let e : t.edge_size ≡ 0 = ground arith in
          (
            t,
            rw (run, closed),
            Inv-IsChunked space max_vertex idx_bytes data_bytes rows t v end (
                omega (
                  arith,
                  e,
                  v.sized,
                  length-open space max_vertex idx_bytes data_bytes rows t v,
                  length-bytes idx_bytes data_bytes
                      (take t.vertex_size (drop (last_end t.ends) rows)) k,
                )),
          )
      | inr left ↦
          let some_rows : 0 < t.vertex_size =
            ground (arith, Inv-empty space max_vertex idx_bytes data_bytes rows t v) in
          let w = Inv-flush space max_vertex idx_bytes data_bytes rows t v some_rows in
          (
            flush rows t.i t,
            rw (run, left, end),
            Inv-IsChunked space max_vertex idx_bytes data_bytes rows (flush rows t.i t) w end refl,
          )
    ]
