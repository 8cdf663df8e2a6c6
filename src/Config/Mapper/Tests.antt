-- ===== src/Config/Mapper/Tests.antt =====
-- The cut of three rows into chunks of an edge buffer of 40 bytes.
use hy_gcn_a_gcn_accelerator.Base.{ℕ, ◌≡◌, List, [], ◌∷◌, arith, some}
use hy_gcn_a_gcn_accelerator.Config.Mapper.{Chunking, edge_chunks}
use hy_gcn_a_gcn_accelerator.Config.Mapper.Chunks.{IsChunked, edge_chunks-IsChunked}

abbrev rows : List (List ℕ)
rows = (0 ∷ 1 ∷ []) ∷ (2 ∷ []) ∷ (0 ∷ 1 ∷ 2 ∷ []) ∷ []

edge_chunks-IsChunked_example :
    (s : Chunking) × (edge_chunks 40 2 4 4 3 rows ≡ some s) × IsChunked 40 2 4 4 rows s
edge_chunks-IsChunked_example =
    edge_chunks-IsChunked 40 2 4 4 rows (omega arith) (omega arith)
      (omega arith, (omega arith, (omega arith, tt)))
