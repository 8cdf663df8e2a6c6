-- ===== src/Coordinator/ToEdram.antt =====
-- coordinator.cpp, the second part of `IssueEvent`, for the aggregation buffer, and all of it.
use hy_gcn_a_gcn_accelerator.Base.{
  ℕ, zero, suc, ◌+◌, ◌%◌, true, false, Option, none, some, List, [], ◌∷◌, leb, ltb, ◌&&◌, ◌||◌, not,
  if◌then◌else◌, ◌>>=◌, ◌>>◌, check, u64, get_elem?,
}
use hy_gcn_a_gcn_accelerator.Event.{Event, all_trans_issued}
use hy_gcn_a_gcn_accelerator.AggrBuf.{AggrBuf, will_accept_transaction, add_transaction}
use hy_gcn_a_gcn_accelerator.Coordinator.{Coordinator, DramSystem, next_addr, start_edram_trans}
use hy_gcn_a_gcn_accelerator.Coordinator.ToDram.{fuel_of, issued, issue_to_dram}

-- An address of the aggregation buffer, which goes round at its capacity, with the `assert`.
unfoldable pub edram_addr : ℕ → AggrBuf → Event → Option ℕ
edram_addr sz_block b e = do
  let addr = next_addr sz_block e
  check (not (leb b.cap_edram addr) || ltb 0 b.cap_edram)
  let addr' = if leb b.cap_edram addr then u64 (addr + b.cap_edram) % b.cap_edram else addr
  check (not (leb b.cap_edram addr' && ltb b.cap_edram (u64 (addr' + sz_block))))
  some addr'

-- `while (!event->AllTransIssued())` of the second part.
unfoldable pub issue_edram : ℕ → ℕ → ℕ → Coordinator → AggrBuf → Option (Coordinator × AggrBuf)
issue_edram sz_block zero id c b = none
issue_edram sz_block (suc fuel) id c b = elim (get_elem? c.store id) [
  | none ↦ none
  | some e ↦ elim (all_trans_issued e) [
    | true ↦ some (c, b)
    | false ↦ elim (edram_addr sz_block b e) [
      | none ↦ none
      | some addr ↦ elim (will_accept_transaction b) [
        | true ↦
            issue_edram sz_block fuel id (start_edram_trans id addr c e) (add_transaction b addr)
        | false ↦ some (c, b)
      ]
    ]
  ]
]

-- The loop over `tmps`, the queue that is left. The inner loop stops before its event is issued only
-- where the buffer accepts no more, which ends this loop; `none` stands for a round that would else
-- come back to the same event.
unfoldable pub issue_tmps : ℕ → List ℕ → Coordinator → AggrBuf → Option (Coordinator × AggrBuf)
issue_tmps sz_block [] c b = some (record c { tmps = [] }, b)
issue_tmps sz_block (id ∷ rest) c b = elim (issue_edram sz_block (fuel_of c id) id c b) [
  | none ↦ none
  | some (c', b') ↦ elim (will_accept_transaction b') [
    | false ↦ some (record c' { tmps = if issued c' id then rest else id ∷ rest }, b')
    | true ↦ elim (issued c' id) [ true ↦ issue_tmps sz_block rest c' b' | false ↦ none ]
  ]
]

-- The second part of `IssueEvent`.
unfoldable pub issue_to_edram : ℕ → Coordinator → AggrBuf → Option (Coordinator × AggrBuf)
issue_to_edram sz_block c b = issue_tmps sz_block c.tmps c b

module _ (dram : DramSystem) (sz_block : ℕ) where
  open dram use {State}

  -- `IssueEvent`, which is all of `ClockTick`.
  unfoldable pub issue_event :
      Coordinator → State → AggrBuf → Option (Coordinator × State × AggrBuf)
  issue_event c d b = do
    (c', d') ← issue_to_dram dram sz_block c d
    (c'', b') ← issue_to_edram sz_block c' b
    some (c'', d', b')
