-- ===== src/Coordinator/ToDram.antt =====
-- coordinator.cpp, the first part of `IssueEvent`: one request at a time is issued to the DRAM.
use hy_gcn_a_gcn_accelerator.Base.{
  ℕ, zero, suc, ◌+◌, Bool, true, false, Option, none, some, List, [], ◌∷◌, not, if◌then◌else◌,
  ◌>>=◌, get_elem?,
}
use hy_gcn_a_gcn_accelerator.Event.{all_trans_issued}
use hy_gcn_a_gcn_accelerator.Coordinator.{Coordinator, DramSystem, is_write, next_addr, start_trans}

module _ (dram : DramSystem) (sz_block : ℕ) where
  open dram use {State, will_accept, add}

  -- `while (!event->AllTransIssued())` of the DRAM part, on fuel: the loop stops when the DRAM
  -- refuses a transaction.
  unfoldable pub issue_dram : ℕ → ℕ → Coordinator → State → Option (Coordinator × State)
  issue_dram zero id c d = none
  issue_dram (suc fuel) id c d = elim (get_elem? c.store id) [
    | none ↦ none
    | some e ↦ elim (all_trans_issued e) [
      | true ↦ some (c, d)
      | false ↦ elim (will_accept d (next_addr sz_block e) (is_write e)) [
        | true ↦
            issue_dram fuel id (start_trans id (next_addr sz_block e) c e)
              (add d (next_addr sz_block e) (is_write e))
        | false ↦ some (c, d)
      ]
    ]
  ]

-- The queue that `IssueEvent` serves: edges before inputs before weights before outputs.
pub data Queue : Type 0 where
  edge_queue input_queue weight_queue output_queue : Queue

abbrev pub queue_of : Queue → Coordinator → List ℕ
queue_of edge_queue c = c.edges
queue_of input_queue c = c.inputs
queue_of weight_queue c = c.weights
queue_of output_queue c = c.outputs

abbrev pub set_queue : Queue → Coordinator → List ℕ → Coordinator
set_queue edge_queue c q = record c { edges = q }
set_queue input_queue c q = record c { inputs = q }
set_queue weight_queue c q = record c { weights = q }
set_queue output_queue c q = record c { outputs = q }

abbrev pub is_empty : List ℕ → Bool
is_empty [] = true
is_empty (x ∷ xs) = false

unfoldable pub select_queue : Coordinator → Option Queue
select_queue c =
    if not (is_empty c.edges)
    then some edge_queue
    else if not (is_empty c.inputs)
    then some input_queue
    else if not (is_empty c.weights)
    then some weight_queue
    else if not (is_empty c.outputs)
    then some output_queue
    else none

-- Enough fuel for the transactions that an event has left, and for the last test.
abbrev pub fuel_of : Coordinator → ℕ → ℕ
fuel_of c id = elim (get_elem? c.store id) [ none ↦ 0 | some e ↦ e.num_trans + 1 ]

-- `event->AllTransIssued()` after the loop.
abbrev pub issued : Coordinator → ℕ → Bool
issued c id = elim (get_elem? c.store id) [ none ↦ false | some e ↦ all_trans_issued e ]

module _ (dram : DramSystem) (sz_block : ℕ) where
  open dram use {State}

  unfoldable pub serve : Queue → List ℕ → Coordinator → State → Option (Coordinator × State)
  serve q [] c d = some (c, d)
  serve q (id ∷ rest) c d = do
    (c', d') ← issue_dram dram sz_block (fuel_of c id) id c d
    some ((if issued c' id then set_queue q c' rest else c'), d')

  -- The first part of `IssueEvent`.
  unfoldable pub issue_to_dram : Coordinator → State → Option (Coordinator × State)
  unfolding serve select_queue
  issue_to_dram c d = elim (select_queue c) [
    | none ↦ some (c, d)
    | some q ↦ serve q (queue_of q c) c d
  ]
