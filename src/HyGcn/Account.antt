-- ===== src/HyGcn/Account.antt =====
-- hygcn.cpp and coordinator.cpp: an event from its request to its return, over all orders of requests,
-- issues and callbacks.
use hy_gcn_a_gcn_accelerator.Base.{ℕ, ◌≡◌, List, [], some, refl, subst}
use hy_gcn_a_gcn_accelerator.Event
use hy_gcn_a_gcn_accelerator.Event.{EventDirType, EventType, EventDataType}
use hy_gcn_a_gcn_accelerator.AggrBuf.{AggrBuf}
use hy_gcn_a_gcn_accelerator.Coordinator.{Coordinator, DramSystem, empty, add_event}
use hy_gcn_a_gcn_accelerator.Coordinator.ToEdram.{issue_event}
use hy_gcn_a_gcn_accelerator.Coordinator.Account.{Inv}
use hy_gcn_a_gcn_accelerator.Coordinator.Requests.{InvOr, Inv-add_event}
use hy_gcn_a_gcn_accelerator.Coordinator.Steps.{OfCycle, Inv-issue_event}
use hy_gcn_a_gcn_accelerator.HyGcn.{Served, mem_callback, buf_callback}
use hy_gcn_a_gcn_accelerator.HyGcn.Callbacks.{InvAfter, Inv-mem_callback, Inv-buf_callback}

-- What is done to a coordinator, with the list of all events returned so far.
pub data Step (dram_system : DramSystem) (sz_block : ℕ) : Served → Served → Type 0 where
  takes :
      (c c' : Coordinator) (queue : List ℕ) (address bytes : ℕ) (dir : EventDirType) (t : EventType)
      (data_type : EventDataType)
      → add_event c (Event.new sz_block address bytes dir t data_type) ≡ some c'
      → Step dram_system sz_block (c, queue) (c', queue)
  issues :
      (c c' : Coordinator) (queue : List ℕ) (d d' : dram_system.State) (b b' : AggrBuf)
      → issue_event dram_system sz_block c d b ≡ some (c', d', b')
      → Step dram_system sz_block (c, queue) (c', queue)
  mem_returns :
      (addr : ℕ) (s s' : Served) → mem_callback addr s ≡ some s' → Step dram_system sz_block s s'
  buf_returns :
      (addr : ℕ) (s s' : Served) → buf_callback addr s ≡ some s' → Step dram_system sz_block s s'

pub data Reach (dram_system : DramSystem) (sz_block : ℕ) : Served → Type 0 where
  begin : Reach dram_system sz_block (empty, [])
  next :
      (s s' : Served)
      → Reach dram_system sz_block s
      → Step dram_system sz_block s s'
      → Reach dram_system sz_block s'

Step-Inv :
    (dram_system : DramSystem) (sz_block : ℕ) {s s' : Served}
    → Step dram_system sz_block s s'
    → Inv s.0 s.1
    → Inv s'.0 s'.1
Step-Inv dram_system sz_block (takes c c' queue address bytes dir t data_type e) v =
    subst (InvOr queue) e (Inv-add_event c sz_block address bytes dir t data_type queue v)
Step-Inv dram_system sz_block (issues c c' queue d d' b b' e) v =
    subst (OfCycle (λ c b. Inv c queue)) e (Inv-issue_event dram_system sz_block queue c d b v)
Step-Inv dram_system sz_block (mem_returns addr s s' e) v =
    subst InvAfter e (Inv-mem_callback addr s.0 s.1 v)
Step-Inv dram_system sz_block (buf_returns addr s s' e) v =
    subst InvAfter e (Inv-buf_callback addr s.0 s.1 v)

-- In every state that new requests, issues to the two memories and callbacks lead to, in any order
-- and for any DRAM: the transactions that an event has issued are those confirmed and those in
-- flight, and not more than it has; and it has been returned once if it has transactions and all of
-- them are confirmed, and never else. What is no event is neither in flight nor returned.
pub Reach-Inv :
    (dram_system : DramSystem) (sz_block : ℕ) {s : Served}
    → Reach dram_system sz_block s
    → Inv s.0 s.1
Reach-Inv dram_system sz_block begin = λ id. (refl, refl)
Reach-Inv dram_system sz_block (next s s' r step) =
    Step-Inv dram_system sz_block step (Reach-Inv dram_system sz_block r)
