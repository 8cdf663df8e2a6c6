-- ===== src/HyGcn/Tests.antt =====
-- A request of two blocks over a DRAM that takes everything, issued and confirmed once.
use hy_gcn_a_gcn_accelerator.Base.{ℕ, ◌+◌, ◌≡◌, some, arith, refl, inl, true, [], ◌∷◌, length}
use hy_gcn_a_gcn_accelerator.Event
use hy_gcn_a_gcn_accelerator.Event.{Event, dram, edram, read, write, edge, aggr_feature}
use hy_gcn_a_gcn_accelerator.AggrBuf
use hy_gcn_a_gcn_accelerator.AggrBuf.{AggrBuf}
use hy_gcn_a_gcn_accelerator.Coordinator.{Coordinator, DramSystem, empty, add_event}
use hy_gcn_a_gcn_accelerator.Coordinator.ToDram.{issue_to_dram, issue_dram}
use hy_gcn_a_gcn_accelerator.Coordinator.ToEdram.{
  issue_event, issue_to_edram, issue_tmps, issue_edram, edram_addr,
}
use hy_gcn_a_gcn_accelerator.Coordinator.Account.{Inv}
use hy_gcn_a_gcn_accelerator.Coordinator.EdramLoop.{Bounded}
use hy_gcn_a_gcn_accelerator.Coordinator.Issue.{Waiting}
use hy_gcn_a_gcn_accelerator.HyGcn.{Served, mem_callback, buf_callback}
use hy_gcn_a_gcn_accelerator.HyGcn.Buffer.{Joint, Joint-clock_tick}
use hy_gcn_a_gcn_accelerator.HyGcn.Answers.{
  Reach-mem_callback, Reach-buf_callback, Reach-issue_event,
}
use hy_gcn_a_gcn_accelerator.HyGcn.Account.{
  Reach, begin, next, takes, issues, mem_returns, Reach-Inv,
}

abbrev ram : DramSystem
ram = record {
  State = ℕ;
  will_accept = λ s addr w. true;
  add = λ s addr w. s;
  tick = λ s. (s, []);
  stats = λ s. [];
}

abbrev buf : AggrBuf
unfolding AggrBuf.new
buf = AggrBuf.new 128 32 32

abbrev request : Event
unfolding Event.new
request = Event.new 32 0 64 dram read edge

abbrev asked : Coordinator
asked = record empty { store = request ∷ []; edges = 0 ∷ []; byte_edge_read = 64 }

abbrev on_way : Coordinator
on_way = record asked {
  store = record request { trans_cnt = 2 } ∷ [];
  edges = [];
  events = (0, 0) ∷ (32, 0) ∷ [];
}

abbrev half : Coordinator
half = record on_way {
  store = record request { trans_cnt = 2; confirm_cnt = 1 } ∷ [];
  events = (32, 0) ∷ [];
}

asks : Reach ram 32 (asked, [])
unfolding Event.new add_event
asks = next (empty, []) (asked, []) begin (takes empty asked [] 0 64 dram read edge refl)

reached : Reach ram 32 (half, [])
unfolding AggrBuf.new Event.new add_event issue_event mem_callback issue_to_dram issue_dram
    issue_to_edram issue_tmps
reached =
    next (on_way, []) (half, [])
      (next (asked, []) (on_way, []) asks (issues asked on_way [] 0 0 buf buf refl))
      (mem_returns 0 (on_way, []) (half, []) refl)

Reach-Inv_example : Inv half []
Reach-Inv_example = Reach-Inv ram 32 reached

waiting : Waiting asked
waiting = record {
  of_edges = (omega arith, tt);
  of_inputs = tt;
  of_weights = tt;
  of_outputs = tt;
  of_tmps = tt;
}

bounded : Bounded 128 buf
unfolding AggrBuf.new
bounded = record { capacity = refl; inside = tt; few = omega arith }

Reach-mem_callback_example :
    (s' : Served) × (mem_callback 32 (half, []) ≡ some s')
    × (length s'.0.events + 1 ≡ 1)
    × (s'.0.edram_events ≡ [])
Reach-mem_callback_example = Reach-mem_callback ram 32 32 reached (inl refl)

Reach-issue_event_example :
    (c' : Coordinator) × (d' : ℕ) × (b' : AggrBuf) × (issue_event ram 32 half 0 buf
      ≡ some (c', d', b'))
    × Bounded 128 b'
    × Reach ram 32 (c', [])
unfolding buf
Reach-issue_event_example = Reach-issue_event ram 32 0 buf reached (omega arith) bounded

-- A request to the aggregation buffer.
abbrev store_request : Event
unfolding Event.new
store_request = Event.new 32 0 32 edram write aggr_feature

abbrev storing : Coordinator
storing = record empty { store = store_request ∷ []; tmps = 0 ∷ []; byte_aggr_write = 32 }

abbrev stored : Coordinator
stored = record storing {
  store = record store_request { trans_cnt = 1 } ∷ [];
  tmps = [];
  edram_events = (0, 0) ∷ [];
}

stored-Reach : Reach ram 32 (stored, [])
unfolding AggrBuf.new Event.new add_event issue_event issue_to_dram issue_dram issue_to_edram
    issue_tmps issue_edram edram_addr AggrBuf.will_accept_transaction AggrBuf.add_transaction
stored-Reach =
    next (storing, []) (stored, [])
      (next (empty, []) (storing, []) begin
        (takes empty storing [] 0 32 edram write aggr_feature refl))
      (issues storing stored [] 0 0 buf (record buf { trans = 0 ∷ [] }) refl)

Reach-buf_callback_example :
    (s' : Served) × (buf_callback 0 (stored, []) ≡ some s')
    × (length s'.0.edram_events + 1 ≡ 1)
    × (s'.0.events ≡ [])
Reach-buf_callback_example = Reach-buf_callback ram 32 0 stored-Reach (inl refl)

abbrev filled : AggrBuf
filled = record buf { trans = 0 ∷ [] }

stored-Joint : Joint ram 32 (stored, []) filled
unfolding AggrBuf.new Event.new add_event issue_event issue_to_dram issue_dram issue_to_edram
    issue_tmps issue_edram edram_addr AggrBuf.will_accept_transaction AggrBuf.add_transaction
stored-Joint =
    Joint.issues storing stored [] 0 0 buf filled
      (Joint.takes empty storing [] buf 0 32 edram write aggr_feature (Joint.begin buf refl) refl)
      refl

Joint-clock_tick_example :
    (s' : Served) × (b' : AggrBuf) × (AggrBuf.clock_tick buf_callback filled (stored, [])
      ≡ some (b', s'))
    × (b'.trans ≡ [])
    × (s'.0.edram_events ≡ [])
    × (s'.0.events ≡ [])
Joint-clock_tick_example = Joint-clock_tick ram 32 stored-Joint
