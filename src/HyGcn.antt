-- ===== src/HyGcn.antt =====
-- hygcn/hygcn.h and hygcn.cpp: the accelerator. A cycle hands returned events to the two engines,
-- issues transactions, ticks the engines and then the memories, whose callbacks confirm
-- transactions. The console output of a cycle is left out.
pub mod Record
pub mod Callbacks
pub mod Account
pub mod Homes
pub mod Answers
pub mod Drain
pub mod Buffer
mod Tests
use hy_gcn_a_gcn_accelerator.Base.{
  ℕ, zero, suc, ◌+◌, Bool, true, false, Option, none, some, List, [], ◌∷◌, ◌++◌, ◌==◌, ◌&&◌,
  if◌then◌else◌, ◌>>=◌, get_elem?, set, u64, sum_by,
}
use hy_gcn_a_gcn_accelerator.Event.{
  Event, EventDirType, EventType, EventDataType, edram, dram, read, write, read_aggr, edge, weight,
  input_feature, aggr_feature, output_feature, none_data, confirm_trans, all_trans_confirmed,
}
use hy_gcn_a_gcn_accelerator.AggrBuf
use hy_gcn_a_gcn_accelerator.AggrBuf.{AggrBuf}
use hy_gcn_a_gcn_accelerator.Coordinator
use hy_gcn_a_gcn_accelerator.Coordinator.{Coordinator, InFlight, DramSystem}
use hy_gcn_a_gcn_accelerator.Coordinator.ToEdram.{issue_event}
use hy_gcn_a_gcn_accelerator.SystolicArray
use hy_gcn_a_gcn_accelerator.SystolicArray.{SystolicArray, Binding, Tiling}
use hy_gcn_a_gcn_accelerator.Aggr
use hy_gcn_a_gcn_accelerator.Aggr.{Aggr}
use hy_gcn_a_gcn_accelerator.Aggr.Cycle.{clock_tick as aggr_tick}
use hy_gcn_a_gcn_accelerator.Comb
use hy_gcn_a_gcn_accelerator.Comb.{Comb}
use hy_gcn_a_gcn_accelerator.Comb.Cycle.{clock_tick as comb_tick}
use hy_gcn_a_gcn_accelerator.Config.{space_aligned_vertex}
use hy_gcn_a_gcn_accelerator.Config.Layers.{HyConfig}
use hy_gcn_a_gcn_accelerator.HyRec.{HyRec, zeros}

-- `find(addr)` and `erase(iter)` of a multimap: an entry of the address, and the others. Where more
-- than one has the address, C++ leaves open which is found; here it is the oldest.
unfoldable pub take_entry : ℕ → InFlight → Option (ℕ × InFlight)
take_entry addr [] = none
take_entry addr ((a, id) ∷ m) = elim (a == addr) [
  | true ↦ some (id, m)
  | false ↦ elim (take_entry addr m) [
    | none ↦ none
    | some (found, rest) ↦ some (found, (a, id) ∷ rest)
  ]
]

-- A coordinator and a queue of returned events.
abbrev pub Served : Type 0
Served = Coordinator × List ℕ

abbrev pub is_dram : EventDirType → Bool
is_dram dram = true
is_dram _ = false

abbrev pub is_edram : EventDirType → Bool
is_edram edram = true
is_edram _ = false

-- The part that the two callbacks share: the transaction is confirmed, and after the last one of its
-- event the event is returned, if it is of this memory.
unfoldable pub confirm : (EventDirType → Bool) → ℕ → Served → Option Served
confirm of_memory id (c, queue) = do
  e ← get_elem? c.store id
  let e' = confirm_trans e
  let c' = record c { store = set c.store id e' }
  if all_trans_confirmed e'
      then (if of_memory e'.dir_type then some (c', queue ++ (id ∷ [])) else none)
      else some (c', queue)

-- `MemCallback`.
unfoldable pub mem_callback : ℕ → Served → Option Served
unfolding take_entry confirm
mem_callback addr (c, queue) = elim (take_entry addr c.events) [
  | none ↦ none
  | some (id, rest) ↦ confirm is_dram id (record c { events = rest }, queue)
]

-- `BufCallback`.
unfoldable pub buf_callback : ℕ → Served → Option Served
unfolding take_entry confirm
buf_callback addr (c, queue) = elim (take_entry addr c.edram_events) [
  | none ↦ none
  | some (id, rest) ↦ confirm is_edram id (record c { edram_events = rest }, queue)
]

-- The callbacks of one tick of the DRAM, in order.
unfoldable pub mem_callbacks : List ℕ → Served → Option Served
mem_callbacks [] s = some s
mem_callbacks (addr ∷ addrs) s = mem_callback addr s >>= mem_callbacks addrs

-- What a returned event of the DRAM makes of the engines.
unfoldable pub dispatch_dram : EventDataType → Aggr × Comb → Option (Aggr × Comb)
dispatch_dram edge (a, c) = Aggr.handle_return_event edge a >>= λ a'. some (a', c)
dispatch_dram input_feature (a, c) = Aggr.handle_return_event input_feature a >>= λ a'. some (a', c)
dispatch_dram weight (a, c) = Comb.process_returned_event weight c >>= λ c'. some (a, c')
dispatch_dram output_feature (a, c) =
    Comb.process_returned_event output_feature c >>= λ c'. some (a, c')
dispatch_dram aggr_feature s = none
dispatch_dram none_data s = none

unfoldable pub dispatch_aggr : EventType → Aggr × Comb → Option (Aggr × Comb)
dispatch_aggr write (a, c) = Aggr.handle_return_event aggr_feature a >>= λ a'. some (a', c)
dispatch_aggr read (a, c) = Comb.process_returned_event aggr_feature c >>= λ c'. some (a, c')
dispatch_aggr read_aggr (a, c) = Aggr.handle_return_event aggr_feature a >>= λ a'. some (a', c)

-- What a returned event of the aggregation buffer makes of the engines.
unfoldable pub dispatch_edram : EventDataType → EventType → Aggr × Comb → Option (Aggr × Comb)
unfolding dispatch_aggr
dispatch_edram aggr_feature t s = dispatch_aggr t s
dispatch_edram edge t s = none
dispatch_edram weight t s = none
dispatch_edram input_feature t s = none
dispatch_edram output_feature t s = none
dispatch_edram none_data t s = none

-- The two loops of `HandleReturnEvent`, over the queues.
unfoldable pub return_dram : List Event → List ℕ → Aggr × Comb → Option (Aggr × Comb)
return_dram store [] s = some s
return_dram store (id ∷ ids) s =
    get_elem? store id >>= λ e. dispatch_dram e.data_type s >>= return_dram store ids

unfoldable pub return_edram : List Event → List ℕ → Aggr × Comb → Option (Aggr × Comb)
return_edram store [] s = some s
return_edram store (id ∷ ids) s =
    get_elem? store id >>= λ e. dispatch_edram e.data_type e.event_type s >>= return_edram store ids

module _ (dram_system : DramSystem) where
  open dram_system use {State, tick}

  pub record HyGcn : Type 0 where
    pub dram_state : State
    pub coordinator : Coordinator
    pub aggr_buf : AggrBuf
    pub systolic_array : SystolicArray
    pub aggr : Aggr
    pub comb : Comb
    pub dram_return_queue : List ℕ
    pub edram_return_queue : List ℕ
    pub clk : ℕ

  -- The constructor. The state of the fresh DRAM, and what other constructors leave uninitialised,
  -- are arguments.
  unfoldable pub new : HyConfig → State → Binding → Tiling → ℕ → HyGcn
  new hy d binding tiling junk = record {
    dram_state = d;
    coordinator = Coordinator.empty;
    aggr_buf =
        AggrBuf.new hy.sys_config.cap_aggrbuf
          (space_aligned_vertex hy.layer_config hy.sys_config.block_size) hy.sys_config.block_size;
    systolic_array =
        SystolicArray.new hy.sys_config.systolic_h hy.sys_config.systolic_w hy.sys_config.cap_outbuf
          4 binding tiling;
    aggr = Aggr.new hy;
    comb = Comb.new hy junk;
    dram_return_queue = [];
    edram_return_queue = [];
    clk = 0;
  }

  unfoldable pub handle_return_event : HyGcn → Option HyGcn
  handle_return_event h = do
    s ← return_dram h.coordinator.store h.dram_return_queue (h.aggr, h.comb)
    (a, c) ← return_edram h.coordinator.store h.edram_return_queue s
    some (record h { aggr = a; comb = c; dram_return_queue = []; edram_return_queue = [] })

  -- The engines tick one after the other over what they share.
  unfoldable pub tick_engines : HyConfig → HyGcn → Option HyGcn
  tick_engines hy h = do
    w ← aggr_tick hy (record { aggr = h.aggr; aggr_buf = h.aggr_buf; coordinator = h.coordinator })
    v ← comb_tick hy (record {
      comb = h.comb;
      array = h.systolic_array;
      aggr_buf = w.aggr_buf;
      coordinator = w.coordinator;
    })
    some (record h {
      aggr = w.aggr;
      comb = v.comb;
      systolic_array = v.array;
      aggr_buf = v.aggr_buf;
      coordinator = v.coordinator;
    })

  -- The memories tick, and their callbacks run.
  unfoldable pub tick_memories : HyGcn → Option HyGcn
  tick_memories h = do
    let (d, addrs) = tick h.dram_state
    (c₁, dram_queue) ← mem_callbacks addrs (h.coordinator, h.dram_return_queue)
    (b, (c₂, edram_queue)) ← AggrBuf.clock_tick buf_callback h.aggr_buf (c₁, h.edram_return_queue)
    some (record h {
      dram_state = d;
      coordinator = c₂;
      aggr_buf = b;
      dram_return_queue = dram_queue;
      edram_return_queue = edram_queue;
    })

  unfoldable pub clock_tick : HyConfig → HyGcn → Option HyGcn
  unfolding handle_return_event tick_engines tick_memories
  clock_tick hy h = do
    h₁ ← handle_return_event h
    (c, d, b) ←
        issue_event dram_system hy.sys_config.block_size h₁.coordinator h₁.dram_state h₁.aggr_buf
    h₂ ← tick_engines hy (record h₁ { coordinator = c; dram_state = d; aggr_buf = b })
    h₃ ← tick_memories h₂
    some (record h₃ { clk = u64 (h₃.clk + 1) })

  unfoldable pub is_done : HyGcn → Bool
  is_done h = h.aggr.is_done && h.comb.is_done

  -- `while (!hygcn.IsDone()) hygcn.ClockTick();` of hygcn_test/test.cpp, for at most `fuel` cycles.
  unfoldable pub run : ℕ → HyConfig → HyGcn → Option HyGcn
  run zero hy h = none
  run (suc fuel) hy h = elim (is_done h) [
    | true ↦ some h
    | false ↦ elim (clock_tick hy h) [ none ↦ none | some h' ↦ run fuel hy h' ]
  ]
