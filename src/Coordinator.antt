-- ===== src/Coordinator.antt =====
-- hygcn/hardware/coordinator.h and coordinator.cpp: the queue of requests of the two engines, and
-- the issue of their transactions to the DRAM and to the aggregation buffer.
-- An `EventPtr` is shared by a queue and by the tables of transactions in flight, so events live in
-- a store and a pointer is an index into it. The DRAM is a library's and is a parameter. A
-- multimap is a list of its pairs; `insert` adds at the end.
pub mod ToDram
pub mod ToEdram
pub mod Account
pub mod Steps
pub mod Requests
pub mod EdramLoop
pub mod Issue
pub mod Homes
use hy_gcn_a_gcn_accelerator.Base.{
  ℕ, zero, suc, ◌+◌, ◌*◌, ◌%◌, Bool, true, false, Option, none, some, List, [], ◌∷◌, ◌++◌, leb, ltb,
  ◌&&◌, ◌||◌, not, if◌then◌else◌, ◌>>=◌, ◌>>◌, check, u64, length, get_elem?, set,
}
use hy_gcn_a_gcn_accelerator.Event.{
  Event, EventType, EventDataType, EventDirType, write, read, read_aggr, edge, weight,
  input_feature, aggr_feature, output_feature, none_data, edram, dram, none_dir, all_trans_issued,
  issue_trans,
}
use hy_gcn_a_gcn_accelerator.AggrBuf.{AggrBuf, will_accept_transaction, add_transaction}

-- The counters of a controller of the memory that a record of a run asks for.
pub record Commands : Type 0 where
  pub num_act_cmds : ℕ
  pub num_pre_cmds : ℕ
  pub num_read_cmds : ℕ
  pub num_write_cmds : ℕ
  pub num_ref_cmds : ℕ
  pub num_read_row_hits : ℕ
  pub num_write_row_hits : ℕ

-- What the simulator calls of `dramsim3::JedecDRAMSystem`. A tick gives the addresses that the two
-- callbacks are called with, in order; `stats` is what each of its controllers has counted.
pub record DramSystem : Type 1 where
  pub State : Type 0
  pub will_accept : State → ℕ → Bool → Bool
  pub add : State → ℕ → Bool → State
  pub tick : State → State × List ℕ
  pub stats : State → List Commands

-- `std::unordered_multimap<uint64_t, EventPtr>`.
abbrev pub InFlight : Type 0
InFlight = List (ℕ × ℕ)

pub record Coordinator : Type 0 where
  pub store : List Event
  pub events : InFlight
  pub edram_events : InFlight
  pub edges : List ℕ
  pub inputs : List ℕ
  pub weights : List ℕ
  pub outputs : List ℕ
  pub tmps : List ℕ
  pub byte_edge_read : ℕ
  pub byte_input_read : ℕ
  pub byte_weights_read : ℕ
  pub byte_output_write : ℕ
  pub byte_aggr_read : ℕ
  pub byte_aggr_write : ℕ

abbrev pub empty : Coordinator
empty = record {
  store = [];
  events = [];
  edram_events = [];
  edges = [];
  inputs = [];
  weights = [];
  outputs = [];
  tmps = [];
  byte_edge_read = 0;
  byte_input_read = 0;
  byte_weights_read = 0;
  byte_output_write = 0;
  byte_aggr_read = 0;
  byte_aggr_write = 0;
}

-- The branch of `AddEvent` for the DRAM; `id` is the pointer to the event.
add_dram : Coordinator → ℕ → EventDataType → ℕ → Option Coordinator
add_dram c id edge bytes =
    some
      (record c { edges = c.edges ++ (id ∷ []); byte_edge_read = u64 (c.byte_edge_read + bytes) })
add_dram c id weight bytes = some (record c {
  weights = c.weights ++ (id ∷ []);
  byte_weights_read = u64 (c.byte_weights_read + bytes);
})
add_dram c id input_feature bytes =
    some (record c {
      inputs = c.inputs ++ (id ∷ []);
      byte_input_read = u64 (c.byte_input_read + bytes);
    })
add_dram c id output_feature bytes = some (record c {
  outputs = c.outputs ++ (id ∷ []);
  byte_output_write = u64 (c.byte_output_write + bytes);
})
add_dram c id aggr_feature bytes = none
add_dram c id none_data bytes = none

-- The branch for the aggregation buffer.
add_edram : Coordinator → ℕ → EventType → ℕ → Coordinator
add_edram c id write bytes = record c {
  tmps = c.tmps ++ (id ∷ []);
  byte_aggr_write = u64 (c.byte_aggr_write + bytes);
}
add_edram c id read bytes = record c {
  tmps = c.tmps ++ (id ∷ []);
  byte_aggr_read = u64 (c.byte_aggr_read + bytes);
}
add_edram c id read_aggr bytes = record c {
  tmps = c.tmps ++ (id ∷ []);
  byte_aggr_read = u64 (c.byte_aggr_read + bytes);
}

enqueue : Coordinator → ℕ → Event → EventDirType → EventDataType → Option Coordinator
unfolding add_dram add_edram
enqueue c id e dram t = add_dram c id t e.bytes
enqueue c id e edram aggr_feature = some (add_edram c id e.event_type e.bytes)
enqueue c id e edram _ = none
enqueue c id e none_dir _ = none

-- `std::make_shared<Event>` of the caller, and `AddEvent` of the pointer.
unfoldable pub add_event : Coordinator → Event → Option Coordinator
unfolding enqueue
add_event c e =
    enqueue (record c { store = c.store ++ (e ∷ []) }) (length c.store) e e.dir_type e.data_type

abbrev pub is_write : Event → Bool
is_write e = elim e.event_type [ write ↦ true | _ ↦ false ]

-- The address of the next transaction of an event.
abbrev pub next_addr : ℕ → Event → ℕ
next_addr sz_block e = u64 (e.address + sz_block * e.trans_cnt)

abbrev pub start_trans : ℕ → ℕ → Coordinator → Event → Coordinator
start_trans id addr c e = record c {
  store = set c.store id (issue_trans e);
  events = c.events ++ ((addr, id) ∷ []);
}

abbrev pub start_edram_trans : ℕ → ℕ → Coordinator → Event → Coordinator
start_edram_trans id addr c e = record c {
  store = set c.store id (issue_trans e);
  edram_events = c.edram_events ++ ((addr, id) ∷ []);
}
