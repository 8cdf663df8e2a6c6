-- ===== src/Event.antt =====
-- hygcn/dataflow/event.h and event.cpp: a request of one engine to a memory, issued as a number of
-- block transactions. `Event::sz_block` is static and is the argument `sz_block` here.
use hy_gcn_a_gcn_accelerator.Base.{ℕ, ◌+◌, Bool, ◌==◌, ceil_div}

pub data EventDirType : Type 0 where
  edram dram none_dir : EventDirType

pub data EventType : Type 0 where
  write read read_aggr : EventType

pub data EventDataType : Type 0 where
  edge weight input_feature aggr_feature output_feature none_data : EventDataType

pub record Event : Type 0 where
  pub address : ℕ
  pub bytes : ℕ
  pub dir_type : EventDirType
  pub event_type : EventType
  pub data_type : EventDataType
  pub trans_cnt : ℕ
  pub confirm_cnt : ℕ
  pub num_trans : ℕ

unfoldable pub new : ℕ → ℕ → ℕ → EventDirType → EventType → EventDataType → Event
new sz_block addr bytes dir_type event_type data_type = record {
  address = addr;
  bytes = bytes;
  dir_type = dir_type;
  event_type = event_type;
  data_type = data_type;
  trans_cnt = 0;
  confirm_cnt = 0;
  num_trans = ceil_div bytes sz_block;
}

abbrev pub all_trans_confirmed : Event → Bool
all_trans_confirmed e = e.confirm_cnt == e.num_trans

abbrev pub all_trans_issued : Event → Bool
all_trans_issued e = e.trans_cnt == e.num_trans

abbrev pub confirm_trans : Event → Event
confirm_trans e = record e { confirm_cnt = e.confirm_cnt + 1 }

abbrev pub issue_trans : Event → Event
issue_trans e = record e { trans_cnt = e.trans_cnt + 1 }
