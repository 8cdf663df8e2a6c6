-- ===== src/Coordinator/Requests.antt =====
-- coordinator.cpp, `AddEvent`: a new event in the account of transactions.
use hy_gcn_a_gcn_accelerator.Base.{
  ℕ, zero, suc, ◌≡◌, subst, u64, ◌+◌, refl, List, [], ◌∷◌, ◌++◌, arith, Option, none, some, length,
  get_elem?,
}
use hy_gcn_a_gcn_accelerator.Event
use hy_gcn_a_gcn_accelerator.Event.{
  Event, EventDirType, EventType, EventDataType, write, read, read_aggr, edram, dram, none_dir,
  edge, weight, input_feature, aggr_feature, output_feature, none_data, all_trans_issued,
}
use hy_gcn_a_gcn_accelerator.Coordinator.{
  Coordinator, InFlight, add_event, add_dram, add_edram, enqueue,
}
use hy_gcn_a_gcn_accelerator.Coordinator.Account.{Inv, Tally}

abbrev pub InvOr : List ℕ → Option Coordinator → Type 0
InvOr queue none = Unit
InvOr queue (some c) = Inv c queue

Inv-add_edram :
    (c : Coordinator) (id : ℕ) (t : EventType) (bytes : ℕ) (queue : List ℕ)
    → Inv c queue
    → Inv (add_edram c id t bytes) queue
unfolding add_edram
Inv-add_edram c id write bytes queue v = v
Inv-add_edram c id read bytes queue v = v
Inv-add_edram c id read_aggr bytes queue v = v

-- To be put into a queue changes no account.
Inv-enqueue :
    (c : Coordinator) (id : ℕ) (e : Event) (dir : EventDirType) (t : EventDataType) (queue : List ℕ)
    → Inv c queue
    → InvOr queue (enqueue c id e dir t)
unfolding enqueue add_dram
Inv-enqueue c id e dram edge queue v = v
Inv-enqueue c id e dram weight queue v = v
Inv-enqueue c id e dram input_feature queue v = v
Inv-enqueue c id e dram output_feature queue v = v
Inv-enqueue c id e dram aggr_feature queue v = tt
Inv-enqueue c id e dram none_data queue v = tt
Inv-enqueue c id e edram aggr_feature queue v = Inv-add_edram c id e.event_type e.bytes queue v
Inv-enqueue c id e edram edge queue v = tt
Inv-enqueue c id e edram weight queue v = tt
Inv-enqueue c id e edram input_feature queue v = tt
Inv-enqueue c id e edram output_feature queue v = tt
Inv-enqueue c id e edram none_data queue v = tt
Inv-enqueue c id e none_dir t queue v = tt

Tally-snoc :
    (xs : List Event) (e : Event) (j f r : ℕ)
    → e.trans_cnt ≡ 0
    → e.confirm_cnt ≡ 0
    → Tally (get_elem? xs j) f r
    → Tally (get_elem? (xs ++ (e ∷ [])) j) f r
Tally-snoc [] e zero f r p q t = (omega (arith, t), omega arith, ground (arith, t))
Tally-snoc [] e (suc j) f r p q t = t
Tally-snoc (x ∷ xs) e zero f r p q t = t
Tally-snoc (x ∷ xs) e (suc j) f r p q t = Tally-snoc xs e j f r p q t

-- A new event starts an account of nothing.
pub Inv-add_event :
    (c : Coordinator) (sz_block address bytes : ℕ) (dir : EventDirType) (t : EventType)
    (data_type : EventDataType) (queue : List ℕ)
    → Inv c queue
    → InvOr queue (add_event c (Event.new sz_block address bytes dir t data_type))
unfolding add_event Event.new
Inv-add_event c sz_block address bytes dir t data_type queue v =
    let e = Event.new sz_block address bytes dir t data_type in
    Inv-enqueue (record c { store = c.store ++ (e ∷ []) }) (length c.store) e dir data_type queue
      (λ j. Tally-snoc c.store e j _ _ refl refl (v j))

-- A request of weights is stored and waits behind the others.
pub add_event-weight :
    (c : Coordinator) (sz_block address bytes : ℕ)
    → let e = Event.new sz_block address bytes dram read weight in
      (c' : Coordinator) × (add_event c e ≡ some c')
      × (c'.store ≡ c.store ++ (e ∷ []))
      × (c'.weights ≡ c.weights ++ (length c.store ∷ []))
unfolding add_event enqueue add_dram Event.new
add_event-weight c sz_block address bytes = (
  record c {
    store = c.store ++ (Event.new sz_block address bytes dram read weight ∷ []);
    weights = c.weights ++ (length c.store ∷ []);
    byte_weights_read = u64 (c.byte_weights_read + bytes);
  },
  refl,
  refl,
  refl,
)

-- A request leaves the table of the aggregation buffer.
abbrev SameTable : InFlight → Option Coordinator → Type 0
SameTable m none = Unit
SameTable m (some c) = c.edram_events ≡ m

add_edram-SameTable :
    (c : Coordinator) (id : ℕ) (t : EventType) (bytes : ℕ)
    → (add_edram c id t bytes).edram_events ≡ c.edram_events
unfolding add_edram
add_edram-SameTable c id write bytes = refl
add_edram-SameTable c id read bytes = refl
add_edram-SameTable c id read_aggr bytes = refl

enqueue-SameTable :
    (c : Coordinator) (id : ℕ) (e : Event) (dir : EventDirType) (t : EventDataType)
    → SameTable c.edram_events (enqueue c id e dir t)
unfolding enqueue add_dram
enqueue-SameTable c id e dram edge = refl
enqueue-SameTable c id e dram weight = refl
enqueue-SameTable c id e dram input_feature = refl
enqueue-SameTable c id e dram output_feature = refl
enqueue-SameTable c id e dram aggr_feature = tt
enqueue-SameTable c id e dram none_data = tt
enqueue-SameTable c id e edram aggr_feature = add_edram-SameTable c id e.event_type e.bytes
enqueue-SameTable c id e edram edge = tt
enqueue-SameTable c id e edram weight = tt
enqueue-SameTable c id e edram input_feature = tt
enqueue-SameTable c id e edram output_feature = tt
enqueue-SameTable c id e edram none_data = tt
enqueue-SameTable c id e none_dir t = tt

pub add_event-SameTable :
    (c : Coordinator) (e : Event) {c' : Coordinator}
    → add_event c e ≡ some c'
    → c'.edram_events ≡ c.edram_events
unfolding add_event
add_event-SameTable c e run =
    let c₁ = record c { store = c.store ++ (e ∷ []) } in
    subst (SameTable c.edram_events) run
      (enqueue-SameTable c₁ (length c.store) e e.dir_type e.data_type)
