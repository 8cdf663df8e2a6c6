-- ===== src/HyGcn/Buffer.antt =====
-- hygcn.cpp, coordinator.cpp and aggr_buf.h: the aggregation buffer and the coordinator together, over
-- all orders of what is done to both.
use hy_gcn_a_gcn_accelerator.Base.{
  ℕ, ◌≡◌, refl, ap, sym, subst, ◌∙◌, inl, inr, Bool, Option, none, some, List, [], get_elem?,
  Bool-cases, Option-cases, map, some-eq,
}
use hy_gcn_a_gcn_accelerator.Event
use hy_gcn_a_gcn_accelerator.Event.{
  EventDirType, EventType, EventDataType, confirm_trans, all_trans_confirmed,
}
use hy_gcn_a_gcn_accelerator.AggrBuf
use hy_gcn_a_gcn_accelerator.AggrBuf.{AggrBuf}
use hy_gcn_a_gcn_accelerator.Coordinator.{Coordinator, DramSystem, InFlight, empty, add_event}
use hy_gcn_a_gcn_accelerator.Coordinator.ToEdram.{issue_event}
use hy_gcn_a_gcn_accelerator.Coordinator.Requests.{add_event-SameTable}
use hy_gcn_a_gcn_accelerator.Coordinator.Steps.{OfCycle, keep_issue_event}
use hy_gcn_a_gcn_accelerator.Coordinator.Homes.{Homed, HomedOr, Homed-add_event}
use hy_gcn_a_gcn_accelerator.Coordinator.Homes.Issued.{Homed-Keeps}
use hy_gcn_a_gcn_accelerator.HyGcn.{
  Served, take_entry, is_dram, confirm, mem_callback, buf_callback,
}
use hy_gcn_a_gcn_accelerator.HyGcn.Homes.{HomedAfter, mem_callback-HomedAfter}
use hy_gcn_a_gcn_accelerator.HyGcn.Drain.{Aligned, Aligned-Keeps, drain-all}

-- A callback of the DRAM leaves the table of the buffer.
abbrev TableAfter : InFlight → Option Served → Type 0
TableAfter m none = Unit
TableAfter m (some (c, queue)) = c.edram_events ≡ m

confirm-TableAfter :
    (of_memory : EventDirType → Bool) (id : ℕ) (c : Coordinator) (queue : List ℕ)
    → TableAfter c.edram_events (confirm of_memory id (c, queue))
unfolding confirm
confirm-TableAfter of_memory id c queue = elim (Option-cases (get_elem? c.store id)) [
  | inl e ↦ rw (e, confirm) tt
  | inr (e, at) ↦ elim (Bool-cases (all_trans_confirmed (confirm_trans e))) [
    | inl k ↦ elim (Bool-cases (of_memory e.dir_type)) [
      | inl l ↦ rw (at, k, l, confirm) refl
      | inr l ↦ rw (at, k, l, confirm) tt
    ]
    | inr k ↦ rw (at, k, confirm) refl
  ]
]

mem_callback-TableAfter :
    (addr : ℕ) (c : Coordinator) (queue : List ℕ)
    → TableAfter c.edram_events (mem_callback addr (c, queue))
unfolding mem_callback
mem_callback-TableAfter addr c queue = elim (Option-cases (take_entry addr c.events)) [
  | inl e ↦ rw (e, mem_callback) tt
  | inr ((id, rest), e) ↦
      rw (e, mem_callback) (confirm-TableAfter is_dram id (record c { events = rest }) queue)
]

-- What is done to a coordinator, to the events returned so far, and to the buffer. The engines move
-- the pointers of the buffer and leave its transactions.
pub data Joint (dram_system : DramSystem) (sz_block : ℕ) : Served → AggrBuf → Type 0 where
  begin : (b : AggrBuf) → b.trans ≡ [] → Joint dram_system sz_block (empty, []) b
  takes :
      (c c' : Coordinator) (queue : List ℕ) (b : AggrBuf) (address bytes : ℕ) (dir : EventDirType)
      (t : EventType) (data_type : EventDataType)
      → Joint dram_system sz_block (c, queue) b
      → add_event c (Event.new sz_block address bytes dir t data_type) ≡ some c'
      → Joint dram_system sz_block (c', queue) b
  moves :
      (s : Served) (b b' : AggrBuf)
      → Joint dram_system sz_block s b
      → b'.trans ≡ b.trans
      → Joint dram_system sz_block s b'
  issues :
      (c c' : Coordinator) (queue : List ℕ) (d d' : dram_system.State) (b b' : AggrBuf)
      → Joint dram_system sz_block (c, queue) b
      → issue_event dram_system sz_block c d b ≡ some (c', d', b')
      → Joint dram_system sz_block (c', queue) b'
  mem_returns :
      (addr : ℕ) (s s' : Served) (b : AggrBuf)
      → Joint dram_system sz_block s b
      → mem_callback addr s ≡ some s'
      → Joint dram_system sz_block s' b
  buf_ticks :
      (s s' : Served) (b b' : AggrBuf)
      → Joint dram_system sz_block s b
      → AggrBuf.clock_tick buf_callback b s ≡ some (b', s')
      → Joint dram_system sz_block s' b'

module _ (dram_system : DramSystem) (sz_block : ℕ) where
  abbrev Fits : Served → AggrBuf → Type 0
  Fits s b = Homed s.0 × Aligned s.0 b

  -- A tick of the buffer.
  tick_lem :
      (s : Served) (b : AggrBuf)
      → Fits s b
      → (s' : Served) × (AggrBuf.clock_tick buf_callback b s ≡ some (record b { trans = [] }, s'))
        × (s'.0.edram_events ≡ [])
        × (s'.0.events ≡ s.0.events)
        × Homed s'.0
  unfolding AggrBuf.clock_tick
  tick_lem (c, queue) b (h, a) =
      let (s', run, none_left, same, h') = drain-all b.trans c queue h a in
      (s', rw run refl, none_left, same, h')

  Joint-Fits : {s : Served} {b : AggrBuf} → Joint dram_system sz_block s b → Fits s b
  Joint-Fits (begin b e) = ((tt, tt, tt, tt, tt, tt, tt), sym e)
  Joint-Fits (takes c c' queue b address bytes dir t data_type j e) =
      let (h, a) = Joint-Fits j in
      let event = Event.new sz_block address bytes dir t data_type in
      (
        subst HomedOr e (Homed-add_event c event h),
        ap (λ m. map (λ (entry : ℕ × ℕ). entry.0) m) (add_event-SameTable c event e) ∙ a,
      )
  Joint-Fits (moves s b b' j e) = let (h, a) = Joint-Fits j in (h, a ∙ sym e)
  Joint-Fits (issues c c' queue d d' b b' j e) =
      let (h, a) = Joint-Fits j in
      (
        subst (OfCycle (λ c₁ b₁. Homed c₁)) e
            (keep_issue_event Homed-Keeps dram_system sz_block c d b h),
        subst (OfCycle Aligned) e (keep_issue_event Aligned-Keeps dram_system sz_block c d b a),
      )
  Joint-Fits (mem_returns addr s s' b j e) =
      let (h, a) = Joint-Fits j in
      (
        subst HomedAfter e (mem_callback-HomedAfter addr s.0 s.1 h),
        ap (λ m. map (λ (entry : ℕ × ℕ). entry.0) m)
              (subst (TableAfter s.0.edram_events) e (mem_callback-TableAfter addr s.0 s.1))
            ∙ a,
      )
  Joint-Fits (buf_ticks s s' b b' j e) =
      let (s'', run, none_left, _, h') = tick_lem s b (Joint-Fits j) in
      let same = some-eq (sym run ∙ e) in
      subst (λ (p : AggrBuf × Served). Fits p.1 p.0) same
        (h', ap (λ m. map (λ (entry : ℕ × ℕ). entry.0) m) none_left)

  -- In every state of the coordinator and the aggregation buffer that requests, issues, callbacks of
  -- the DRAM, ticks of the buffer and moves of its pointers lead to, in any order: a tick of the buffer
  -- does not fail, and after it the buffer holds no transaction, none is in flight to it, and those in
  -- flight to the DRAM are as before.
  pub Joint-clock_tick :
      {s : Served} {b : AggrBuf}
      → Joint dram_system sz_block s b
      → (s' : Served) × (b' : AggrBuf) × (AggrBuf.clock_tick buf_callback b s ≡ some (b', s'))
        × (b'.trans ≡ [])
        × (s'.0.edram_events ≡ [])
        × (s'.0.events ≡ s.0.events)
  Joint-clock_tick {s} {b} j =
      let (s', run, none_left, same, _) = tick_lem s b (Joint-Fits j) in
      (s', record b { trans = [] }, run, refl, none_left, same)
