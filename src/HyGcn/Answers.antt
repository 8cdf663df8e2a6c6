-- ===== src/HyGcn/Answers.antt =====
-- hygcn.cpp and coordinator.cpp: no callback of a memory fails, and no cycle of the coordinator.
use hy_gcn_a_gcn_accelerator.Base.{
  ℕ, ◌+◌, ◌<◌, ◌≡◌, refl, ap, subst, ◌∙◌, inl, inr, some, length, Option-cases,
}
use hy_gcn_a_gcn_accelerator.Event
use hy_gcn_a_gcn_accelerator.Event.{
  EventDirType, Event, dram, edram, confirm_trans, all_trans_confirmed,
}
use hy_gcn_a_gcn_accelerator.AggrBuf.{AggrBuf}
use hy_gcn_a_gcn_accelerator.Coordinator.{Coordinator, DramSystem}
use hy_gcn_a_gcn_accelerator.Coordinator.ToEdram.{issue_event}
use hy_gcn_a_gcn_accelerator.Coordinator.EdramLoop.{Bounded}
use hy_gcn_a_gcn_accelerator.Coordinator.Issue.{issue_event-Bounded}
use hy_gcn_a_gcn_accelerator.Coordinator.Steps.{OfCycle, keep_issue_event}
use hy_gcn_a_gcn_accelerator.Coordinator.Homes.{IsFor, Homed, HomedOr, Homed-add_event}
use hy_gcn_a_gcn_accelerator.Coordinator.Homes.Issued.{Homed-Keeps, Homed-Waiting}
use hy_gcn_a_gcn_accelerator.HyGcn.{
  Served, take_entry, is_dram, is_edram, mem_callback, buf_callback,
}
use hy_gcn_a_gcn_accelerator.HyGcn.Account.{
  Step, takes, issues, mem_returns, buf_returns, Reach, begin, next, Reach-Inv,
}
use hy_gcn_a_gcn_accelerator.HyGcn.Homes.{
  Flies, TakenOf, take_entry-TakenOf, HomedAfter, confirm-some, mem_callback-HomedAfter,
  buf_callback-HomedAfter,
}

module _ (dram_system : DramSystem) (sz_block : ℕ) where
  Step-Homed : {s s' : Served} → Step dram_system sz_block s s' → Homed s.0 → Homed s'.0
  Step-Homed (takes c c' queue address bytes dir t data_type e) h =
      subst HomedOr e (Homed-add_event c (Event.new sz_block address bytes dir t data_type) h)
  Step-Homed (issues c c' queue d d' b b' e) h =
      subst (OfCycle (λ c₁ b₁. Homed c₁)) e
        (keep_issue_event Homed-Keeps dram_system sz_block c d b h)
  Step-Homed (mem_returns addr s s' e) h =
      subst HomedAfter e (mem_callback-HomedAfter addr s.0 s.1 h)
  Step-Homed (buf_returns addr s s' e) h =
      subst HomedAfter e (buf_callback-HomedAfter addr s.0 s.1 h)

  Reach-Homed : {s : Served} → Reach dram_system sz_block s → Homed s.0
  Reach-Homed begin = (tt, tt, tt, tt, tt, tt, tt)
  Reach-Homed (next s s' r step) = Step-Homed step (Reach-Homed r)

  -- In every state that requests, issues and callbacks lead to: where a transaction at an address of
  -- the DRAM is in flight, the callback of the DRAM for this address does not fail, and one
  -- transaction less is in flight to the DRAM, and those in flight to the aggregation buffer are as
  -- before.
  pub Reach-mem_callback :
      {s : Served} (addr : ℕ)
      → Reach dram_system sz_block s
      → Flies addr s.0.events
      → (s' : Served) × (mem_callback addr s ≡ some s')
        × (length s'.0.events + 1 ≡ length s.0.events)
        × (s'.0.edram_events ≡ s.0.edram_events)
  unfolding mem_callback
  Reach-mem_callback {s} addr r flies =
      let (c, queue) = s in
      let w = take_entry-TakenOf (IsFor dram c.store) addr c.events (Reach-Homed r).5 in
      elim (Option-cases (take_entry addr c.events)) [
        | inl e ↦ absurd (subst (TakenOf (IsFor dram c.store) addr c.events) e w flies)
        | inr ((id, rest), e) ↦
            let (p, _, long) = subst (TakenOf (IsFor dram c.store) addr c.events) e w in
            let (s', run, left, same) =
              confirm-some is_dram dram id (record c { events = rest }) queue refl p in
            (s', rw (e, mem_callback) run, ap (λ m. length m + 1) left ∙ long, same)
      ]

  -- In every state that requests, issues and callbacks lead to: where a transaction at an address of
  -- the aggregation buffer is in flight, the callback of the buffer for this address does not fail, and
  -- one transaction less is in flight to the buffer, and those in flight to the DRAM are as before.
  pub Reach-buf_callback :
      {s : Served} (addr : ℕ)
      → Reach dram_system sz_block s
      → Flies addr s.0.edram_events
      → (s' : Served) × (buf_callback addr s ≡ some s')
        × (length s'.0.edram_events + 1 ≡ length s.0.edram_events)
        × (s'.0.events ≡ s.0.events)
  unfolding buf_callback
  Reach-buf_callback {s} addr r flies =
      let (c, queue) = s in
      let w = take_entry-TakenOf (IsFor edram c.store) addr c.edram_events (Reach-Homed r).6 in
      elim (Option-cases (take_entry addr c.edram_events)) [
        | inl e ↦ absurd (subst (TakenOf (IsFor edram c.store) addr c.edram_events) e w flies)
        | inr ((id, rest), e) ↦
            let (p, _, long) = subst (TakenOf (IsFor edram c.store) addr c.edram_events) e w in
            let (s', run, same, left) =
              confirm-some is_edram edram id (record c { edram_events = rest }) queue refl p in
            (s', rw (e, buf_callback) run, ap (λ m. length m + 1) left ∙ long, same)
      ]

  -- In every state that requests, issues and callbacks lead to, for any DRAM and for an aggregation
  -- buffer that is not empty and holds two transactions at most, at addresses of the buffer: a cycle of
  -- the coordinator ends and does not fail, and it leads to such a state and such a buffer again.
  pub Reach-issue_event :
      {s : Served} (d : dram_system.State) (b : AggrBuf)
      → Reach dram_system sz_block s
      → 0 < b.cap_edram
      → Bounded b.cap_edram b
      → (c' : Coordinator) × (d' : dram_system.State) × (b' : AggrBuf) × (issue_event dram_system
            sz_block s.0 d b
          ≡ some (c', d', b'))
        × Bounded b.cap_edram b'
        × Reach dram_system sz_block (c', s.1)
  Reach-issue_event {s} d b r p bounded =
      let (c, queue) = s in
      let (c', d', b', run, bounded') =
        issue_event-Bounded dram_system sz_block queue c d b (Reach-Inv dram_system sz_block r)
          (Homed-Waiting c (Reach-Homed r)) p bounded in
      (c', d', b', run, bounded', next (c, queue) (c', queue) r (issues c c' queue d d' b b' run))
