-- ===== src/Coordinator/Issue.antt =====
-- coordinator.cpp, `IssueEvent`: the loop that issues to the DRAM, and a cycle of the coordinator.
use hy_gcn_a_gcn_accelerator.Base.{
  ℕ, zero, suc, ◌+◌, ◌<◌, ◌≡◌, refl, ap, ◌∙◌, inl, inr, subst, List, [], ◌∷◌, arith, false, Option,
  none, some, length, length-set, get_elem?, get_elem?_of_lt, get_elem?-lt, get_elem?-set_self, All,
  Bool-cases, Option-cases,
}
use hy_gcn_a_gcn_accelerator.Event.{Event, issue_trans, all_trans_issued}
use hy_gcn_a_gcn_accelerator.AggrBuf.{AggrBuf}
use hy_gcn_a_gcn_accelerator.Coordinator.{Coordinator, DramSystem, start_trans, next_addr, is_write}
use hy_gcn_a_gcn_accelerator.Coordinator.ToDram.{
  Queue, edge_queue, input_queue, weight_queue, output_queue, issue_dram, issue_to_dram, set_queue,
  serve, issued, fuel_of, queue_of, select_queue,
}
use hy_gcn_a_gcn_accelerator.Coordinator.ToEdram.{issue_tmps, issue_to_edram, issue_event}
use hy_gcn_a_gcn_accelerator.Coordinator.Account.{Inv, Inv-start_trans}
use hy_gcn_a_gcn_accelerator.Coordinator.EdramLoop.{
  Kept, Bounded, trans_bound, fuel_of-enough, issue_tmps-ends,
}

abbrev DramOf {ℓ} : {A : Type ℓ} → List ℕ → ℕ → List ℕ → Option (Coordinator × A) → Type 0
DramOf queue n tmps none = ⊥
DramOf queue n tmps (some (c, d)) = Kept queue n tmps c

Kept-start_trans :
    (id addr n : ℕ) (c : Coordinator) (e : Event) (queue tmps : List ℕ)
    → get_elem? c.store id ≡ some e
    → all_trans_issued e ≡ false
    → Kept queue n tmps c
    → Kept queue n tmps (start_trans id addr c e)
Kept-start_trans id addr n c e queue tmps at h k = record {
  account = Inv-start_trans id addr c e queue at h k.account;
  stored = length-set c.store id (issue_trans e) ∙ k.stored;
  waiting = k.waiting;
}

-- Every waiting request is an event of the store.
pub record Waiting (c : Coordinator) : Type 0 where
  pub of_edges : All (λ id. id < length c.store) c.edges
  pub of_inputs : All (λ id. id < length c.store) c.inputs
  pub of_weights : All (λ id. id < length c.store) c.weights
  pub of_outputs : All (λ id. id < length c.store) c.outputs
  pub of_tmps : All (λ id. id < length c.store) c.tmps

Waiting-queue_of :
    (q : Queue) (c : Coordinator) → Waiting c → All (λ id. id < length c.store) (queue_of q c)
Waiting-queue_of edge_queue c w = w.of_edges
Waiting-queue_of input_queue c w = w.of_inputs
Waiting-queue_of weight_queue c w = w.of_weights
Waiting-queue_of output_queue c w = w.of_outputs

Kept-set_queue :
    (q : Queue) (n : ℕ) (queue tmps rest : List ℕ) (c : Coordinator)
    → Kept queue n tmps c
    → Kept queue n tmps (set_queue q c rest)
Kept-set_queue edge_queue n queue tmps rest c k = record {
  account = k.account;
  stored = k.stored;
  waiting = k.waiting;
}
Kept-set_queue input_queue n queue tmps rest c k = record {
  account = k.account;
  stored = k.stored;
  waiting = k.waiting;
}
Kept-set_queue weight_queue n queue tmps rest c k = record {
  account = k.account;
  stored = k.stored;
  waiting = k.waiting;
}
Kept-set_queue output_queue n queue tmps rest c k = record {
  account = k.account;
  stored = k.stored;
  waiting = k.waiting;
}

module _ (dram_system : DramSystem) (sz_block n : ℕ) (queue tmps : List ℕ) where
  open dram_system use {State, will_accept, add}

  issue_dram-DramOf :
      (fuel id : ℕ) (c : Coordinator) (d : State) (e : Event)
      → get_elem? c.store id ≡ some e
      → e.num_trans < fuel + e.trans_cnt
      → Kept queue n tmps c
      → DramOf queue n tmps (issue_dram dram_system sz_block fuel id c d)
  unfolding issue_dram
  issue_dram-DramOf zero id c d e at f k =
      absurd (omega (arith, f, trans_bound c queue id k.account at))
  issue_dram-DramOf (suc fuel) id c d e at f k = elim (Bool-cases (all_trans_issued e)) [
    | inl h ↦ rw (at, h, issue_dram) k
    | inr h ↦ elim (Bool-cases (will_accept d (next_addr sz_block e) (is_write e))) [
      | inl l ↦
          rw (at, h, l, issue_dram)
            (issue_dram-DramOf fuel id (start_trans id (next_addr sz_block e) c e)
              (add d (next_addr sz_block e) (is_write e)) (issue_trans e)
              (get_elem?-set_self c.store id (issue_trans e) (get_elem?-lt c.store id at))
              (omega arith) (Kept-start_trans id (next_addr sz_block e) n c e queue tmps at h k))
      | inr l ↦ rw (at, h, l, issue_dram) k
    ]
  ]

  serve-DramOf :
      (q : Queue) (ids : List ℕ) (c : Coordinator) (d : State)
      → All (λ id. id < n) ids
      → Kept queue n tmps c
      → DramOf queue n tmps (serve dram_system sz_block q ids c d)
  unfolding serve
  serve-DramOf q [] c d a k = k
  serve-DramOf q (id ∷ rest) c d a k =
      let (e, at) = get_elem?_of_lt c.store id (omega (arith, a.0, k.stored)) in
      let w = issue_dram-DramOf (fuel_of c id) id c d e at (fuel_of-enough c id at) k in
      elim (Option-cases (issue_dram dram_system sz_block (fuel_of c id) id c d)) [
        | inl none_left ↦ absurd (subst (DramOf queue n tmps) none_left w)
        | inr ((c', d'), run) ↦
            let k' : Kept queue n tmps c' = subst (DramOf queue n tmps) run w in
            elim (Bool-cases (issued c' id)) [
              | inl h ↦ rw (run, h, serve) (Kept-set_queue q n queue tmps rest c' k')
              | inr h ↦ rw (run, h, serve) k'
            ]
      ]

-- A cycle of the coordinator always ends and no `assert` stops it, whatever the DRAM accepts, where
-- the account is right, every waiting request is stored, and the aggregation buffer is not empty and
-- holds two transactions at most, at addresses of the buffer; and the last holds after the cycle too.
pub issue_event-Bounded :
    (dram_system : DramSystem) (sz_block : ℕ) (queue : List ℕ) (c : Coordinator)
    (d : dram_system.State) (b : AggrBuf)
    → Inv c queue
    → Waiting c
    → 0 < b.cap_edram
    → Bounded b.cap_edram b
    → (c' : Coordinator) × (d' : dram_system.State) × (b' : AggrBuf) × (issue_event dram_system
          sz_block c d b
        ≡ some (c', d', b'))
      × Bounded b.cap_edram b'
unfolding issue_event issue_to_dram issue_to_edram
issue_event-Bounded dram_system sz_block queue c d b v w p bounded =
    let n = length c.store in
    let k : Kept queue n c.tmps c = record { account = v; stored = refl; waiting = refl } in
    let served : DramOf queue n c.tmps (issue_to_dram dram_system sz_block c d) =
      elim (Option-cases (select_queue c)) [
        | inl e ↦ rw (e, issue_to_dram) k
        | inr (q, e) ↦
            rw (e, issue_to_dram)
              (serve-DramOf dram_system sz_block n queue c.tmps q (queue_of q c) c d
                (Waiting-queue_of q c w) k)
      ] in
    elim (Option-cases (issue_to_dram dram_system sz_block c d)) [
      | inl e ↦ absurd (subst (DramOf queue n c.tmps) e served)
      | inr ((c', d'), e) ↦
          let k' : Kept queue n c.tmps c' = subst (DramOf queue n c.tmps) e served in
          let (c'', b', run, bounded') =
            issue_tmps-ends sz_block b.cap_edram n queue c.tmps c.tmps c' b p w.of_tmps k'
              bounded in
          let run' : issue_to_edram sz_block c' b ≡ some (c'', b') =
            ap (λ ids. issue_tmps sz_block ids c' b) k'.waiting ∙ run in
          (c'', d', b', rw (e, run', issue_event) refl, bounded')
    ]
