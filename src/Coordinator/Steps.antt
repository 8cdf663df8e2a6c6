-- ===== src/Coordinator/Steps.antt =====
-- coordinator.cpp, `IssueEvent`: what an issue keeps of the coordinator, by what the start of a
-- transaction keeps.
use hy_gcn_a_gcn_accelerator.Base.{
  ℕ, zero, suc, ◌≡◌, false, subst, inl, inr, List, [], ◌∷◌, Option, none, some, get_elem?,
  Bool-cases, Option-cases,
}
use hy_gcn_a_gcn_accelerator.Event.{Event, all_trans_issued}
use hy_gcn_a_gcn_accelerator.AggrBuf.{AggrBuf, will_accept_transaction, add_transaction}
use hy_gcn_a_gcn_accelerator.Coordinator.{
  Coordinator, DramSystem, start_trans, start_edram_trans, next_addr, is_write,
}
use hy_gcn_a_gcn_accelerator.Coordinator.ToDram.{
  Queue, edge_queue, input_queue, weight_queue, output_queue, issue_dram, issue_to_dram, set_queue,
  serve, issued, fuel_of, queue_of, select_queue,
}
use hy_gcn_a_gcn_accelerator.Coordinator.ToEdram.{
  issue_edram, issue_tmps, issue_to_edram, issue_event, edram_addr,
}
use hy_gcn_a_gcn_accelerator.Coordinator.Account.{Inv, Inv-start_trans, Inv-start_edram_trans}

-- A predicate after a step that may be cut short, with what else the step gives.
abbrev pub Of {ℓ κ} : {A : Type ℓ} → (Coordinator → A → Type κ) → Option (Coordinator × A) → Type κ
Of P none = Unit
Of P (some (c, d)) = P c d

abbrev pub OfCycle {ℓ κ μ} :
    {A : Type ℓ} {B : Type κ} → (Coordinator → B → Type μ) → Option (Coordinator × A × B) → Type μ
OfCycle P none = Unit
OfCycle P (some (c, d, b)) = P c b

-- What the two loops need of a predicate `P` of the coordinator and the aggregation buffer, where `D` and `E` are what is known of the events that
-- wait for the DRAM and for the aggregation buffer.
pub record Keeps (P : Coordinator → AggrBuf → Type 0) (D E : Coordinator → List ℕ → Type 0)
    : Type 0 where
  pub of_queue : (q : Queue) (c : Coordinator) (b : AggrBuf) → P c b → D c (queue_of q c)
  pub of_tmps : (c : Coordinator) (b : AggrBuf) → P c b → E c c.tmps
  pub start_dram :
      (id addr : ℕ) (rest : List ℕ) (c : Coordinator) (b : AggrBuf) (e : Event)
      → get_elem? c.store id ≡ some e
      → all_trans_issued e ≡ false
      → P c b
      → D c (id ∷ rest)
      → P (start_trans id addr c e) b × D (start_trans id addr c e) (id ∷ rest)
  pub start_edram :
      (id addr : ℕ) (rest : List ℕ) (c : Coordinator) (b : AggrBuf) (e : Event)
      → get_elem? c.store id ≡ some e
      → all_trans_issued e ≡ false
      → P c b
      → E c (id ∷ rest)
      → P (start_edram_trans id addr c e) (add_transaction b addr)
        × E (start_edram_trans id addr c e) (id ∷ rest)
  pub next_queue :
      (q : Queue) (c : Coordinator) (b : AggrBuf) (id : ℕ) (rest : List ℕ)
      → P c b
      → D c (id ∷ rest)
      → P (set_queue q c rest) b
  pub next_tmps : (c : Coordinator) (id : ℕ) (rest : List ℕ) → E c (id ∷ rest) → E c rest
  pub left_tmps :
      (c : Coordinator) (b : AggrBuf) (ids : List ℕ)
      → P c b
      → E c ids
      → P (record c { tmps = ids }) b

module _ {P : Coordinator → AggrBuf → Type 0} {D E : Coordinator → List ℕ → Type 0}
    (keeps : Keeps P D E) (dram_system : DramSystem) (sz_block : ℕ) where
  open dram_system use {State, will_accept, add}

  keep_issue_dram :
      (fuel id : ℕ) (rest : List ℕ) (b : AggrBuf) (c : Coordinator) (d : State)
      → P c b
      → D c (id ∷ rest)
      → Of (λ c' d'. P c' b × D c' (id ∷ rest)) (issue_dram dram_system sz_block fuel id c d)
  unfolding issue_dram
  keep_issue_dram zero id rest b c d v w = tt
  keep_issue_dram (suc fuel) id rest b c d v w = elim (Option-cases (get_elem? c.store id)) [
    | inl e ↦ rw (e, issue_dram) tt
    | inr (e, at) ↦ elim (Bool-cases (all_trans_issued e)) [
      | inl h ↦ rw (at, h, issue_dram) (v, w)
      | inr h ↦ elim (Bool-cases (will_accept d (next_addr sz_block e) (is_write e))) [
        | inl k ↦
            let (v', w') = keeps.start_dram id (next_addr sz_block e) rest c b e at h v w in
            rw (at, h, k, issue_dram)
              (keep_issue_dram fuel id rest b (start_trans id (next_addr sz_block e) c e)
                (add d (next_addr sz_block e) (is_write e)) v' w')
        | inr k ↦ rw (at, h, k, issue_dram) (v, w)
      ]
    ]
  ]

  keep_serve :
      (q : Queue) (ids : List ℕ) (b : AggrBuf) (c : Coordinator) (d : State)
      → P c b
      → D c ids
      → Of (λ c' d'. P c' b) (serve dram_system sz_block q ids c d)
  unfolding serve
  keep_serve q [] b c d v w = v
  keep_serve q (id ∷ rest) b c d v w =
      let run = issue_dram dram_system sz_block (fuel_of c id) id c d in
      let kept = keep_issue_dram (fuel_of c id) id rest b c d v w in
      elim (Option-cases run) [
        | inl e ↦ rw (e, serve) tt
        | inr ((c', d'), e) ↦
            let (v', w') = subst (Of (λ c' d'. P c' b × D c' (id ∷ rest))) e kept in
            elim (Bool-cases (issued c' id)) [
              | inl h ↦ rw (e, h, serve) (keeps.next_queue q c' b id rest v' w')
              | inr h ↦ rw (e, h, serve) v'
            ]
      ]

  keep_issue_to_dram :
      (b : AggrBuf) (c : Coordinator) (d : State)
      → P c b
      → Of (λ c' d'. P c' b) (issue_to_dram dram_system sz_block c d)
  unfolding issue_to_dram
  keep_issue_to_dram b c d v = elim (Option-cases (select_queue c)) [
    | inl e ↦ rw (e, issue_to_dram) v
    | inr (q, e) ↦
        rw (e, issue_to_dram) (keep_serve q (queue_of q c) b c d v (keeps.of_queue q c b v))
  ]

  keep_issue_edram :
      (fuel id : ℕ) (rest : List ℕ) (c : Coordinator) (b : AggrBuf)
      → P c b
      → E c (id ∷ rest)
      → Of (λ c' b'. P c' b' × E c' (id ∷ rest)) (issue_edram sz_block fuel id c b)
  unfolding issue_edram
  keep_issue_edram zero id rest c b v w = tt
  keep_issue_edram (suc fuel) id rest c b v w = elim (Option-cases (get_elem? c.store id)) [
    | inl e ↦ rw (e, issue_edram) tt
    | inr (e, at) ↦ elim (Bool-cases (all_trans_issued e)) [
      | inl h ↦ rw (at, h, issue_edram) (v, w)
      | inr h ↦ elim (Option-cases (edram_addr sz_block b e)) [
        | inl k ↦ rw (at, h, k, issue_edram) tt
        | inr (addr, k) ↦ elim (Bool-cases (will_accept_transaction b)) [
          | inl l ↦
              let (v', w') = keeps.start_edram id addr rest c b e at h v w in
              rw (at, h, k, l, issue_edram)
                (keep_issue_edram fuel id rest (start_edram_trans id addr c e)
                  (add_transaction b addr) v' w')
          | inr l ↦ rw (at, h, k, l, issue_edram) (v, w)
        ]
      ]
    ]
  ]

  keep_issue_tmps :
      (ids : List ℕ) (c : Coordinator) (b : AggrBuf)
      → P c b
      → E c ids
      → Of P (issue_tmps sz_block ids c b)
  unfolding issue_tmps
  keep_issue_tmps [] c b v w = keeps.left_tmps c b [] v w
  keep_issue_tmps (id ∷ rest) c b v w =
      let kept = keep_issue_edram (fuel_of c id) id rest c b v w in
      elim (Option-cases (issue_edram sz_block (fuel_of c id) id c b)) [
        | inl e ↦ rw (e, issue_tmps) tt
        | inr ((c', b'), e) ↦
            let (v', w') = subst (Of (λ c' b'. P c' b' × E c' (id ∷ rest))) e kept in
            let w'' = keeps.next_tmps c' id rest w' in
            elim (Bool-cases (will_accept_transaction b')) [
              | inr h ↦ elim (Bool-cases (issued c' id)) [
                | inl k ↦ rw (e, h, k, issue_tmps) (keeps.left_tmps c' b' rest v' w'')
                | inr k ↦ rw (e, h, k, issue_tmps) (keeps.left_tmps c' b' (id ∷ rest) v' w')
              ]
              | inl h ↦ elim (Bool-cases (issued c' id)) [
                | inl k ↦ rw (e, h, k, issue_tmps) (keep_issue_tmps rest c' b' v' w'')
                | inr k ↦ rw (e, h, k, issue_tmps) tt
              ]
            ]
      ]

  -- A cycle of the coordinator keeps the predicate.
  pub keep_issue_event :
      (c : Coordinator) (d : State) (b : AggrBuf)
      → P c b
      → OfCycle P (issue_event dram_system sz_block c d b)
  unfolding issue_event issue_to_edram
  keep_issue_event c d b v =
      let w = keep_issue_to_dram b c d v in
      elim (Option-cases (issue_to_dram dram_system sz_block c d)) [
        | inl e ↦ rw (e, issue_event) tt
        | inr ((c', d'), e) ↦
            let v' : P c' b = subst (Of (λ c₁ d₁. P c₁ b)) e w in
            let w' = keep_issue_tmps c'.tmps c' b v' (keeps.of_tmps c' b v') in
            elim (Option-cases (issue_tmps sz_block c'.tmps c' b)) [
              | inl e' ↦ rw (e, e', issue_event) tt
              | inr ((c'', b'), e') ↦
                  let v'' : P c'' b' = subst (Of P) e' w' in rw (e, e', issue_event) v''
            ]
      ]

-- The account of transactions is kept.
account-Keeps :
    (queue : List ℕ) → Keeps (λ c b. Inv c queue) (λ c ids. Unit {0}) (λ c ids. Unit {0})
account-Keeps queue = record {
  of_queue = λ q c b v. tt;
  of_tmps = λ c b v. tt;
  start_dram = λ id addr rest c b e at h v w. (Inv-start_trans id addr c e queue at h v, tt);
  start_edram = λ id addr rest c b e at h v w. (Inv-start_edram_trans id addr c e queue at h v, tt);
  next_queue = λ q c b id rest v w. Inv-set_queue q c rest v;
  next_tmps = λ c id rest w. tt;
  left_tmps = λ c b ids v w. v;
}
  where
    Inv-set_queue :
        (q : Queue) (c : Coordinator) (rest : List ℕ) → Inv c queue → Inv (set_queue q c rest) queue
    Inv-set_queue edge_queue c rest v = v
    Inv-set_queue input_queue c rest v = v
    Inv-set_queue weight_queue c rest v = v
    Inv-set_queue output_queue c rest v = v

pub Inv-issue_event :
    (dram_system : DramSystem) (sz_block : ℕ) (queue : List ℕ) (c : Coordinator)
    (d : dram_system.State) (b : AggrBuf)
    → Inv c queue
    → OfCycle (λ c' b'. Inv c' queue) (issue_event dram_system sz_block c d b)
Inv-issue_event dram_system sz_block queue c d b v =
    keep_issue_event (account-Keeps queue) dram_system sz_block c d b v
