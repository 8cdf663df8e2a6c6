-- ===== src/Coordinator/Homes/Issued.antt =====
-- coordinator.cpp, `IssueEvent`: the loops keep every event at the memory that it is for.
use hy_gcn_a_gcn_accelerator.Base.{
  ℕ, ◌≡◌, ◌<◌, refl, false, some, List, [], ◌∷◌, length, get_elem?, set, All, All-mono, All-append,
  get_elem?-lt,
}
use hy_gcn_a_gcn_accelerator.Event.{Event, EventDirType, edram, dram, all_trans_issued, issue_trans}
use hy_gcn_a_gcn_accelerator.Coordinator.{Coordinator, start_trans, start_edram_trans}
use hy_gcn_a_gcn_accelerator.Coordinator.ToDram.{
  Queue, edge_queue, input_queue, weight_queue, output_queue, queue_of, set_queue,
}
use hy_gcn_a_gcn_accelerator.Coordinator.Steps.{Keeps}
use hy_gcn_a_gcn_accelerator.Coordinator.Issue.{Waiting}
use hy_gcn_a_gcn_accelerator.Coordinator.Homes.{IsFor, Homed, Homed-store, SameHomes-set}

queue_home : (q : Queue) (c : Coordinator) → Homed c → All (IsFor dram c.store) (queue_of q c)
queue_home edge_queue c h = h.0
queue_home input_queue c h = h.1
queue_home weight_queue c h = h.2
queue_home output_queue c h = h.3

next_home :
    (q : Queue) (c : Coordinator) (id : ℕ) (rest : List ℕ)
    → Homed c
    → All (IsFor dram c.store) (id ∷ rest)
    → Homed (set_queue q c rest)
next_home edge_queue c id rest (es, is, ws, os, ts, fs, gs) a = (a.1, is, ws, os, ts, fs, gs)
next_home input_queue c id rest (es, is, ws, os, ts, fs, gs) a = (es, a.1, ws, os, ts, fs, gs)
next_home weight_queue c id rest (es, is, ws, os, ts, fs, gs) a = (es, is, a.1, os, ts, fs, gs)
next_home output_queue c id rest (es, is, ws, os, ts, fs, gs) a = (es, is, ws, a.1, ts, fs, gs)

start_home :
    (id addr : ℕ) (rest : List ℕ) (c : Coordinator) (e : Event)
    → get_elem? c.store id ≡ some e
    → all_trans_issued e ≡ false
    → Homed c
    → All (IsFor dram c.store) (id ∷ rest)
    → Homed (start_trans id addr c e) × All (IsFor dram (start_trans id addr c e).store) (id ∷ rest)
start_home id addr rest c e at more h a =
    let store' = set c.store id (issue_trans e) in
    let same = SameHomes-set c.store id e (issue_trans e) at refl in
    let (es, is, ws, os, ts, fs, gs) = Homed-store c store' same h in
    let a' = All-mono _ _ (id ∷ rest) (same dram) a in
    (
      (
        es,
        is,
        ws,
        os,
        ts,
        All-append (λ (entry : ℕ × ℕ). IsFor dram store' entry.1) c.events ((addr, id) ∷ []) fs
            (a'.0, tt),
        gs,
      ),
      a',
    )

start_edram_home :
    (id addr : ℕ) (rest : List ℕ) (c : Coordinator) (e : Event)
    → get_elem? c.store id ≡ some e
    → all_trans_issued e ≡ false
    → Homed c
    → All (IsFor edram c.store) (id ∷ rest)
    → Homed (start_edram_trans id addr c e)
      × All (IsFor edram (start_edram_trans id addr c e).store) (id ∷ rest)
start_edram_home id addr rest c e at more h a =
    let store' = set c.store id (issue_trans e) in
    let same = SameHomes-set c.store id e (issue_trans e) at refl in
    let (es, is, ws, os, ts, fs, gs) = Homed-store c store' same h in
    let a' = All-mono _ _ (id ∷ rest) (same edram) a in
    (
      (
        es,
        is,
        ws,
        os,
        ts,
        fs,
        All-append (λ (entry : ℕ × ℕ). IsFor edram store' entry.1) c.edram_events ((addr, id) ∷ [])
            gs (a'.0, tt),
      ),
      a',
    )

pub Homed-Keeps :
    Keeps (λ c b. Homed c) (λ c. All (IsFor dram c.store)) (λ c. All (IsFor edram c.store))
Homed-Keeps = record {
  of_queue = λ q c b. queue_home q c;
  of_tmps = λ c b h. h.4;
  start_dram = λ id addr rest c b. start_home id addr rest c;
  start_edram = λ id addr rest c b. start_edram_home id addr rest c;
  next_queue = λ q c b. next_home q c;
  next_tmps = λ c id rest a. a.1;
  left_tmps = λ c b ids h a. (h.0, h.1, h.2, h.3, a, h.5, h.6);
}

-- So every waiting request is stored.
IsFor-lt :
    (dir : EventDirType) (store : List Event) (id : ℕ) → IsFor dir store id → id < length store
IsFor-lt dir store id (e, at, home) = get_elem?-lt store id at

pub Homed-Waiting : (c : Coordinator) → Homed c → Waiting c
Homed-Waiting c h = record {
  of_edges = All-mono _ _ c.edges (IsFor-lt dram c.store) h.0;
  of_inputs = All-mono _ _ c.inputs (IsFor-lt dram c.store) h.1;
  of_weights = All-mono _ _ c.weights (IsFor-lt dram c.store) h.2;
  of_outputs = All-mono _ _ c.outputs (IsFor-lt dram c.store) h.3;
  of_tmps = All-mono _ _ c.tmps (IsFor-lt edram c.store) h.4;
}
