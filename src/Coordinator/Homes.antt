-- ===== src/Coordinator/Homes.antt =====
-- coordinator.cpp: every event waits for, and flies to, the memory that it is for.
pub mod Issued
use hy_gcn_a_gcn_accelerator.Base.{
  ℕ, zero, suc, ◌≡◌, ◌<◌, refl, sym, subst, inl, inr, Bool, true, false, Option, none, some, List,
  [], ◌∷◌, ◌++◌, ◌+◌, ◌∙◌, ap, arith, length, get_elem?, set, All, All-mono, All-append,
  get_elem?-lt, some-eq,
}
use hy_gcn_a_gcn_accelerator.Event
use hy_gcn_a_gcn_accelerator.Event.{
  Event, EventDirType, EventType, EventDataType, write, read, read_aggr, edram, dram, none_dir,
  edge, weight, input_feature, aggr_feature, output_feature, none_data, all_trans_issued,
  issue_trans,
}
use hy_gcn_a_gcn_accelerator.Coordinator.{
  Coordinator, empty, add_event, add_dram, add_edram, enqueue, start_trans, start_edram_trans,
}
use hy_gcn_a_gcn_accelerator.Coordinator.ToDram.{
  Queue, edge_queue, input_queue, weight_queue, output_queue, queue_of, set_queue,
}
use hy_gcn_a_gcn_accelerator.Coordinator.Steps.{Keeps}
use hy_gcn_a_gcn_accelerator.Coordinator.Issue.{Waiting}

-- The event `id` is stored and is for the memory `dir`.
abbrev pub IsFor : EventDirType → List Event → ℕ → Type 0
IsFor dir store id = (e : Event) × (get_elem? store id ≡ some e) × (e.dir_type ≡ dir)

-- The events that wait in the four queues of the DRAM and in that of the aggregation buffer, and those
-- that fly to the two memories.
abbrev pub Homed : Coordinator → Type 0
Homed c =
    All (IsFor dram c.store) c.edges
    × All (IsFor dram c.store) c.inputs
    × All (IsFor dram c.store) c.weights
    × All (IsFor dram c.store) c.outputs
    × All (IsFor edram c.store) c.tmps
    × All (λ (entry : ℕ × ℕ). IsFor dram c.store entry.1) c.events
    × All (λ (entry : ℕ × ℕ). IsFor edram c.store entry.1) c.edram_events

-- A store in which every event is still for its memory.
abbrev pub SameHomes : List Event → List Event → Type 0
SameHomes store store' = (dir : EventDirType) (id : ℕ) → IsFor dir store id → IsFor dir store' id

pub Homed-store :
    (c : Coordinator) (store' : List Event)
    → SameHomes c.store store'
    → Homed c
    → Homed (record c { store = store' })
Homed-store c store' same (es, is, ws, os, ts, fs, gs) = (
  All-mono _ _ c.edges (same dram) es,
  All-mono _ _ c.inputs (same dram) is,
  All-mono _ _ c.weights (same dram) ws,
  All-mono _ _ c.outputs (same dram) os,
  All-mono _ _ c.tmps (same edram) ts,
  All-mono _ _ c.events (λ entry. same dram entry.1) fs,
  All-mono _ _ c.edram_events (λ entry. same edram entry.1) gs,
)

pub SameHomes-set :
    (store : List Event) (id : ℕ) (e e' : Event)
    → get_elem? store id ≡ some e
    → e'.dir_type ≡ e.dir_type
    → SameHomes store (set store id e')
SameHomes-set [] id e e' at same dir j w = cc
SameHomes-set (x ∷ store) zero e e' at same dir zero (f, found, home) =
    (e', refl, same ∙ ap (λ (o : Event). o.dir_type) (sym (some-eq at) ∙ some-eq found) ∙ home)
SameHomes-set (x ∷ store) zero e e' at same dir (suc j) w = w
SameHomes-set (x ∷ store) (suc id) e e' at same dir zero w = w
SameHomes-set (x ∷ store) (suc id) e e' at same dir (suc j) w =
    SameHomes-set store id e e' at same dir j w

SameHomes-snoc : (store : List Event) (e : Event) → SameHomes store (store ++ (e ∷ []))
SameHomes-snoc [] e dir id w = cc
SameHomes-snoc (x ∷ store) e dir zero w = w
SameHomes-snoc (x ∷ store) e dir (suc id) w = SameHomes-snoc store e dir id w

IsFor-last : (store : List Event) (e : Event) → IsFor e.dir_type (store ++ (e ∷ [])) (length store)
IsFor-last [] e = (e, refl, refl)
IsFor-last (x ∷ store) e = IsFor-last store e

add_last :
    (dir : EventDirType) (store : List Event) (id : ℕ) (ids : List ℕ)
    → All (IsFor dir store) ids
    → IsFor dir store id
    → All (IsFor dir store) (ids ++ (id ∷ []))
add_last dir store id ids a w = All-append (IsFor dir store) ids (id ∷ []) a (w, tt)

abbrev pub HomedOr : Option Coordinator → Type 0
HomedOr none = Unit
HomedOr (some c) = Homed c

Homed-add_edram :
    (c : Coordinator) (id : ℕ) (t : EventType) (bytes : ℕ)
    → Homed c
    → IsFor edram c.store id
    → Homed (add_edram c id t bytes)
unfolding add_edram
Homed-add_edram c id write bytes (es, is, ws, os, ts, fs, gs) w =
    (es, is, ws, os, add_last edram c.store id c.tmps ts w, fs, gs)
Homed-add_edram c id read bytes (es, is, ws, os, ts, fs, gs) w =
    (es, is, ws, os, add_last edram c.store id c.tmps ts w, fs, gs)
Homed-add_edram c id read_aggr bytes (es, is, ws, os, ts, fs, gs) w =
    (es, is, ws, os, add_last edram c.store id c.tmps ts w, fs, gs)

Homed-enqueue :
    (c : Coordinator) (id : ℕ) (e : Event) (dir : EventDirType) (t : EventDataType)
    → Homed c
    → IsFor dir c.store id
    → HomedOr (enqueue c id e dir t)
unfolding enqueue add_dram
Homed-enqueue c id e dram edge (es, is, ws, os, ts, fs, gs) w =
    (add_last dram c.store id c.edges es w, is, ws, os, ts, fs, gs)
Homed-enqueue c id e dram weight (es, is, ws, os, ts, fs, gs) w =
    (es, is, add_last dram c.store id c.weights ws w, os, ts, fs, gs)
Homed-enqueue c id e dram input_feature (es, is, ws, os, ts, fs, gs) w =
    (es, add_last dram c.store id c.inputs is w, ws, os, ts, fs, gs)
Homed-enqueue c id e dram output_feature (es, is, ws, os, ts, fs, gs) w =
    (es, is, ws, add_last dram c.store id c.outputs os w, ts, fs, gs)
Homed-enqueue c id e dram aggr_feature h w = tt
Homed-enqueue c id e dram none_data h w = tt
Homed-enqueue c id e edram aggr_feature h w = Homed-add_edram c id e.event_type e.bytes h w
Homed-enqueue c id e edram edge h w = tt
Homed-enqueue c id e edram weight h w = tt
Homed-enqueue c id e edram input_feature h w = tt
Homed-enqueue c id e edram output_feature h w = tt
Homed-enqueue c id e edram none_data h w = tt
Homed-enqueue c id e none_dir t h w = tt

pub Homed-add_event : (c : Coordinator) (e : Event) → Homed c → HomedOr (add_event c e)
unfolding add_event
Homed-add_event c e h =
    Homed-enqueue (record c { store = c.store ++ (e ∷ []) }) (length c.store) e e.dir_type
      e.data_type (Homed-store c (c.store ++ (e ∷ [])) (SameHomes-snoc c.store e) h)
      (IsFor-last c.store e)
