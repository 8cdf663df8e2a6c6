-- ===== src/HyGcn/Homes.antt =====
-- hygcn.cpp, `MemCallback` and `BufCallback`: an event in flight to a memory is found and is of it.
use hy_gcn_a_gcn_accelerator.Base.{
  ℕ, ◌+◌, ◌≡◌, ◌⊎◌, refl, ap, subst, ◌∙◌, inl, inr, Bool, true, Option, none, some, List, [], ◌∷◌,
  ◌++◌, arith, ◌==◌, length, get_elem?, set, All, Bool-cases, Option-cases,
}
use hy_gcn_a_gcn_accelerator.Event.{EventDirType, dram, edram, confirm_trans, all_trans_confirmed}
use hy_gcn_a_gcn_accelerator.Coordinator.{Coordinator, InFlight}
use hy_gcn_a_gcn_accelerator.Coordinator.Homes.{IsFor, Homed, Homed-store, SameHomes-set}
use hy_gcn_a_gcn_accelerator.HyGcn.{
  Served, take_entry, is_dram, is_edram, confirm, mem_callback, buf_callback,
}

-- A transaction at the address is in flight.
abbrev pub Flies : ℕ → InFlight → Type 0
Flies addr [] = ⊥
Flies addr ((a, id) ∷ m) = (a ≡ addr) ⊎ Flies addr m

-- The entry that is taken and those that are left, of entries that all have a property.
abbrev pub TakenOf : (ℕ → Type 0) → ℕ → InFlight → Option (ℕ × InFlight) → Type 0
TakenOf P addr m none = ¬ Flies addr m
TakenOf P addr m (some (id, rest)) =
    P id × All (λ (entry : ℕ × ℕ). P entry.1) rest × (length rest + 1 ≡ length m)

pub take_entry-TakenOf :
    (P : ℕ → Type 0) (addr : ℕ) (m : InFlight)
    → All (λ (entry : ℕ × ℕ). P entry.1) m
    → TakenOf P addr m (take_entry addr m)
unfolding take_entry
take_entry-TakenOf P addr [] a = λ h. h
take_entry-TakenOf P addr ((x, id) ∷ m) a =
    let w = take_entry-TakenOf P addr m a.1 in
    elim (Bool-cases (x == addr)) [
      | inl h ↦ rw (h, take_entry) (a.0, a.1, omega arith)
      | inr h ↦ elim (Option-cases (take_entry addr m)) [
        | inl k ↦
            let none_left : ¬ Flies addr m = subst (TakenOf P addr m) k w in
            rw (h, k, take_entry)
              (λ flies. elim flies [
                | inl e ↦ absurd (ground (arith, h, e))
                | inr later ↦ none_left later
              ])
        | inr ((found, rest), k) ↦
            let (p, others, long) = subst (TakenOf P addr m) k w in
            rw (h, k, take_entry) (p, (a.0, others), omega (arith, long))
      ]
    ]

abbrev pub HomedAfter : Option Served → Type 0
HomedAfter none = Unit
HomedAfter (some (c, queue)) = Homed c

pub confirm-HomedAfter :
    (of_memory : EventDirType → Bool) (id : ℕ) (c : Coordinator) (queue : List ℕ)
    → Homed c
    → HomedAfter (confirm of_memory id (c, queue))
unfolding confirm
confirm-HomedAfter of_memory id c queue h = elim (Option-cases (get_elem? c.store id)) [
  | inl e ↦ rw (e, confirm) tt
  | inr (e, at) ↦
      let h' =
        Homed-store c (set c.store id (confirm_trans e))
          (SameHomes-set c.store id e (confirm_trans e) at refl) h in
      elim (Bool-cases (all_trans_confirmed (confirm_trans e))) [
        | inl k ↦ elim (Bool-cases (of_memory e.dir_type)) [
          | inl l ↦ rw (at, k, l, confirm) h'
          | inr l ↦ rw (at, k, l, confirm) tt
        ]
        | inr k ↦ rw (at, k, confirm) h'
      ]
]

-- The confirmation of an event of the memory does not fail.
pub confirm-some :
    (of_memory : EventDirType → Bool) (dir : EventDirType) (id : ℕ) (c : Coordinator)
    (queue : List ℕ)
    → of_memory dir ≡ true
    → IsFor dir c.store id
    → (s' : Served) × (confirm of_memory id (c, queue) ≡ some s')
      × (s'.0.events ≡ c.events)
      × (s'.0.edram_events ≡ c.edram_events)
unfolding confirm
confirm-some of_memory dir id c queue own (e, at, home) =
    let l : of_memory e.dir_type ≡ true = ap of_memory home ∙ own in
    let c' = record c { store = set c.store id (confirm_trans e) } in
    elim (Bool-cases (all_trans_confirmed (confirm_trans e))) [
      | inl k ↦ ((c', queue ++ (id ∷ [])), rw (at, k, l, confirm) refl, refl, refl)
      | inr k ↦ ((c', queue), rw (at, k, confirm) refl, refl, refl)
    ]

pub mem_callback-HomedAfter :
    (addr : ℕ) (c : Coordinator) (queue : List ℕ)
    → Homed c
    → HomedAfter (mem_callback addr (c, queue))
unfolding mem_callback
mem_callback-HomedAfter addr c queue h =
    let w = take_entry-TakenOf (IsFor dram c.store) addr c.events h.5 in
    elim (Option-cases (take_entry addr c.events)) [
      | inl e ↦ rw (e, mem_callback) tt
      | inr ((id, rest), e) ↦
          let (_, others, _) = subst (TakenOf (IsFor dram c.store) addr c.events) e w in
          rw (e, mem_callback)
            (confirm-HomedAfter is_dram id (record c { events = rest }) queue
              (h.0, h.1, h.2, h.3, h.4, others, h.6))
    ]

pub buf_callback-HomedAfter :
    (addr : ℕ) (c : Coordinator) (queue : List ℕ)
    → Homed c
    → HomedAfter (buf_callback addr (c, queue))
unfolding buf_callback
buf_callback-HomedAfter addr c queue h =
    let w = take_entry-TakenOf (IsFor edram c.store) addr c.edram_events h.6 in
    elim (Option-cases (take_entry addr c.edram_events)) [
      | inl e ↦ rw (e, buf_callback) tt
      | inr ((id, rest), e) ↦
          let (_, others, _) = subst (TakenOf (IsFor edram c.store) addr c.edram_events) e w in
          rw (e, buf_callback)
            (confirm-HomedAfter is_edram id (record c { edram_events = rest }) queue
              (h.0, h.1, h.2, h.3, h.4, h.5, others))
    ]
