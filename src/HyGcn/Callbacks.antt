-- ===== src/HyGcn/Callbacks.antt =====
-- hygcn.cpp, `MemCallback` and `BufCallback`: what a confirmation does to the account of transactions.
use native.Mathlib.Nat.{add-zero}
use hy_gcn_a_gcn_accelerator.Base.{
  ℕ, ◌+◌, ◌≡◌, ◌≢◌, inl, inr, subst, List, [], ◌∷◌, ◌++◌, arith, Bool, Option, none, some, ◌==◌,
  if◌then◌else◌, get_elem?, set, get_elem?-set_ne, sum_by-append, Bool-cases, Option-cases,
}
use hy_gcn_a_gcn_accelerator.Event.{Event, EventDirType, confirm_trans, all_trans_confirmed}
use hy_gcn_a_gcn_accelerator.Coordinator.{Coordinator, InFlight}
use hy_gcn_a_gcn_accelerator.Coordinator.Account.{same, flying, times, Tally, Inv, at_written}
use hy_gcn_a_gcn_accelerator.HyGcn.{
  Served, take_entry, is_dram, is_edram, confirm, mem_callback, buf_callback,
}

-- The entry that is taken is no longer in flight, and all others are.
abbrev Taken : ℕ → InFlight → Option (ℕ × InFlight) → Type 0
Taken j m none = Unit
Taken j m (some (id, rest)) = flying j m ≡ flying j rest + same id j

take_entry-Taken : (addr j : ℕ) (m : InFlight) → Taken j m (take_entry addr m)
unfolding take_entry
take_entry-Taken addr j [] = tt
take_entry-Taken addr j ((a, other) ∷ m) =
    let w = take_entry-Taken addr j m in
    elim (Bool-cases (a == addr)) [
      | inl h ↦ rw (h, take_entry) (omega arith)
      | inr h ↦ elim (Option-cases (take_entry addr m)) [
        | inl k ↦ rw (h, k, take_entry) tt
        | inr ((found, tail), k) ↦
            let w' : Taken j m (some (found, tail)) = subst (Taken j m) k w in
            rw (h, k, take_entry) (omega (arith, w'))
      ]
    ]

times-snoc : (j id : ℕ) (queue : List ℕ) → times j (queue ++ (id ∷ [])) ≡ times j queue + same id j
times-snoc j id queue = omega (arith, sum_by-append (λ other. same other j) queue (id ∷ []))

-- What a confirmation leaves, for one transaction more that was in flight.
Tally-confirm :
    (id j f r : ℕ) (xs : List Event) (e : Event)
    → get_elem? xs id ≡ some e
    → Tally (get_elem? xs j) (f + same id j) r
    → Tally
        (get_elem? (set xs id (confirm_trans e)) j)
        f
        (r + (if all_trans_confirmed (confirm_trans e) then same id j else 0))
Tally-confirm id j f r xs e at t = elim (Bool-cases (id == j)) [
  | inl h ↦
      let q : id ≡ j = ground arith in
      let r' = r + (if all_trans_confirmed (confirm_trans e) then same id j else 0) in
      let (old, _) = at_written (λ o. Tally o (f + same id j) r) xs id j (confirm_trans e) at q in
      let (_, new) = at_written (λ o. Tally o f r') xs id j (confirm_trans e) at q in
      let t' = old t in new (ground (arith, t'.0, h), t'.1, ground (arith, t'.0, t'.1, t'.2, h))
  | inr h ↦
      let q : id ≢ j = ground arith in
      let fewer : f + same id j ≡ f = ground (arith, h) in
      let r_same : r ≡ r + (if all_trans_confirmed (confirm_trans e) then same id j else 0) =
        ground (arith, h) in
      rw (get_elem?-set_ne xs (confirm_trans e) q, ← r_same)
        (subst (λ n. Tally (get_elem? xs j) n r) fewer t)
]

-- The account after a callback, which may stop the run.
abbrev pub InvAfter : Option Served → Type 0
InvAfter none = Unit
InvAfter (some (c, queue)) = Inv c queue

-- The account while an entry of event `id` is taken and not yet confirmed.
abbrev InvTaken : ℕ → Coordinator → List ℕ → Type 0
InvTaken id c queue =
    (j : ℕ)
    → Tally (get_elem? c.store j) (flying j c.events + flying j c.edram_events + same id j)
        (times j queue)

Inv-confirm :
    (of_memory : EventDirType → Bool) (id : ℕ) (c : Coordinator) (queue : List ℕ)
    → InvTaken id c queue
    → InvAfter (confirm of_memory id (c, queue))
unfolding confirm
Inv-confirm of_memory id c queue v = elim (Option-cases (get_elem? c.store id)) [
  | inl e ↦ rw (e, confirm) tt
  | inr (e, at) ↦
      let e' = confirm_trans e in
      let left : ℕ → ℕ = λ j. flying j c.events + flying j c.edram_events in
      let After : Bool → Type 0 = λ b.
        (j : ℕ)
        → Tally (get_elem? (set c.store id e') j) (left j)
            (times j queue + (if b then same id j else 0)) in
      let w : After (all_trans_confirmed e') =
        λ j. Tally-confirm id j (left j) (times j queue) c.store e at (v j) in
      elim (Bool-cases (all_trans_confirmed (confirm_trans e))) [
        | inl h ↦ elim (Bool-cases (of_memory e.dir_type)) [
          | inl k ↦ rw (at, h, k, confirm) (λ j. rw (times-snoc j id queue) (subst After h w j))
          | inr k ↦ rw (at, h, k, confirm) tt
        ]
        | inr h ↦
            rw (at, h, confirm)
              (λ j.
                let w' = subst After h w j in
                subst (Tally (get_elem? (set c.store id e') j) (left j)) (add-zero (times j queue))
                  w')
      ]
]

pub Inv-mem_callback :
    (addr : ℕ) (c : Coordinator) (queue : List ℕ)
    → Inv c queue
    → InvAfter (mem_callback addr (c, queue))
unfolding mem_callback
Inv-mem_callback addr c queue v =
    let taken : (j : ℕ) → Taken j c.events (take_entry addr c.events) =
      λ j. take_entry-Taken addr j c.events in
    elim (Option-cases (take_entry addr c.events)) [
      | inl e ↦ rw (e, mem_callback) tt
      | inr ((id, rest), e) ↦
          let move : (j : ℕ)
              → flying j c.events + flying j c.edram_events
                ≡ flying j rest + flying j c.edram_events + same id j =
            λ j. omega (arith, subst (Taken j c.events) e (taken j)) in
          rw (e, mem_callback)
            (Inv-confirm is_dram id (record c { events = rest }) queue
              (λ j. subst (λ n. Tally (get_elem? c.store j) n (times j queue)) (move j) (v j)))
    ]

pub Inv-buf_callback :
    (addr : ℕ) (c : Coordinator) (queue : List ℕ)
    → Inv c queue
    → InvAfter (buf_callback addr (c, queue))
unfolding buf_callback
Inv-buf_callback addr c queue v =
    let taken : (j : ℕ) → Taken j c.edram_events (take_entry addr c.edram_events) =
      λ j. take_entry-Taken addr j c.edram_events in
    elim (Option-cases (take_entry addr c.edram_events)) [
      | inl e ↦ rw (e, buf_callback) tt
      | inr ((id, rest), e) ↦
          let move : (j : ℕ)
              → flying j c.events + flying j c.edram_events
                ≡ flying j c.events + flying j rest + same id j =
            λ j. omega (arith, subst (Taken j c.edram_events) e (taken j)) in
          rw (e, buf_callback)
            (Inv-confirm is_edram id (record c { edram_events = rest }) queue
              (λ j. subst (λ n. Tally (get_elem? c.store j) n (times j queue)) (move j) (v j)))
    ]
