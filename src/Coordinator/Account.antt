-- ===== src/Coordinator/Account.antt =====
-- coordinator.cpp: the account of transactions that the coordinator keeps while it takes and issues
-- events.
use hy_gcn_a_gcn_accelerator.Base.{
  ℕ, ◌+◌, ◌≤◌, ◌≡◌, ◌≢◌, ap, sym, subst, ◌∙◌, inl, inr, List, [], ◌∷◌, ◌++◌, arith, false, Option,
  none, some, ltb, ◌==◌, ◌&&◌, if◌then◌else◌, get_elem?, set, sum_by, sum_by-append, get_elem?-lt,
  get_elem?-set_self, get_elem?-set_ne, Bool-cases,
}
use hy_gcn_a_gcn_accelerator.Event.{Event, issue_trans, all_trans_issued}
use hy_gcn_a_gcn_accelerator.Coordinator.{Coordinator, InFlight, start_trans, start_edram_trans}

abbrev pub same : ℕ → ℕ → ℕ
same i j = if i == j then 1 else 0

-- The transactions of event `id` in a table of transactions in flight.
abbrev pub flying : ℕ → InFlight → ℕ
flying id m = sum_by (λ entry. same entry.1 id) m

-- How often an event occurs in a queue of returned events.
abbrev pub times : ℕ → List ℕ → ℕ
times id queue = sum_by (λ other. same other id) queue

-- 1 for an event that has transactions and all of them confirmed, else 0.
abbrev pub done : Event → ℕ
done e = if ltb 0 e.num_trans && (e.confirm_cnt == e.num_trans) then 1 else 0

-- What is known of an event of which `f` transactions are in flight and which has been returned `r`
-- times.
abbrev pub Tally : Option Event → ℕ → ℕ → Type 0
Tally none f r = (f ≡ 0) × (r ≡ 0)
Tally (some e) f r = (e.trans_cnt ≡ e.confirm_cnt + f) × (e.trans_cnt ≤ e.num_trans) × (r ≡ done e)

-- The account of every event, for a history of returned events.
abbrev pub Inv : Coordinator → List ℕ → Type 0
Inv c queue =
    (id : ℕ)
    → Tally (get_elem? c.store id) (flying id c.events + flying id c.edram_events) (times id queue)

pub flying-snoc :
    (id : ℕ) (m : InFlight) (addr other : ℕ)
    → flying id (m ++ ((addr, other) ∷ [])) ≡ flying id m + same other id
flying-snoc id m addr other =
    omega (arith, sum_by-append (λ entry. same entry.1 id) m ((addr, other) ∷ []))

-- An entry of a vector that was written, seen at another index by its equality.
pub at_written :
    (P : Option Event → Type 0) (xs : List Event) (id j : ℕ) {e : Event} (e' : Event)
    → get_elem? xs id ≡ some e
    → id ≡ j
    → (P (get_elem? xs j) → P (some e)) × (P (some e') → P (get_elem? (set xs id e') j))
at_written P xs id j e' at q =
    let before = ap (get_elem? xs) (sym q) ∙ at in
    let after =
      ap (get_elem? (set xs id e')) (sym q) ∙ get_elem?-set_self xs id e' (get_elem?-lt xs id at) in
    (subst P before, subst P (sym after))

-- One more transaction of event `id` is issued.
Tally-issue :
    (id j f r : ℕ) (xs : List Event) (e : Event)
    → get_elem? xs id ≡ some e
    → all_trans_issued e ≡ false
    → Tally (get_elem? xs j) f r
    → Tally (get_elem? (set xs id (issue_trans e)) j) (f + same id j) r
Tally-issue id j f r xs e at more t = elim (Bool-cases (id == j)) [
  | inl h ↦
      let q : id ≡ j = ground arith in
      let (old, _) = at_written (λ o. Tally o f r) xs id j (issue_trans e) at q in
      let (_, new) = at_written (λ o. Tally o (f + same id j) r) xs id j (issue_trans e) at q in
      let t' = old t in new (ground (arith, t'.0, h), ground (arith, t'.1, more), t'.2)
  | inr h ↦
      let q : id ≢ j = ground arith in
      let none_more : f ≡ f + same id j = ground (arith, h) in
      rw (get_elem?-set_ne xs (issue_trans e) q, ← none_more) t
]

pub Inv-start_trans :
    (id addr : ℕ) (c : Coordinator) (e : Event) (queue : List ℕ)
    → get_elem? c.store id ≡ some e
    → all_trans_issued e ≡ false
    → Inv c queue
    → Inv (start_trans id addr c e) queue
Inv-start_trans id addr c e queue at more v j =
    let all = flying j c.events + flying j c.edram_events in
    let grown : all + same id j
        ≡ flying j (c.events ++ ((addr, id) ∷ [])) + flying j c.edram_events =
      omega (arith, flying-snoc j c.events addr id) in
    rw (← grown) (Tally-issue id j all (times j queue) c.store e at more (v j))

pub Inv-start_edram_trans :
    (id addr : ℕ) (c : Coordinator) (e : Event) (queue : List ℕ)
    → get_elem? c.store id ≡ some e
    → all_trans_issued e ≡ false
    → Inv c queue
    → Inv (start_edram_trans id addr c e) queue
Inv-start_edram_trans id addr c e queue at more v j =
    let all = flying j c.events + flying j c.edram_events in
    let grown : all + same id j
        ≡ flying j c.events + flying j (c.edram_events ++ ((addr, id) ∷ [])) =
      omega (arith, flying-snoc j c.edram_events addr id) in
    rw (← grown) (Tally-issue id j all (times j queue) c.store e at more (v j))
