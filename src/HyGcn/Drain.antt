-- ===== src/HyGcn/Drain.antt =====
-- hygcn.cpp and aggr_buf.h: the aggregation buffer holds the transactions in flight to it, and its tick
-- confirms them all.
use hy_gcn_a_gcn_accelerator.Base.{
  ℕ, ◌≡◌, refl, ap, subst, ◌∙◌, true, some, List, [], ◌∷◌, ◌++◌, arith, map, ◌==◌, All,
}
use mathlib.Core.List.{map-append}
use hy_gcn_a_gcn_accelerator.Event.{Event, edram}
use hy_gcn_a_gcn_accelerator.AggrBuf.{AggrBuf, add_transaction, drain}
use hy_gcn_a_gcn_accelerator.Coordinator.{Coordinator, InFlight, start_edram_trans}
use hy_gcn_a_gcn_accelerator.Coordinator.ToDram.{
  Queue, edge_queue, input_queue, weight_queue, output_queue, set_queue,
}
use hy_gcn_a_gcn_accelerator.Coordinator.Steps.{Keeps}
use hy_gcn_a_gcn_accelerator.Coordinator.Homes.{IsFor, Homed}
use hy_gcn_a_gcn_accelerator.HyGcn.{Served, take_entry, is_edram, buf_callback}
use hy_gcn_a_gcn_accelerator.HyGcn.Homes.{HomedAfter, confirm-some, confirm-HomedAfter}

-- The addresses of the transactions in flight.
abbrev pub addresses : InFlight → List ℕ
addresses m = map (λ (entry : ℕ × ℕ). entry.0) m

-- The buffer holds the transactions in flight to it, in order.
abbrev pub Aligned : Coordinator → AggrBuf → Type 0
Aligned c b = addresses c.edram_events ≡ b.trans

Aligned-start_edram_trans :
    (id addr : ℕ) (c : Coordinator) (b : AggrBuf) (e : Event)
    → Aligned c b
    → Aligned (start_edram_trans id addr c e) (add_transaction b addr)
unfolding add_transaction
Aligned-start_edram_trans id addr c b e a =
    map-append (λ (entry : ℕ × ℕ). entry.0) c.edram_events ((addr, id) ∷ [])
    ∙ ap (λ t. t ++ (addr ∷ [])) a

Aligned-set_queue :
    (q : Queue) (c : Coordinator) (b : AggrBuf) (rest : List ℕ)
    → Aligned c b
    → Aligned (set_queue q c rest) b
Aligned-set_queue edge_queue c b rest a = a
Aligned-set_queue input_queue c b rest a = a
Aligned-set_queue weight_queue c b rest a = a
Aligned-set_queue output_queue c b rest a = a

pub Aligned-Keeps : Keeps Aligned (λ c ids. Unit {0}) (λ c ids. Unit {0})
Aligned-Keeps = record {
  of_queue = λ q c b a. tt;
  of_tmps = λ c b a. tt;
  start_dram = λ id addr rest c b e at h a w. (a, tt);
  start_edram = λ id addr rest c b e at h a w. (Aligned-start_edram_trans id addr c b e a, tt);
  next_queue = λ q c b id rest a w. Aligned-set_queue q c b rest a;
  next_tmps = λ c id rest w. tt;
  left_tmps = λ c b ids a w. a;
}

addresses-nil : (m : InFlight) → addresses m ≡ [] → m ≡ []
addresses-nil [] e = refl
addresses-nil (entry ∷ m) e = cc

addresses-cons :
    (m : InFlight) (addr : ℕ) (trans : List ℕ)
    → addresses m ≡ addr ∷ trans
    → (id : ℕ) × (rest : InFlight) × (m ≡ (addr, id) ∷ rest) × (addresses rest ≡ trans)
addresses-cons [] addr trans e = cc
addresses-cons ((a, id) ∷ m) addr trans e =
    let same : a ≡ addr = cc in (id, m, ap (λ x. (x, id) ∷ m) same, cc)

take_entry-first : (addr id : ℕ) (m : InFlight) → take_entry addr ((addr, id) ∷ m) ≡ some (id, m)
unfolding take_entry
take_entry-first addr id m = let t : (addr == addr) ≡ true = ground arith in rw (t, take_entry) refl

-- One callback, for the oldest transaction in flight.
callback_first :
    (addr id : ℕ) (rest : InFlight) (c : Coordinator) (queue : List ℕ)
    → Homed c
    → c.edram_events ≡ (addr, id) ∷ rest
    → (s' : Served) × (buf_callback addr (c, queue) ≡ some s')
      × (s'.0.edram_events ≡ rest)
      × (s'.0.events ≡ c.events)
      × Homed s'.0
unfolding buf_callback
callback_first addr id rest c queue h e =
    let c' = record c { edram_events = rest } in
    let taken : take_entry addr c.edram_events ≡ some (id, rest) =
      ap (take_entry addr) e ∙ take_entry-first addr id rest in
    let flying = subst (All (λ (entry : ℕ × ℕ). IsFor edram c.store entry.1)) e h.6 in
    let h' : Homed c' = (h.0, h.1, h.2, h.3, h.4, h.5, flying.1) in
    let (s', run, same, left) = confirm-some is_edram edram id c' queue refl flying.0 in
    (
      s',
      rw (taken, buf_callback) run,
      left,
      same,
      subst HomedAfter run (confirm-HomedAfter is_edram id c' queue h'),
    )

-- The drain of transactions that are all in flight.
pub drain-all :
    (trans : List ℕ) (c : Coordinator) (queue : List ℕ)
    → Homed c
    → addresses c.edram_events ≡ trans
    → (s' : Served) × (drain buf_callback trans (c, queue) ≡ some s')
      × (s'.0.edram_events ≡ [])
      × (s'.0.events ≡ c.events)
      × Homed s'.0
unfolding drain
drain-all [] c queue h a = ((c, queue), refl, addresses-nil c.edram_events a, refl, h)
drain-all (addr ∷ trans) c queue h a =
    let (id, rest, e, a') = addresses-cons c.edram_events addr trans a in
    let (s', run, left, same, h') = callback_first addr id rest c queue h e in
    let (s'', run', none_left, same', h'') =
      drain-all trans s'.0 s'.1 h' (ap addresses left ∙ a') in
    (s'', rw run run', none_left, same' ∙ same, h'')
