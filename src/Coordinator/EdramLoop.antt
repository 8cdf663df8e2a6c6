-- ===== src/Coordinator/EdramLoop.antt =====
-- coordinator.cpp, `IssueEvent`: the loop that issues to the aggregation buffer.
use native.Mathlib.Nat.{mod-lt}
use hy_gcn_a_gcn_accelerator.Base.{
  ℕ, zero, suc, ◌+◌, ◌%◌, ◌≤◌, ◌<◌, ◌≡◌, ◌⊎◌, refl, ◌∙◌, inl, inr, subst, List, [], ◌∷◌, arith,
  true, false, Option, none, some, leb, u64, if◌then◌else◌, length, length-append, length-set,
  get_elem?, get_elem?_of_lt, get_elem?-lt, get_elem?-set_self, All, All-append, Bool-cases,
  Option-cases,
}
use hy_gcn_a_gcn_accelerator.Event.{Event, issue_trans, all_trans_issued}
use hy_gcn_a_gcn_accelerator.AggrBuf.{AggrBuf, will_accept_transaction, add_transaction}
use hy_gcn_a_gcn_accelerator.Coordinator.{Coordinator, start_edram_trans, next_addr}
use hy_gcn_a_gcn_accelerator.Coordinator.ToDram.{issued, fuel_of}
use hy_gcn_a_gcn_accelerator.Coordinator.ToEdram.{issue_edram, issue_tmps, edram_addr}
use hy_gcn_a_gcn_accelerator.Coordinator.Account.{flying, times, Tally, Inv, Inv-start_edram_trans}

-- No more is issued of an event than it has.
pub trans_bound :
    (c : Coordinator) (queue : List ℕ) (id : ℕ) {e : Event}
    → Inv c queue
    → get_elem? c.store id ≡ some e
    → e.trans_cnt ≤ e.num_trans
trans_bound c queue id v at =
    let all = flying id c.events + flying id c.edram_events in
    let t = subst (λ o. Tally o all (times id queue)) at (v id) in t.1

-- The address of a transaction lies in the buffer.
edram_addr-some :
    (sz_block : ℕ) (b : AggrBuf) (e : Event)
    → 0 < b.cap_edram
    → (addr : ℕ) × (edram_addr sz_block b e ≡ some addr) × (addr < b.cap_edram)
unfolding edram_addr
edram_addr-some sz_block b e h = elim (Bool-cases (leb b.cap_edram (next_addr sz_block e))) [
  | inl k ↦
      let addr = u64 (next_addr sz_block e + b.cap_edram) % b.cap_edram in
      let below : addr < b.cap_edram = mod-lt (u64 (next_addr sz_block e + b.cap_edram)) h in
      (addr, ground (arith, k, below, h), below)
  | inr k ↦ (next_addr sz_block e, ground (arith, k), ground (arith, k))
]

-- What the two loops keep of a coordinator, for the number of its events and the requests of the
-- aggregation buffer.
pub record Kept (queue : List ℕ) (n : ℕ) (tmps : List ℕ) (c : Coordinator) : Type 0 where
  pub account : Inv c queue
  pub stored : length c.store ≡ n
  pub waiting : c.tmps ≡ tmps

-- The transactions that the aggregation buffer has taken: two at most, each at an address of it.
pub record Bounded (cap : ℕ) (b : AggrBuf) : Type 0 where
  pub capacity : b.cap_edram ≡ cap
  pub inside : All (λ addr. addr < cap) b.trans
  pub few : length b.trans ≤ 2

abbrev EdramOf : List ℕ → ℕ → List ℕ → ℕ → ℕ → Option (Coordinator × AggrBuf) → Type 0
EdramOf queue n tmps cap id none = ⊥
EdramOf queue n tmps cap id (some (c, b)) =
    Kept queue n tmps c
    × Bounded cap b
    × ((issued c id ≡ true) ⊎ (will_accept_transaction b ≡ false))

Kept-start_edram_trans :
    (id addr n : ℕ) (c : Coordinator) (e : Event) (queue tmps : List ℕ)
    → get_elem? c.store id ≡ some e
    → all_trans_issued e ≡ false
    → Kept queue n tmps c
    → Kept queue n tmps (start_edram_trans id addr c e)
Kept-start_edram_trans id addr n c e queue tmps at h k = record {
  account = Inv-start_edram_trans id addr c e queue at h k.account;
  stored = length-set c.store id (issue_trans e) ∙ k.stored;
  waiting = k.waiting;
}

Bounded-add :
    (cap addr : ℕ) (b : AggrBuf)
    → addr < cap
    → will_accept_transaction b ≡ true
    → Bounded cap b
    → Bounded cap (add_transaction b addr)
unfolding will_accept_transaction add_transaction
Bounded-add cap addr b h k v = record {
  capacity = v.capacity;
  inside = All-append _ b.trans (addr ∷ []) v.inside (h, tt);
  few = ground (arith, k, length-append b.trans (addr ∷ []));
}

-- An event that is stored gets enough fuel.
pub fuel_of-enough :
    (c : Coordinator) (id : ℕ) {e : Event}
    → get_elem? c.store id ≡ some e
    → e.num_trans < fuel_of c id + e.trans_cnt
fuel_of-enough c id at = rw (at, fuel_of) (omega arith)

module _ (sz_block cap n : ℕ) (queue tmps : List ℕ) where
  issue_edram-EdramOf :
      (fuel id : ℕ) (c : Coordinator) (b : AggrBuf) (e : Event)
      → 0 < cap
      → get_elem? c.store id ≡ some e
      → e.num_trans < fuel + e.trans_cnt
      → Kept queue n tmps c
      → Bounded cap b
      → EdramOf queue n tmps cap id (issue_edram sz_block fuel id c b)
  unfolding issue_edram
  issue_edram-EdramOf zero id c b e p at f k v =
      absurd (omega (arith, f, trans_bound c queue id k.account at))
  issue_edram-EdramOf (suc fuel) id c b e p at f k v = elim (Bool-cases (all_trans_issued e)) [
    | inl h ↦ rw (at, h, issue_edram) (k, v, inl (rw (at, issued) h))
    | inr h ↦
        let (addr, some_addr, below) = edram_addr-some sz_block b e (omega (arith, v.capacity)) in
        elim (Bool-cases (will_accept_transaction b)) [
          | inl l ↦
              rw (at, h, some_addr, l, issue_edram)
                (issue_edram-EdramOf fuel id (start_edram_trans id addr c e)
                  (add_transaction b addr) (issue_trans e) p
                  (get_elem?-set_self c.store id (issue_trans e) (get_elem?-lt c.store id at))
                  (omega arith) (Kept-start_edram_trans id addr n c e queue tmps at h k)
                  (Bounded-add cap addr b (omega (arith, v.capacity)) l v))
          | inr l ↦ rw (at, h, some_addr, l, issue_edram) (k, v, inr l)
        ]
  ]

  pub issue_tmps-ends :
      (ids : List ℕ) (c : Coordinator) (b : AggrBuf)
      → 0 < cap
      → All (λ id. id < n) ids
      → Kept queue n tmps c
      → Bounded cap b
      → (c' : Coordinator) × (b' : AggrBuf) × (issue_tmps sz_block ids c b ≡ some (c', b'))
        × Bounded cap b'
  unfolding issue_tmps
  issue_tmps-ends [] c b p a k v = (record c { tmps = [] }, b, refl, v)
  issue_tmps-ends (id ∷ rest) c b p a k v =
      let (e, at) = get_elem?_of_lt c.store id (omega (arith, a.0, k.stored)) in
      let w = issue_edram-EdramOf (fuel_of c id) id c b e p at (fuel_of-enough c id at) k v in
      elim (Option-cases (issue_edram sz_block (fuel_of c id) id c b)) [
        | inl none_left ↦ absurd (subst (EdramOf queue n tmps cap id) none_left w)
        | inr ((c', b'), run) ↦
            let (k', v', ended) = subst (EdramOf queue n tmps cap id) run w in
            elim (Bool-cases (will_accept_transaction b')) [
              | inr h ↦ (
                record c' { tmps = if issued c' id then rest else id ∷ rest },
                b',
                rw (run, h, issue_tmps) refl,
                v',
              )
              | inl h ↦
                  let all_issued : issued c' id ≡ true = ground (arith, ended, h) in
                  let (c'', b'', run', last) = issue_tmps-ends rest c' b' p a.1 k' v' in
                  (c'', b'', rw (run, h, all_issued, run', issue_tmps) refl, last)
            ]
      ]
