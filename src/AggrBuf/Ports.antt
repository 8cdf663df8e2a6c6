-- ===== src/AggrBuf/Ports.antt =====
-- aggr_buf.h, `AddTransaction`, `WillAcceptTransaction` and `ClockTick`: the two ports of a cycle.
use mathlib.Core.List.{append_assoc, append-nil}
use hy_gcn_a_gcn_accelerator.Base.{
  ℕ, ◌≤◌, ◌≡◌, refl, sym, ap, ◌∙◌, Option, some, List, [], ◌∷◌, ◌++◌, arith, length, if◌then◌else◌,
  take,
}
use hy_gcn_a_gcn_accelerator.AggrBuf.{
  AggrBuf, will_accept_transaction, add_transaction, drain, clock_tick,
}

-- A client that asks before it adds, as `Coordinator::IssueEvent` does, offers addresses in turn.
pub offer : AggrBuf → List ℕ → AggrBuf
offer b [] = b
offer b (addr ∷ addrs) =
    offer (if will_accept_transaction b then add_transaction b addr else b) addrs

-- A callback that notes what it is called with.
abbrev pub note : ℕ → List ℕ → Option (List ℕ)
note addr seen = some (seen ++ (addr ∷ []))

drain-note : (trans seen : List ℕ) → drain note trans seen ≡ some (seen ++ trans)
unfolding drain
drain-note [] seen = ap some (sym (append-nil seen))
drain-note (x ∷ xs) seen =
    drain-note xs (seen ++ (x ∷ [])) ∙ ap some (append_assoc seen (x ∷ []) xs)

offer-full : (b : AggrBuf) (addrs : List ℕ) → 2 ≤ length b.trans → offer b addrs ≡ b
unfolding offer will_accept_transaction
offer-full b [] h = refl
offer-full b (x ∷ xs) h = ground (arith, offer-full b xs)

-- Of the addresses that are offered between two ticks the first two are taken, and the next tick
-- calls back with just these, oldest first, and leaves the queue empty.
pub clock_tick-offer :
    (b : AggrBuf) (addrs : List ℕ)
    → b.trans ≡ []
    → clock_tick note (offer b addrs) [] ≡ some (record b { trans = [] }, take 2 addrs)
unfolding clock_tick offer will_accept_transaction add_transaction
clock_tick-offer b [] e = ground (arith, drain-note b.trans [])
clock_tick-offer b (x ∷ []) e = ground (arith, drain-note (b.trans ++ (x ∷ [])) [])
clock_tick-offer b (x ∷ y ∷ addrs) e =
    ground (arith, drain-note (x ∷ y ∷ []) [], offer-full (record b { trans = x ∷ y ∷ [] }) addrs)
