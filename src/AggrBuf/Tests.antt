-- ===== src/AggrBuf/Tests.antt =====
-- The theorems on the aggregation buffer at concrete rings.
use hy_gcn_a_gcn_accelerator.Base.{◌*◌, ◌≡◌, ◌<◌, refl, arith, true, false, some, [], ◌∷◌}
use hy_gcn_a_gcn_accelerator.AggrBuf.{
  AggrBuf, new, start_aggr, confirm_aggr, will_allocate, clock_tick,
}
use hy_gcn_a_gcn_accelerator.AggrBuf.Pointers.{
  Inv, here, next, starts_aggr, confirms_aggr, Reach-new-Inv,
}
use hy_gcn_a_gcn_accelerator.AggrBuf.Space.{will_allocate-inverted}
use hy_gcn_a_gcn_accelerator.AggrBuf.Ports.{note, offer, clock_tick-offer}

-- A ring of 64 bytes for vertices of 16 bytes, of which the last three wait.
abbrev ring : AggrBuf
ring = record {
  trans = [];
  aggr_ptr = record { vertex = 5; offset = 16 };
  ready_ptr = record { vertex = 3; offset = 48 };
  comb_ptr = record { vertex = 2; offset = 32 };
  done_ptr = record { vertex = 2; offset = 32 };
  sz_aggr_vector = 16;
  sz_block = 8;
  cap_edram = 64;
}

abbrev drained : AggrBuf
drained = record ring { aggr_ptr = ring.done_ptr }

Reach-new-Inv_example : Inv (confirm_aggr (start_aggr (new 64 16 8) 3) 2)
unfolding new start_aggr confirm_aggr
Reach-new-Inv_example =
    Reach-new-Inv 64 16 8 (omega arith) (omega arith)
      (next (next here (starts_aggr _ 3 (omega arith))) (confirms_aggr _ 2 (omega arith)))

-- Three vertices are held and two more accepted, where one would fit.
will_allocate-inverted_example :
    (2 * 16 < 48 → will_allocate ring 2 ≡ true) × (48 < 2 * 16 → will_allocate ring 2 ≡ false)
will_allocate-inverted_example =
    will_allocate-inverted ring 48 2 (omega arith) (omega arith) (omega arith)

clock_tick-offer_example :
    clock_tick note (offer ring (7 ∷ 8 ∷ 9 ∷ [])) [] ≡ some (record ring { trans = [] }, 7 ∷ 8 ∷ [])
clock_tick-offer_example = clock_tick-offer ring (7 ∷ 8 ∷ 9 ∷ []) refl
