-- ===== src/Comb/Script.antt =====
-- comb.cpp: a run of the combination engine by a list of what is done to it.
use hy_gcn_a_gcn_accelerator.Base.{
  ◌≡◌, subst, Option, some, List, [], ◌∷◌, some-eq, >>=-eq-some, ◌>>=◌,
}
use hy_gcn_a_gcn_accelerator.Event.{EventDataType}
use hy_gcn_a_gcn_accelerator.Config.Layers.{HyConfig}
use hy_gcn_a_gcn_accelerator.Comb.{World, process_returned_event}
use hy_gcn_a_gcn_accelerator.Comb.Cycle.{clock_tick}
use hy_gcn_a_gcn_accelerator.Comb.Reach.{Reach, next, ticks, returns}

pub data Act : Type 0 where
  tick : Act
  answer : EventDataType → Act

unfoldable pub play : HyConfig → List Act → World → Option World
play hy [] w = some w
play hy (tick ∷ acts) w = clock_tick hy w >>= play hy acts
play hy (answer t ∷ acts) w =
    process_returned_event t w.comb >>= λ c. play hy acts (record w { comb = c })

-- A list that is played to its end leads to a state that the engine reaches.
pub play-Reach :
    (hy : HyConfig) (acts : List Act) (w : World) {w' : World}
    → Reach hy w
    → play hy acts w ≡ some w'
    → Reach hy w'
unfolding play
play-Reach hy [] w r e = subst (Reach hy) (some-eq e) r
play-Reach hy (tick ∷ acts) w r e =
    let (v, f, e') = >>=-eq-some (clock_tick hy w) _ e in
    play-Reach hy acts v (next w v r (ticks w v f)) e'
play-Reach hy (answer t ∷ acts) w r e =
    let (c, f, e') = >>=-eq-some (process_returned_event t w.comb) _ e in
    let v : World = record w { comb = c } in play-Reach hy acts v (next w v r (returns w t c f)) e'
