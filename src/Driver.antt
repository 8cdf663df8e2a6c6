-- ===== src/Driver.antt =====
-- hygcn_test/test.cpp, `main`: one model on one graph, layer after layer. The names of the models and
-- graphs that it goes through, the output and the time it takes are left out.
pub mod Dump
mod Tests
use hy_gcn_a_gcn_accelerator.Base.{
  ℕ, zero, suc, ◌≡◌, ◌≢◌, refl, ap, ◌∙◌, inl, inr, Option, none, some, List, [], ◌∷◌, ◌>>=◌, length,
  Option-cases,
}
use hy_gcn_a_gcn_accelerator.Coordinator.{DramSystem}
use hy_gcn_a_gcn_accelerator.SystolicArray.{Binding, Tiling}
use hy_gcn_a_gcn_accelerator.Config.{Reader}
use hy_gcn_a_gcn_accelerator.Config.Layers.{HyConfig}
use hy_gcn_a_gcn_accelerator.Config.Init.{Files, init, next_layer}
use hy_gcn_a_gcn_accelerator.Config.Init.Runs.{init-more, init-next_layer}
use hy_gcn_a_gcn_accelerator.HyRec.{HyRec}
use hy_gcn_a_gcn_accelerator.HyGcn
use hy_gcn_a_gcn_accelerator.HyGcn.Record.{record_run}

-- The state of a fresh DRAM, and what other constructors of an accelerator leave uninitialised.
pub record Fresh (dram : DramSystem) : Type 0 where
  pub dram_state : dram.State
  pub binding : Binding
  pub tiling : Tiling
  pub junk : ℕ

module _ (dram : DramSystem) (reader : Reader) (fresh : ℕ → Fresh dram) (cycles : ℕ) where
  -- The body of the loop: an accelerator for the layer that is prepared, for at most `cycles` cycles.
  unfoldable pub run_layer : HyConfig → Option HyRec
  run_layer hy =
      let f = fresh hy.layer_config.layers_done in
      HyGcn.run dram cycles hy (HyGcn.new dram hy f.dram_state f.binding f.tiling f.junk) >>= λ h.
      some (record_run dram h)

  -- The `do` loop, for at most `fuel` layers: the records of the layers.
  unfoldable pub run_layers : ℕ → HyConfig → Option (List HyRec)
  run_layers zero hy = none
  run_layers (suc fuel) hy = elim (run_layer hy) [
    | none ↦ none
    | some hyrec ↦ elim (next_layer reader hy) [
      | none ↦ none
      | some next ↦ elim next [
        | none ↦ some (hyrec ∷ [])
        | some hy' ↦ elim (run_layers fuel hy') [
          | none ↦ none
          | some records ↦ some (hyrec ∷ records)
        ]
      ]
    ]
  ]

  -- The last layer needs one round.
  run_layers-last :
      (n : ℕ) (hy : HyConfig)
      → next_layer reader hy ≡ some none
      → run_layers (suc n) hy ≡ (run_layer hy >>= λ hyrec. some (hyrec ∷ []))
  unfolding run_layers
  run_layers-last n hy last = elim (Option-cases (run_layer hy)) [
    | inl e ↦ rw (e, run_layers) refl
    | inr (hyrec, e) ↦ rw (e, last, run_layers) refl
  ]

-- The records of two layers, each by its own run.
abbrev pub both_layers : (HyConfig → Option HyRec) → Reader → HyConfig → Option (List HyRec)
both_layers layer reader hy = do
  hyrec ← layer hy
  next ← next_layer reader hy
  hy' ← next
  hyrec' ← layer hy'
  some (hyrec ∷ hyrec' ∷ [])

-- For a configuration that `Init` made, the loop over the layers is the run of two layers one after the
-- other, the second one prepared by `PrepareNextLayer`: two rounds are enough, and it gives two
-- records or none.
pub run_layers-two :
    (dram : DramSystem) (files : Files) (fresh : ℕ → Fresh dram) (cycles junk_h junk_w n : ℕ)
    {hy : HyConfig}
    → init files junk_h junk_w ≡ some hy
    → run_layers dram files.layer_reader fresh cycles (suc (suc n)) hy
      ≡ both_layers (run_layer dram files.layer_reader fresh cycles) files.layer_reader hy
unfolding run_layers
run_layers-two dram files fresh cycles junk_h junk_w n {hy} e =
    let reader = files.layer_reader in
    let layer = run_layer dram reader fresh cycles in
    elim (Option-cases (layer hy)) [
      | inl a ↦ rw (a, run_layers) refl
      | inr (hyrec, a) ↦ elim (Option-cases (next_layer reader hy)) [
        | inl b ↦ rw (a, b, run_layers) refl
        | inr (next, b) ↦ elim (Option-cases next) [
          | inl c ↦ absurd (init-more files junk_h junk_w e (b ∙ ap some c))
          | inr (hy', c) ↦
              let (_, _, _, last) = init-next_layer files junk_h junk_w e (b ∙ ap some c) in
              elim (Option-cases (layer hy')) [
                | inl d ↦
                    rw (a, b, c, run_layers, run_layers-last dram reader fresh cycles n hy' last, d)
                      refl
                | inr (hyrec', d) ↦
                    rw (a, b, c, run_layers, run_layers-last dram reader fresh cycles n hy' last, d)
                      refl
              ]
        ]
      ]
    ]
