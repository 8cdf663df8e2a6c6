-- ===== src/Driver/Tests.antt =====
-- The layers of a small run, over a DRAM that takes everything and never answers.
use hy_gcn_a_gcn_accelerator.Base.{ℕ, ◌≡◌, true, none, List, [], ◌∷◌, ◌++◌, refl, map}
use hy_gcn_a_gcn_accelerator.Coordinator.{DramSystem}
use hy_gcn_a_gcn_accelerator.Config.Init.Tests.{files, layer_reader, first_layer, starts}
use hy_gcn_a_gcn_accelerator.Text.{codes}
use hy_gcn_a_gcn_accelerator.Text.Table.{table, is_plain}
use hy_gcn_a_gcn_accelerator.HyRec.{HyRec, Energies, zeros}
use hy_gcn_a_gcn_accelerator.Driver.Dump.{dump, columns, rows_of, table-dump}
use hy_gcn_a_gcn_accelerator.Driver.{Fresh, run_layer, run_layers, both_layers, run_layers-two}

abbrev silent : DramSystem
silent = record {
  State = ℕ;
  will_accept = λ s addr w. true;
  add = λ s addr w. s;
  tick = λ s. (s, []);
  stats = λ s. [];
}

abbrev fresh : ℕ → Fresh silent
fresh count = record {
  dram_state = 0;
  binding = record {
    cur_inbuf = none;
    cur_outbuf = none;
    cur_wbuf = none;
    input_chunk = 0;
    output_chunk = 0;
  };
  tiling = record {
    a = record { h = 0; w = 0 };
    w = record { h = 0; w = 0 };
    sz_output = 0;
    ele_h_tile = 0;
    ele_w_tile = 0;
    ele_batch = 0;
    ele_last_batch = 0;
    num_h_tile = 0;
    num_w_tile = 0;
    num_batch = 0;
    h_tile_cnt = 0;
    w_tile_cnt = 0;
    batch_cnt = 0;
  };
  junk = 0;
}

run_layers-two_example :
    run_layers silent layer_reader fresh 1000 5 first_layer
    ≡ both_layers (run_layer silent layer_reader fresh 1000) layer_reader first_layer
run_layers-two_example = run_layers-two silent files fresh 1000 0 0 3 starts

-- Two records of a run of the model gcn on the graph cora.
abbrev two_records : List (HyRec × Energies)
two_records =
    (
      record zeros { finish_time = 120; dram_edge_read = 64 },
      record {
        dram_energy = codes "1.5e+06";
        dram_dynamic_energy = codes "1e+06";
        dram_standby_energy = codes "500000";
      },
    )
    ∷ (
      record zeros { finish_time = 45 },
      record {
        dram_energy = codes "0";
        dram_dynamic_energy = codes "0";
        dram_standby_energy = codes "0";
      },
    )
    ∷ []

table-dump_example :
    let file = dump two_records (codes "res") (codes "gcn") (codes "cora") in
    (file.0 ≡ codes "res/gcn_cora.csv")
    × (table file.1
        ≡ (codes "name" ∷ codes "layer" ∷ map (λ c. c.0) columns)
          ∷ (rows_of (codes "gcn_cora") 0 two_records ++ (([] ∷ []) ∷ [])))
unfolding is_plain
table-dump_example =
    table-dump two_records (codes "res") (codes "gcn") (codes "cora") refl refl
      ((refl, refl, refl), ((refl, refl, refl), tt))
