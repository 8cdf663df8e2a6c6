-- ===== src/Config/Init/Runs.antt =====
-- config.cpp: the graph of a run and its two layers.
use hy_gcn_a_gcn_accelerator.Base.{
  ℕ, ◌≡◌, ◌≢◌, ℤ, refl, sym, subst, ◌∙◌, inl, inr, true, Option, none, some, List, arith, ◌==◌,
  length, get_elem?, sum_by, Option-cases, >>=-eq-some, some-eq,
}
use hy_gcn_a_gcn_accelerator.Text.{Text}
use hy_gcn_a_gcn_accelerator.Graph.{Graph, get_gcn_norm_graph}
use hy_gcn_a_gcn_accelerator.Graph.Load.{load_graph}
use hy_gcn_a_gcn_accelerator.Graph.Loaded.{load_graph-IsGraph}
use hy_gcn_a_gcn_accelerator.Graph.Norm.{IsNormal, get_gcn_norm_graph-IsNormal}
use hy_gcn_a_gcn_accelerator.Config.{Reader, Model, gcn, gin, gs}
use hy_gcn_a_gcn_accelerator.Config.Layers.{HyConfig, prepare_next_layer}
use hy_gcn_a_gcn_accelerator.Config.Init.{Files, prepare_graph, init, next_layer}
use hy_gcn_a_gcn_accelerator.Config.Init.Prepared.{
  IsNextLayer, NextOf, prepare_next_layer-NextOf, init-InitOf,
}

prepare_graph-norm :
    (model : Model) (sample : ℤ) (raw : Graph) (file : Option (List Text))
    → model ≢ gs
    → prepare_graph model sample raw file ≡ get_gcn_norm_graph raw
unfolding prepare_graph
prepare_graph-norm gcn sample raw file n = refl
prepare_graph-norm gin sample raw file n = refl
prepare_graph-norm gs sample raw file n = absurd (n refl)

-- The graph of a configuration that `Init` made for a model other than `gs` is the normal form of the
-- loaded graph: it has a row for each vertex, which holds, in ascending order and once each, the
-- vertex and its sources in the file, and its edge count is the number of all entries.
pub init-IsNormal :
    (files : Files) (junk_h junk_w : ℕ) {hy : HyConfig}
    → init files junk_h junk_w ≡ some hy
    → hy.layer_config.model_name ≢ gs
    → (raw : Graph) × (load_graph files.graph_name files.graph_info files.graph_edge ≡ some raw)
      × (length hy.raw_graph.r_adj ≡ raw.num_vertex)
      × (hy.raw_graph.num_edge ≡ sum_by length hy.raw_graph.r_adj)
      × ((v : ℕ) (row : List ℕ)
          → get_elem? raw.r_adj v ≡ some row
          → (normal : List ℕ) × (get_elem? hy.raw_graph.r_adj v ≡ some normal)
            × IsNormal v row normal)
init-IsNormal files junk_h junk_w {hy} e not_gs =
    let w = init-InitOf files junk_h junk_w e in
    let (_, _, _, _, _, is_graph) =
      load_graph-IsGraph files.graph_name files.graph_info files.graph_edge w.loaded in
    let (h, made, long, count, rows) = get_gcn_norm_graph-IsNormal w.raw is_graph.num_r_rows in
    let norm =
      prepare_graph-norm w.layer.model_name w.layer.sample w.raw files.sample_edge
        (λ p. not_gs (w.first.same_model ∙ p)) in
    let same : h ≡ hy.raw_graph = some-eq (sym made ∙ sym norm ∙ w.graph) in
    let (long', count', rows') =
      subst
        (λ (g : Graph).
          (length g.r_adj ≡ w.raw.num_vertex)
          × (g.num_edge ≡ sum_by length g.r_adj)
          × ((v : ℕ) (row : List ℕ)
              → get_elem? w.raw.r_adj v ≡ some row
              → (normal : List ℕ) × (get_elem? g.r_adj v ≡ some normal) × IsNormal v row normal))
        same (long, count, rows) in
    (w.raw, w.loaded, long', count', rows')

-- The same of a configuration.
abbrev NextConfig : HyConfig → Option HyConfig → Type 0
NextConfig hy none = hy.layer_config.layers_done ≡ hy.layer_config.num_layer
NextConfig hy (some hy') =
    IsNextLayer hy.layer_config hy'.layer_config × (hy'.raw_graph ≡ hy.raw_graph)

next_layer-NextConfig :
    (reader : Reader) (hy : HyConfig) {next : Option HyConfig}
    → next_layer reader hy ≡ some next
    → NextConfig hy next
unfolding next_layer
next_layer-NextConfig reader hy e =
    let (next, run, e') =
      >>=-eq-some (prepare_next_layer reader hy.sys_config hy.layer_config hy.raw_graph) _ e in
    let w = prepare_next_layer-NextOf reader hy.sys_config hy.layer_config hy.raw_graph run in
    elim (Option-cases next) [
      | inl n ↦ subst (NextConfig hy) (some-eq (rw n at e')) (subst (NextOf hy.layer_config) n w)
      | inr ((layer, tile, mapper), n) ↦
          subst (NextConfig hy) (some-eq (rw n at e')) (subst (NextOf hy.layer_config) n w, refl)
    ]

next_layer-last :
    (reader : Reader) (hy : HyConfig)
    → hy.layer_config.layers_done ≡ hy.layer_config.num_layer
    → next_layer reader hy ≡ some none
unfolding next_layer prepare_next_layer
next_layer-last reader hy e =
    let t : (hy.layer_config.layers_done == hy.layer_config.num_layer) ≡ true = ground (arith, e) in
    rw (t, prepare_next_layer) refl

-- After `Init`, one layer is prepared and another is not.
pub init-more :
    (files : Files) (junk_h junk_w : ℕ) {hy : HyConfig}
    → init files junk_h junk_w ≡ some hy
    → next_layer files.layer_reader hy ≢ some none
init-more files junk_h junk_w {hy} e none_left =
    let w = init-InitOf files junk_h junk_w e in
    let done = next_layer-NextConfig files.layer_reader hy none_left in
    absurd (omega (arith, done, w.first.one_more, w.fresh, w.first.same_number, w.first.two))

-- A run has two layers, of the same graph: where `Init` succeeds and `PrepareNextLayer` gives a further
-- layer, it is the second one of two, and the next call gives none.
pub init-next_layer :
    (files : Files) (junk_h junk_w : ℕ) {hy hy' : HyConfig}
    → init files junk_h junk_w ≡ some hy
    → next_layer files.layer_reader hy ≡ some (some hy')
    → (hy.layer_config.layers_done ≡ 1)
      × (hy'.layer_config.layers_done ≡ 2)
      × (hy'.raw_graph ≡ hy.raw_graph)
      × (next_layer files.layer_reader hy' ≡ some none)
init-next_layer files junk_h junk_w {hy} {hy'} e e' =
    let w = init-InitOf files junk_h junk_w e in
    let (n, same) = next_layer-NextConfig files.layer_reader hy e' in
    let one : hy.layer_config.layers_done ≡ 1 = omega (arith, w.first.one_more, w.fresh) in
    let two : hy'.layer_config.layers_done ≡ 2 = omega (arith, n.one_more, one) in
    (
      one,
      two,
      same,
      next_layer-last files.layer_reader hy' (omega (arith, two, n.same_number, n.two)),
    )
