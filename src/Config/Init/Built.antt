-- ===== src/Config/Init/Built.antt =====
-- config.cpp: the tiling and the layout of the memory that a configuration holds are those of its layer.
use hy_gcn_a_gcn_accelerator.Base.{
  ℕ, ◌+◌, ◌≡◌, ap, subst, ◌∙◌, inl, inr, Option, none, some, ◌==◌, check, minus_one, Bool-cases,
  Option-cases, >>=-eq-some, some-eq,
}
use hy_gcn_a_gcn_accelerator.Graph.{Graph}
use hy_gcn_a_gcn_accelerator.Graph.Load.{load_graph}
use hy_gcn_a_gcn_accelerator.Config.{
  Reader, SysConfig, LayerConfig, TileConfig, new_tile_config, read_sys, positive,
}
use hy_gcn_a_gcn_accelerator.Config.Mapper.{AddrMapper, new_mapper}
use hy_gcn_a_gcn_accelerator.Config.Layers.{
  HyConfig, read_layer, prepare_next_layer, layer_name, layer_weights,
}
use hy_gcn_a_gcn_accelerator.Config.Init.{Files, model_of, prepare_graph, init, next_layer}

-- A layer with its own tiling and layout.
abbrev BuiltOf : SysConfig → Graph → Option (LayerConfig × TileConfig × AddrMapper) → Type 0
BuiltOf sys graph none = Unit
BuiltOf sys graph (some (layer, tile, mapper)) =
    (new_tile_config sys layer graph.num_vertex ≡ some tile)
    × (new_mapper sys layer tile graph.num_vertex graph.r_adj ≡ some mapper)

pub record IsBuilt (hy : HyConfig) : Type 0 where
  pub tiled :
      new_tile_config hy.sys_config hy.layer_config hy.raw_graph.num_vertex ≡ some hy.tile_config
  pub mapped :
      new_mapper hy.sys_config hy.layer_config hy.tile_config hy.raw_graph.num_vertex
        hy.raw_graph.r_adj
      ≡ some hy.mapper

prepare_next_layer-BuiltOf :
    (reader : Reader) (sys : SysConfig) (layer : LayerConfig) (graph : Graph)
    {next : Option (LayerConfig × TileConfig × AddrMapper)}
    → prepare_next_layer reader sys layer graph ≡ some next
    → BuiltOf sys graph next
unfolding prepare_next_layer
prepare_next_layer-BuiltOf reader sys layer graph e =
    elim (Bool-cases (layer.layers_done == layer.num_layer)) [
      | inl t ↦ subst (BuiltOf sys graph) (some-eq (rw (t, prepare_next_layer) at e)) tt
      | inr t ↦
          let e₀ = rw (t, prepare_next_layer) at e in
          let (_, _, e₁) = >>=-eq-some (check (layer.num_layer == 2)) _ e₀ in
          let (name, _, e₂) = >>=-eq-some (layer_name layer.layers_done) _ e₁ in
          let (h, _, e₃) = >>=-eq-some (positive (reader name "weight_h" minus_one)) _ e₂ in
          let (w, _, e₄) = >>=-eq-some (positive (reader name "weight_w" minus_one)) _ e₃ in
          let weights =
            layer_weights layer.model_name graph layer.num_layer layer.layers_done h w in
          let layer' : LayerConfig = record layer {
            weight_h = weights.0;
            weight_w = weights.1;
            layers_done = layer.layers_done + 1;
          } in
          let (tile, tiled, e₅) = >>=-eq-some (new_tile_config sys layer' graph.num_vertex) _ e₄ in
          let (mapper, mapped, e₆) =
            >>=-eq-some (new_mapper sys layer' tile graph.num_vertex graph.r_adj) _ e₅ in
          subst (BuiltOf sys graph) (some-eq {0} {a = some (layer', tile, mapper)} e₆)
            (tiled, mapped)
    ]

-- What `Init` leaves.
pub init-IsBuilt :
    (files : Files) (junk_h junk_w : ℕ) {hy : HyConfig}
    → init files junk_h junk_w ≡ some hy
    → IsBuilt hy
unfolding init
init-IsBuilt files junk_h junk_w e =
    let (sys, _, e₁) = >>=-eq-some (read_sys files.sys_reader) _ e in
    let (model, _, e₂) = >>=-eq-some (model_of files.model_name) _ e₁ in
    let (layer, _, e₃) = >>=-eq-some (read_layer files.layer_reader model junk_h junk_w) _ e₂ in
    let (raw, _, e₄) =
      >>=-eq-some (load_graph files.graph_name files.graph_info files.graph_edge) _ e₃ in
    let (graph, _, e₅) =
      >>=-eq-some (prepare_graph model layer.sample raw files.sample_edge) _ e₄ in
    let (first, next, e₆) =
      >>=-eq-some (prepare_next_layer files.layer_reader sys layer graph) _ e₅ in
    let ((layer', tile, mapper), is_first, e₇) = >>=-eq-some first _ e₆ in
    let (tiled, mapped) =
      prepare_next_layer-BuiltOf files.layer_reader sys layer graph (next ∙ ap some is_first) in
    subst IsBuilt (some-eq e₇) (record { tiled = tiled; mapped = mapped })

-- What `PrepareNextLayer` leaves.
pub next_layer-IsBuilt :
    (reader : Reader) (hy : HyConfig) {hy' : HyConfig}
    → next_layer reader hy ≡ some (some hy')
    → IsBuilt hy'
unfolding next_layer
next_layer-IsBuilt reader hy {hy'} e =
    let (next, run, e₁) =
      >>=-eq-some (prepare_next_layer reader hy.sys_config hy.layer_config hy.raw_graph) _ e in
    let built = prepare_next_layer-BuiltOf reader hy.sys_config hy.layer_config hy.raw_graph run in
    elim (Option-cases next) [
      | inl n ↦ let e₂ = some-eq (rw n at e₁) in cc
      | inr ((layer, tile, mapper), n) ↦
          let (tiled, mapped) = subst (BuiltOf hy.sys_config hy.raw_graph) n built in
          subst IsBuilt (some-eq (some-eq (rw n at e₁))) (record { tiled = tiled; mapped = mapped })
    ]
