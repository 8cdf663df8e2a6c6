-- ===== src/Config/Init/Prepared.antt =====
-- config.cpp: what `Init` and `PrepareNextLayer` leave.
use hy_gcn_a_gcn_accelerator.Base.{
  ℕ, ◌+◌, ◌≡◌, ◌≢◌, pos, ltb_ℤ, not, ◌||◌, refl, ap, sym, subst, ◌∙◌, inl, inr, Option, none, some,
  arith, ◌==◌, check, minus_one, Bool-cases, >>=-eq-some, some-eq,
}
use hy_gcn_a_gcn_accelerator.Graph.{Graph}
use hy_gcn_a_gcn_accelerator.Graph.Load.{load_graph}
use hy_gcn_a_gcn_accelerator.Config.{
  Reader, SysConfig, LayerConfig, TileConfig, Model, new_tile_config, read_sys, positive,
}
use hy_gcn_a_gcn_accelerator.Config.Mapper.{AddrMapper, new_mapper}
use hy_gcn_a_gcn_accelerator.Config.Layers.{
  HyConfig, read_layer, is_gs, prepare_next_layer, layer_name, layer_weights,
}
use hy_gcn_a_gcn_accelerator.Config.Init.{Files, model_of, prepare_graph, init}

-- A layer that `PrepareNextLayer` made of another.
pub record IsNextLayer (layer layer' : LayerConfig) : Type 0 where
  pub two : layer.num_layer ≡ 2
  pub open_layer : layer.layers_done ≢ layer.num_layer
  pub one_more : layer'.layers_done ≡ layer.layers_done + 1
  pub same_number : layer'.num_layer ≡ layer.num_layer
  pub same_model : layer'.model_name ≡ layer.model_name

-- What `PrepareNextLayer` gives: nothing after the last layer, and else the next one.
abbrev pub NextOf : LayerConfig → Option (LayerConfig × TileConfig × AddrMapper) → Type 0
NextOf layer none = layer.layers_done ≡ layer.num_layer
NextOf layer (some (layer', tile, mapper)) = IsNextLayer layer layer'

pub prepare_next_layer-NextOf :
    (reader : Reader) (sys : SysConfig) (layer : LayerConfig) (graph : Graph)
    {next : Option (LayerConfig × TileConfig × AddrMapper)}
    → prepare_next_layer reader sys layer graph ≡ some next
    → NextOf layer next
unfolding prepare_next_layer
prepare_next_layer-NextOf reader sys layer graph e =
    elim (Bool-cases (layer.layers_done == layer.num_layer)) [
      | inl t ↦
          let e₀ = rw (t, prepare_next_layer) at e in
          subst (NextOf layer) (some-eq e₀) (ground (arith, t))
      | inr t ↦
          let e₀ = rw (t, prepare_next_layer) at e in
          let (_, two, e₁) = >>=-eq-some (check (layer.num_layer == 2)) _ e₀ in
          let (name, _, e₂) = >>=-eq-some (layer_name layer.layers_done) _ e₁ in
          let (h, _, e₃) = >>=-eq-some (positive (reader name "weight_h" minus_one)) _ e₂ in
          let (w, _, e₄) = >>=-eq-some (positive (reader name "weight_w" minus_one)) _ e₃ in
          let weights =
            layer_weights layer.model_name graph layer.num_layer layer.layers_done h w in
          let layer' : LayerConfig = record layer {
            weight_h = weights.0;
            weight_w = weights.1;
            layers_done = layer.layers_done + 1;
          } in
          let (tile, _, e₅) = >>=-eq-some (new_tile_config sys layer' graph.num_vertex) _ e₄ in
          let (mapper, _, e₆) =
            >>=-eq-some (new_mapper sys layer' tile graph.num_vertex graph.r_adj) _ e₅ in
          let is_next : IsNextLayer layer layer' = record {
            two = ground (arith, two);
            open_layer = ground (arith, t);
            one_more = refl;
            same_number = refl;
            same_model = refl;
          } in
          subst (NextOf layer) (some-eq {0} {a = some (layer', tile, mapper)} e₆) is_next
    ]

-- A layer configuration as it is read.
read_layer-fresh :
    (reader : Reader) (model : Model) (h w : ℕ) {layer : LayerConfig}
    → read_layer reader model h w ≡ some layer
    → (layer.layers_done ≡ 0) × (layer.model_name ≡ model)
unfolding read_layer
read_layer-fresh reader model h w e =
    let sample = reader "gcn" "sample" minus_one in
    let (_, _, e₁) = >>=-eq-some (check (not (is_gs model) || ltb_ℤ (pos 0) sample)) _ e in
    let (num_layer, _, e₂) = >>=-eq-some (positive (reader "gcn" "num_layer" minus_one)) _ e₁ in
    let (data_bytes, _, e₃) = >>=-eq-some (positive (reader "gcn" "data_bytes" minus_one)) _ e₂ in
    let (idx_bytes, _, e₄) = >>=-eq-some (positive (reader "gcn" "idx_bytes" minus_one)) _ e₃ in
    let made = some-eq e₄ in
    (
      sym (ap (λ (l : LayerConfig). l.layers_done) made),
      sym (ap (λ (l : LayerConfig). l.model_name) made),
    )

-- What a successful `Init` did.
pub record InitOf (files : Files) (hy : HyConfig) : Type 0 where
  pub layer : LayerConfig
  pub raw : Graph
  pub loaded : load_graph files.graph_name files.graph_info files.graph_edge ≡ some raw
  pub graph : prepare_graph layer.model_name layer.sample raw files.sample_edge ≡ some hy.raw_graph
  pub fresh : layer.layers_done ≡ 0
  pub first : IsNextLayer layer hy.layer_config

pub init-InitOf :
    (files : Files) (junk_h junk_w : ℕ) {hy : HyConfig}
    → init files junk_h junk_w ≡ some hy
    → InitOf files hy
unfolding init
init-InitOf files junk_h junk_w e =
    let (sys, _, e₁) = >>=-eq-some (read_sys files.sys_reader) _ e in
    let (model, _, e₂) = >>=-eq-some (model_of files.model_name) _ e₁ in
    let (layer, read, e₃) = >>=-eq-some (read_layer files.layer_reader model junk_h junk_w) _ e₂ in
    let (raw, loaded, e₄) =
      >>=-eq-some (load_graph files.graph_name files.graph_info files.graph_edge) _ e₃ in
    let (graph, made, e₅) =
      >>=-eq-some (prepare_graph model layer.sample raw files.sample_edge) _ e₄ in
    let (first, next, e₆) =
      >>=-eq-some (prepare_next_layer files.layer_reader sys layer graph) _ e₅ in
    let ((layer', tile, mapper), is_first, e₇) = >>=-eq-some first _ e₆ in
    let (fresh, same) = read_layer-fresh files.layer_reader model junk_h junk_w read in
    let config : HyConfig = record {
      sys_config = sys;
      layer_config = layer';
      raw_graph = graph;
      tile_config = tile;
      mapper = mapper;
    } in
    let built : InitOf files config = record {
      layer = layer;
      raw = raw;
      loaded = loaded;
      graph =
          subst (λ m. prepare_graph m layer.sample raw files.sample_edge ≡ some graph) (sym same)
            made;
      fresh = fresh;
      first =
          prepare_next_layer-NextOf files.layer_reader sys layer graph (next ∙ ap some is_first);
    } in
    subst (InitOf files) (some-eq e₇) built
