-- ===== src/Config/Layers.antt =====
-- config.cpp, `LayerConfig` and `HyConfig`: the file of a model, and the step from one layer to the
-- next, which tiles the weights and lays out the memory anew.
use Prim.Native.String.{String}
use hy_gcn_a_gcn_accelerator.Base.{
  ℕ, zero, suc, ◌+◌, ◌*◌, ◌/◌, Bool, true, false, Option, none, some, pos, minus_one, ltb_ℤ, ◌==◌,
  not, ◌||◌, if◌then◌else◌, ◌>>=◌, ◌>>◌, check,
}
use hy_gcn_a_gcn_accelerator.Graph.{Graph}
use hy_gcn_a_gcn_accelerator.Config.{
  Reader, SysConfig, Model, gin, gs, LayerConfig, TileConfig, positive, new_tile_config,
}
use hy_gcn_a_gcn_accelerator.Config.Mapper.{AddrMapper, new_mapper}

abbrev pub is_gin : Model → Bool
is_gin gin = true
is_gin _ = false

abbrev pub is_gs : Model → Bool
is_gs gs = true
is_gs _ = false

-- The constructor of `LayerConfig`. The name of the model is read by the caller. The weights, which
-- it leaves uninitialised, are arguments.
unfoldable pub read_layer : Reader → Model → ℕ → ℕ → Option LayerConfig
unfolding positive
read_layer reader model_name junk_h junk_w = do
  let sample = reader "gcn" "sample" minus_one
  check (not (is_gs model_name) || ltb_ℤ (pos 0) sample)
  num_layer ← positive (reader "gcn" "num_layer" minus_one)
  data_bytes ← positive (reader "gcn" "data_bytes" minus_one)
  idx_bytes ← positive (reader "gcn" "idx_bytes" minus_one)
  some (record {
    model_name = model_name;
    sample = sample;
    weight_h = junk_h;
    weight_w = junk_w;
    data_bytes = data_bytes;
    idx_bytes = idx_bytes;
    num_layer = num_layer;
    layers_done = 0;
  })

pub record HyConfig : Type 0 where
  pub sys_config : SysConfig
  pub layer_config : LayerConfig
  pub raw_graph : Graph
  pub tile_config : TileConfig
  pub mapper : AddrMapper

-- `"layer" + std::to_string(layer_count)`; with `num_layer == 2` there are two.
pub layer_name : ℕ → Option String
layer_name zero = some "layer0"
layer_name (suc zero) = some "layer1"
layer_name (suc (suc n)) = none

-- `(double)(weight_h + 128) / weight_h * 128`, cast to `int`.
abbrev gin_width : ℕ → ℕ
gin_width weight_h = (weight_h + 128) * 128 / weight_h

-- The sizes of the weights of layer `count`: the first takes its height from the graph, the last
-- its width.
unfoldable pub layer_weights : Model → Graph → ℕ → ℕ → ℕ → ℕ → ℕ × ℕ
layer_weights model graph num_layer count h w =
    if count == 0
    then (graph.len_feature, if is_gin model then gin_width graph.len_feature else w)
    else if (count + 1) == num_layer
    then (h, if is_gin model then gin_width h else graph.num_class)
    else (h, w)

-- `PrepareNextLayer`: `none` inside is its `false`, that there is no further layer.
unfoldable pub prepare_next_layer :
    Reader
    → SysConfig
    → LayerConfig
    → Graph
    → Option (Option (LayerConfig × TileConfig × AddrMapper))
unfolding layer_name positive
prepare_next_layer reader sys layer graph =
    if layer.layers_done == layer.num_layer then some none else do
      check (layer.num_layer == 2)
      name ← layer_name layer.layers_done
      h ← positive (reader name "weight_h" minus_one)
      w ← positive (reader name "weight_w" minus_one)
      let (weight_h, weight_w) =
          layer_weights layer.model_name graph layer.num_layer layer.layers_done h w
      let layer' = record layer {
        weight_h = weight_h;
        weight_w = weight_w;
        layers_done = layer.layers_done + 1;
      }
      tile ← new_tile_config sys layer' graph.num_vertex
      mapper ← new_mapper sys layer' tile graph.num_vertex graph.r_adj
      some (some (layer', tile, mapper))
