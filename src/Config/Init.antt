-- ===== src/Config/Init.antt =====
-- config.cpp, `HyConfig::Init`: the files of a run, the graph in the form that the model uses, and the
-- first layer.
pub mod Prepared
pub mod Runs
pub mod Built
pub mod Tests
use hy_gcn_a_gcn_accelerator.Base.{ℕ, Option, none, some, List, ℤ, if◌then◌else◌, ◌>>=◌}
use hy_gcn_a_gcn_accelerator.Text.{Text, codes, same_text}
use hy_gcn_a_gcn_accelerator.Graph.{Graph, get_gcn_norm_graph}
use hy_gcn_a_gcn_accelerator.Graph.Load.{load_graph, index_of}
use hy_gcn_a_gcn_accelerator.Graph.Dump.{load_sample_graph}
use hy_gcn_a_gcn_accelerator.Config.{Reader, Model, gcn, gin, gs, read_sys}
use hy_gcn_a_gcn_accelerator.Config.Layers.{HyConfig, read_layer, prepare_next_layer}

-- The name of the model; any other ends the run.
unfoldable pub model_of : Text → Option Model
model_of name =
    if same_text name (codes "gcn")
    then some gcn
    else if same_text name (codes "gin")
    then some gin
    else if same_text name (codes "gs")
    then some gs
    else none

-- The graph that replaces the loaded one.
unfoldable pub prepare_graph : Model → ℤ → Graph → Option (List Text) → Option Graph
prepare_graph gcn sample raw file = get_gcn_norm_graph raw
prepare_graph gin sample raw file = get_gcn_norm_graph raw
prepare_graph gs sample raw file = index_of sample >>= λ n. load_sample_graph n raw file

-- The files of a run: the two configurations, with the name of the model, and the three of a graph.
pub record Files : Type 0 where
  pub sys_reader : Reader
  pub layer_reader : Reader
  pub model_name : Text
  pub graph_name : Text
  pub graph_info : Option (List Text)
  pub graph_edge : Option (List Text)
  pub sample_edge : Option (List Text)

-- `Init`, with the weights that the constructor of `LayerConfig` leaves uninitialised. A layer that is
-- not prepared would leave the tiling undefined, which is a fault here.
unfoldable pub init : Files → ℕ → ℕ → Option HyConfig
init files junk_h junk_w = do
  sys ← read_sys files.sys_reader
  model ← model_of files.model_name
  layer ← read_layer files.layer_reader model junk_h junk_w
  raw ← load_graph files.graph_name files.graph_info files.graph_edge
  graph ← prepare_graph model layer.sample raw files.sample_edge
  first ← prepare_next_layer files.layer_reader sys layer graph
  (layer', tile, mapper) ← first
  some (record {
    sys_config = sys;
    layer_config = layer';
    raw_graph = graph;
    tile_config = tile;
    mapper = mapper;
  })

-- `PrepareNextLayer` of a configuration: `none` inside where there is no further layer.
unfoldable pub next_layer : Reader → HyConfig → Option (Option HyConfig)
next_layer reader hy = do
  next ← prepare_next_layer reader hy.sys_config hy.layer_config hy.raw_graph
  some (elim next [
    | none ↦ none
    | some (layer, tile, mapper) ↦
        some (record hy { layer_config = layer; tile_config = tile; mapper = mapper })
  ])
