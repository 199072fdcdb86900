-- ===== src/Registry/Views/Tests.antt =====
-- The view 9 of a store in memory.
use common_data_layer.Prelude.{ap, some}
use common_data_layer.Registry.Types.{View, view_name_prop, view_expression_prop}
use common_data_layer.Registry.Storage.{view_vertex}
use common_data_layer.Registry.Laws.{prop_of}
use common_data_layer.Registry.Db
use common_data_layer.Registry.Memory.Store
use common_data_layer.Registry.Memory.Instance.{memory, memory_codec}
use common_data_layer.Registry.Memory.Graph.{
  memory_graph, memory_graph-vertex_type, memory_graph-props,
}
use common_data_layer.Registry.Views.{StoredView}

abbrev pub nine : View
nine = record { name = "nine"; jmespath = "a.b" }

abbrev pub viewed : memory.Db
viewed = (Db.create_vertex_with_properties memory (view_vertex memory) nine (some 9) Store.empty).1

pub viewed_stored : StoredView memory memory_graph memory_codec 9 nine viewed
unfolding Db.create_vertex_with_properties Db.connect Db.new_vertex Db.set_each Store.empty
    Store.add Store.create_vertex Store.with_property Store.set_vertex_property
viewed_stored = record {
  exists = memory_graph-vertex_type viewed 9;
  name = ap (prop_of view_name_prop) (memory_graph-props viewed 9);
  expression = ap (prop_of view_expression_prop) (memory_graph-props viewed 9);
}
