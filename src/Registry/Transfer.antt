-- ===== src/Registry/Transfer.antt =====
-- `import_all` and `export_all` of `SchemaDb`, crates/schema-registry/src/db.rs.
use common_data_layer.Prelude.{ℕ, none, some, List, [], ◌∷◌}
use common_data_layer.Exec.{Result, ok, err, ok_or, pure, lift, ◌>>=◌, ◌>>◌}
use common_data_layer.Registry.Types.{
  Definition, DbExport, SchemaDefinitionEdge, SchemaViewEdge, RegistryError, malformed_error,
  malformed_definition, malformed_schema_version, schema_vertex_type, definition_vertex_type,
  view_vertex_type, schema_definition_edge_type, schema_view_edge_type,
}
use common_data_layer.Registry.Externals.{Externals, VertexProperties, EdgeProperties}
use common_data_layer.Registry.Storage.{
  Vertex, Edge, schema_vertex, definition_vertex, view_vertex, schema_definition_edge,
  schema_view_edge,
}
use common_data_layer.Registry.Db
use common_data_layer.Registry.Db.{collect}

module _ (x : Externals) where
  open x use {get_range_properties, get_range_edges}

  abbrev Op : Type 0 → Type 0
  Op A = Db.Op x A

  -- `for (id, vertex) in entries { self.create_vertex_with_properties(vertex, Some(id))?; }`
  unfoldable pub import_vertices : {V : Type 0} → Vertex V → List (ℕ × V) → Op (Unit {0})
  import_vertices trait [] = pure tt
  import_vertices trait ((id, vertex) ∷ rest) = do
    Db.create_vertex_with_properties x trait vertex (some id)
    import_vertices trait rest

  unfoldable pub import_edges : {E : Type 0} → Edge E → List E → Op (Unit {0})
  import_edges trait [] = pure tt
  import_edges trait (edge ∷ rest) = do Db.set_edge_properties x trait edge; import_edges trait rest

  unfoldable pub import_all : DbExport → Op (Unit {0})
  import_all imported = do
    names ← Db.get_all_schema_names x
    elim names [
      | n ∷ ns ↦ pure tt
      | [] ↦ do
        import_vertices (schema_vertex x) imported.schemas
        import_vertices (definition_vertex x) imported.definitions
        import_vertices (view_vertex x) imported.views
        import_edges (schema_definition_edge x) imported.schema_definitions
        import_edges schema_view_edge imported.schema_views
    ]

  unfoldable pub definition_of_vertex : VertexProperties → Result RegistryError (ℕ × Definition)
  definition_of_vertex props =
      ok_or ((definition_vertex x).from_properties props)
        (malformed_error (malformed_definition props.vertex.id))

  unfoldable pub definition_edges :
      List EdgeProperties → Result RegistryError (List SchemaDefinitionEdge)
  definition_edges [] = ok []
  definition_edges (p ∷ ps) = elim ((schema_definition_edge x).from_properties p) [
    | none ↦ err (malformed_error (malformed_schema_version p.key.outbound_id))
    | some e ↦ elim (definition_edges ps) [ err e' ↦ err e' | ok es ↦ ok (e ∷ es) ]
  ]

  -- The `unwrap` never fails: a view edge is read from its key alone, so no edge is left out.
  unfoldable pub view_edges : List EdgeProperties → List SchemaViewEdge
  view_edges [] = []
  view_edges (p ∷ ps) =
      let rest = view_edges ps in
      elim (schema_view_edge.from_properties p) [ none ↦ rest | some e ↦ e ∷ rest ]

  unfoldable pub export_all : Op DbExport
  export_all = do
    Db.connect x
    all_definitions ← Db.query x (get_range_properties definition_vertex_type)
    all_schemas ← Db.query x (get_range_properties schema_vertex_type)
    all_views ← Db.query x (get_range_properties view_vertex_type)
    all_schema_definitions ← Db.query x (get_range_edges schema_definition_edge_type)
    all_schema_views ← Db.query x (get_range_edges schema_view_edge_type)
    definitions ← lift (collect definition_of_vertex [] all_definitions)
    schemas ← lift (collect (Db.schema_of_vertex x) [] all_schemas)
    views ← lift (collect (Db.view_of_vertex x) [] all_views)
    schema_definitions ← lift (definition_edges all_schema_definitions)
    pure (record {
      schemas = schemas;
      definitions = definitions;
      views = views;
      schema_definitions = schema_definitions;
      schema_views = view_edges all_schema_views;
    })
