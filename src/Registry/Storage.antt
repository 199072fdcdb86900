-- ===== src/Registry/Storage.antt =====
-- The stored form of the registry's data: `Vertex` and `Edge` of
-- crates/schema-registry/src/types/storage, and `extract_vertex_property` of types.rs.
use common_data_layer.Prelude.{ℕ, String, Option, none, some, List, [], ◌∷◌, str_eq, if◌then◌else◌}
use common_data_layer.Json.{Value, string}
use common_data_layer.Exec.{first}
use common_data_layer.Registry.Types.{
  Schema, Definition, View, SchemaDefinitionEdge, SchemaViewEdge, to_string, schema_name_prop,
  topic_name_prop, query_address_prop, schema_type_prop, definition_value_prop, view_name_prop,
  view_expression_prop, edge_version_prop, schema_vertex_type, definition_vertex_type,
  view_vertex_type, schema_definition_edge_type, schema_view_edge_type,
}
use common_data_layer.Registry.Externals.{
  Externals, NamedProperty, VertexProperties, EdgeKey, EdgeProperties,
}

-- `drain_filter(|prop| prop.name == name)`: the properties that it takes out, and those it leaves.
abbrev pub drained : String → List NamedProperty → List Value
drained name [] = []
drained name (p ∷ ps) =
    let rest = drained name ps in if str_eq p.name name then p.value ∷ rest else rest

abbrev pub left : String → List NamedProperty → List NamedProperty
left name [] = []
left name (p ∷ ps) = let rest = left name ps in if str_eq p.name name then rest else p ∷ rest

infixl 10 ◌>>=◌
abbrev pub ◌>>=◌ : {A B : Type 0} → Option A → (A → Option B) → Option B
none >>= f = none
some a >>= f = f a

-- `extract_vertex_property` and `extract_edge_property`, with the properties that stay.
abbrev pub extract :
    {T : Type 0}
    → (Value → Option T)
    → String
    → List NamedProperty
    → Option (T × List NamedProperty)
extract from_value name props = do
  value ← first (drained name props)
  t ← from_value value
  some (t, left name props)

pub record Vertex (V : Type 0) : Type 0 where
  pub into_properties : V → List (String × Value)
  pub from_properties : VertexProperties → Option (ℕ × V)
  pub db_type : String

pub record Edge (E : Type 0) : Type 0 where
  pub edge_info : E → EdgeKey × List (String × Value)
  pub from_properties : EdgeProperties → Option E
  pub db_type : String

module _ (x : Externals) where
  open x use {string_from_value, schema_type_from_value, version_from_value, version_to_value}

  unfoldable pub schema_from_properties : VertexProperties → Option (ℕ × Schema)
  schema_from_properties vp = do
    (name, props1) ← extract string_from_value schema_name_prop vp.props
    (kafka_topic, props2) ← extract string_from_value topic_name_prop props1
    (query_address, props3) ← extract string_from_value query_address_prop props2
    (schema_type, props4) ← extract schema_type_from_value schema_type_prop props3
    some (
      vp.vertex.id,
      record {
        name = name;
        kafka_topic = kafka_topic;
        query_address = query_address;
        schema_type = schema_type;
      },
    )

  abbrev pub schema_vertex : Vertex Schema
  schema_vertex = record {
    into_properties = λ s.
        (schema_name_prop, string s.name)
        ∷ (topic_name_prop, string s.kafka_topic)
        ∷ (query_address_prop, string s.query_address)
        ∷ (schema_type_prop, string (to_string s.schema_type))
        ∷ [];
    from_properties = schema_from_properties;
    db_type = schema_vertex_type;
  }

  -- `serde_json::from_value` at `Value` changes nothing.
  unfoldable pub definition_from_properties : VertexProperties → Option (ℕ × Definition)
  definition_from_properties vp = do
    (definition, props1) ← extract some definition_value_prop vp.props
    some (vp.vertex.id, record { definition = definition })

  abbrev pub definition_vertex : Vertex Definition
  definition_vertex = record {
    into_properties = λ d. (definition_value_prop, d.definition) ∷ [];
    from_properties = definition_from_properties;
    db_type = definition_vertex_type;
  }

  unfoldable pub view_from_properties : VertexProperties → Option (ℕ × View)
  view_from_properties vp = do
    (name, props1) ← extract string_from_value view_name_prop vp.props
    (jmespath, props2) ← extract string_from_value view_expression_prop props1
    some (vp.vertex.id, record { name = name; jmespath = jmespath })

  abbrev pub view_vertex : Vertex View
  view_vertex = record {
    into_properties =
        λ v. (view_name_prop, string v.name) ∷ (view_expression_prop, string v.jmespath) ∷ [];
    from_properties = view_from_properties;
    db_type = view_vertex_type;
  }

  unfoldable pub schema_definition_from_properties : EdgeProperties → Option SchemaDefinitionEdge
  schema_definition_from_properties ep = do
    (version, props1) ← extract version_from_value edge_version_prop ep.props
    some (record {
      schema_id = ep.key.outbound_id;
      definition_id = ep.key.inbound_id;
      version = version;
    })

  abbrev pub schema_definition_edge : Edge SchemaDefinitionEdge
  schema_definition_edge = record {
    edge_info = λ e. (
      record {
        outbound_id = e.schema_id;
        t = schema_definition_edge_type;
        inbound_id = e.definition_id;
      },
      (edge_version_prop, version_to_value e.version) ∷ [],
    );
    from_properties = schema_definition_from_properties;
    db_type = schema_definition_edge_type;
  }

unfoldable pub schema_view_from_properties : EdgeProperties → Option SchemaViewEdge
schema_view_from_properties ep =
    some (record { schema_id = ep.key.outbound_id; view_id = ep.key.inbound_id })

abbrev pub schema_view_edge : Edge SchemaViewEdge
schema_view_edge = record {
  edge_info = λ e.
      (record { outbound_id = e.schema_id; t = schema_view_edge_type; inbound_id = e.view_id }, []);
  from_properties = schema_view_from_properties;
  db_type = schema_view_edge_type;
}
