-- ===== src/Registry/Types.antt =====
-- The data of the schema registry: crates/schema-registry/src/types.rs, types/storage/vertices.rs,
-- types/storage/edges.rs, error.rs and `SchemaType` of crates/rpc/src/schema_registry.rs.
-- A `Uuid` is a number. A `semver` requirement is kept by its text, and a version by its fields.
-- A `HashMap` is the list of its entries, in the order in which it is iterated.
use common_data_layer.Prelude.{ℕ, String, Option, List}
use common_data_layer.Json.{Value}

pub record Version : Type 0 where
  pub major : ℕ
  pub minor : ℕ
  pub patch : ℕ
  pub pre : List String
  pub build : List String

pub data SchemaType : Type 0 where
  document_storage timeseries : SchemaType

abbrev pub to_string : SchemaType → String
to_string document_storage = "DocumentStorage"
to_string timeseries = "Timeseries"

pub record ViewUpdate : Type 0 where
  pub name : Option String
  pub jmespath : Option String

pub record NewSchema : Type 0 where
  pub name : String
  pub definition : Value
  pub kafka_topic : String
  pub query_address : String
  pub schema_type : SchemaType

pub record Schema : Type 0 where
  pub name : String
  pub kafka_topic : String
  pub query_address : String
  pub schema_type : SchemaType

pub record Definition : Type 0 where
  pub definition : Value

pub record View : Type 0 where
  pub name : String
  pub jmespath : String

-- `NewSchema::vertex`
abbrev pub schema_of : NewSchema → Schema × Value
schema_of s = (
  record {
    name = s.name;
    kafka_topic = s.kafka_topic;
    query_address = s.query_address;
    schema_type = s.schema_type;
  },
  s.definition,
)

pub record NewSchemaVersion : Type 0 where
  pub version : Version
  pub definition : Value

pub record SchemaDefinition : Type 0 where
  pub version : Version
  pub definition : Value

pub record VersionedUuid : Type 0 where
  pub id : ℕ
  pub version_req : String

pub record SchemaDefinitionEdge : Type 0 where
  pub schema_id : ℕ
  pub definition_id : ℕ
  pub version : Version

pub record SchemaViewEdge : Type 0 where
  pub schema_id : ℕ
  pub view_id : ℕ

pub record DbExport : Type 0 where
  pub schemas : List (ℕ × Schema)
  pub definitions : List (ℕ × Definition)
  pub views : List (ℕ × View)
  pub schema_definitions : List SchemaDefinitionEdge
  pub schema_views : List SchemaViewEdge

pub data MalformedError : Type 0 where
  malformed_schema malformed_definition malformed_schema_version malformed_view : ℕ → MalformedError

-- An error of a library is kept by its text.
pub data RegistryError : Type 0 where
  no_schema_with_id no_view_with_id duplicated_uuid : ℕ → RegistryError
  db_error connection_error no_topic mq_error : String → RegistryError
  invalid_schema invalid_schema_type : RegistryError
  invalid_view : String → RegistryError
  no_version_matches_requirement : VersionedUuid → RegistryError
  new_version_must_be_greatest : ℕ → Version → RegistryError
  cache_error : String → RegistryError
  malformed_error : MalformedError → RegistryError

-- The names of the properties, as the constants of `Schema`, `Definition`, `View` and
-- `SchemaDefinition` give them.
abbrev pub schema_name_prop : String
schema_name_prop = "SCHEMA_NAME"

abbrev pub topic_name_prop : String
topic_name_prop = "SCHEMA_TOPIC_NAME"

abbrev pub query_address_prop : String
query_address_prop = "SCHEMA_QUERY_ADDRESS"

abbrev pub schema_type_prop : String
schema_type_prop = "SCHEMA_TYPE"

abbrev pub definition_value_prop : String
definition_value_prop = "DEFINITION"

abbrev pub view_name_prop : String
view_name_prop = "VIEW_NAME"

abbrev pub view_expression_prop : String
view_expression_prop = "JMESPATH"

abbrev pub edge_version_prop : String
edge_version_prop = "VERSION"

-- The types of the vertices and of the edges.
abbrev pub schema_vertex_type : String
schema_vertex_type = "SCHEMA"

abbrev pub definition_vertex_type : String
definition_vertex_type = "DEFINITION"

abbrev pub view_vertex_type : String
view_vertex_type = "VIEW"

abbrev pub schema_definition_edge_type : String
schema_definition_edge_type = "SCHEMA_DEFINITION"

abbrev pub schema_view_edge_type : String
schema_view_edge_type = "SCHEMA_VIEW"
