-- ===== src/Registry/Externals.antt =====
-- What crates/schema-registry calls and this repository does not implement, as parameters: the graph
-- database indradb behind `SchemaDb::db`, the codecs of serde_json and semver, `JSONSchema::compile`,
-- `jmespatch::parse` and `Uuid::parse_str`. An error of theirs is its text. A query of indradb takes
-- the limit `u32::MAX` everywhere in the code, so the queries here have none.
use common_data_layer.Prelude.{ℕ, String, Bool, Option, List}
use common_data_layer.Json.{Value}
use common_data_layer.Exec.{Result}
use common_data_layer.Registry.Types.{Version, SchemaType}

-- indradb's `Vertex`, `NamedProperty`, `VertexProperties`, `VertexProperty`, `EdgeKey`,
-- `EdgeProperty` and `EdgeProperties`.
pub record IndraVertex : Type 0 where
  pub id : ℕ
  pub t : String

pub record NamedProperty : Type 0 where
  pub name : String
  pub value : Value

pub record VertexProperties : Type 0 where
  pub vertex : IndraVertex
  pub props : List NamedProperty

pub record VertexProperty : Type 0 where
  pub id : ℕ
  pub value : Value

pub record EdgeKey : Type 0 where
  pub outbound_id : ℕ
  pub t : String
  pub inbound_id : ℕ

pub record EdgeProperty : Type 0 where
  pub key : EdgeKey
  pub value : Value

pub record EdgeProperties : Type 0 where
  pub key : EdgeKey
  pub props : List NamedProperty

pub record Externals : Type 1 where
  -- The contents of the database.
  pub Db : Type 0
  pub transaction : Db → Result String (Unit {0})
  pub create_vertex : IndraVertex → Db → Result String Bool × Db
  pub create_vertex_from_type : String → Db → Result String ℕ × Db
  -- `set_vertex_properties` at `SpecificVertexQuery::single(id).property(name)`
  pub set_vertex_property : ℕ → String → Value → Db → Result String (Unit {0}) × Db
  pub create_edge : EdgeKey → Db → Result String Bool × Db
  -- `set_edge_properties` at `SpecificEdgeQuery::single(key).property(name)`
  pub set_edge_property : EdgeKey → String → Value → Db → Result String (Unit {0}) × Db
  -- `get_vertices`, `get_all_vertex_properties` and `get_vertex_properties` at one vertex
  pub get_vertices : ℕ → Db → Result String (List IndraVertex)
  pub get_all_vertex_properties : ℕ → Db → Result String (List VertexProperties)
  pub get_vertex_properties : ℕ → String → Db → Result String (List VertexProperty)
  -- `get_edge_properties` at `single(id).outbound(..).t(type).property(name)`
  pub get_edge_properties : ℕ → String → String → Db → Result String (List EdgeProperty)
  -- `get_all_vertex_properties` at `single(id).outbound(..).t(type).inbound(..)`
  pub get_neighbour_properties : ℕ → String → Db → Result String (List VertexProperties)
  -- The same queries at `RangeVertexQuery::new(..).t(type)`
  pub get_range_properties : String → Db → Result String (List VertexProperties)
  pub get_range_property : String → String → Db → Result String (List VertexProperty)
  -- `get_all_edge_properties` at `RangeVertexQuery::new(..).outbound(..).t(type)`
  pub get_range_edges : String → Db → Result String (List EdgeProperties)
  -- `serde_json::from_value` at `String`, `SchemaType` and `Version`, and `json!(version)`
  pub string_from_value : Value → Option String
  pub schema_type_from_value : Value → Option SchemaType
  pub version_from_value : Value → Option Version
  pub version_to_value : Version → Value
  -- The order of semver, `VersionReq::any()` and `VersionReq::matches`
  pub version_le : Version → Version → Bool
  pub any_version : String
  pub matches : String → Version → Bool
  -- Whether `JSONSchema::compile` accepts a schema
  pub compiles : Value → Bool
  pub jmespath_parse : String → Result String (Unit {0})
  pub uuid_parse : String → Option ℕ
