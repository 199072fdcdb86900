-- ===== src/RpcClients/SchemaRegistry.antt =====
-- The client of the schema registry's gRPC service, which crates/api and crates/cdl-cli call. The
-- generated client is an interface; `served` fills it with the handlers of
-- crates/schema-registry/src/rpc.rs, so that a call is the run of its handler.
use common_data_layer.Prelude.{ℕ, String, List}
use common_data_layer.Exec.{Exec}
use common_data_layer.Registry.Types.{View}
use common_data_layer.Registry.Externals.{Externals}
use common_data_layer.Registry.Wire.{
  Status, Wire, NewSchemaRequest, NewVersionRequest, SchemaMetadataUpdate, NewSchemaView,
  UpdatedView, ValueToValidate,
}
use common_data_layer.Registry.Rpc
use common_data_layer.Registry.Rpc.{Server}
use common_data_layer.Registry.Rpc.Queries
use common_data_layer.Registry.Rpc.Queries.{DefinitionReply, SchemaReply, VersionedId}

-- The calls, over a state of the registry. A reply with one field is that field.
pub record SchemaRegistryClient (S : Type 0) : Type 0 where
  pub add_schema : NewSchemaRequest → Exec S Status String
  pub add_schema_version : NewVersionRequest → Exec S Status (Unit {0})
  pub update_schema_metadata : SchemaMetadataUpdate → Exec S Status (Unit {0})
  pub add_view_to_schema : NewSchemaView → Exec S Status String
  pub update_view : UpdatedView → Exec S Status View
  pub get_schema : VersionedId → Exec S Status DefinitionReply
  pub get_schema_metadata : String → Exec S Status SchemaReply
  pub get_schema_topic : String → Exec S Status String
  pub get_schema_query_address : String → Exec S Status String
  pub get_schema_versions : String → Exec S Status (List String)
  pub get_schema_type : String → Exec S Status ℕ
  pub get_view : String → Exec S Status View
  pub get_all_schemas : Exec S Status (List (String × SchemaReply))
  pub get_all_schema_names : Exec S Status (List (String × String))
  pub get_all_views_of_schema : String → Exec S Status (List (String × View))
  pub validate_value : ValueToValidate → Exec S Status (List String)

abbrev pub served : (x : Externals) → Wire → SchemaRegistryClient (Server x.Db)
served x w = record {
  add_schema = Rpc.add_schema x w;
  add_schema_version = Rpc.add_schema_version x w;
  update_schema_metadata = Rpc.update_schema_metadata x w;
  add_view_to_schema = Rpc.add_view_to_schema x w;
  update_view = Rpc.update_view x w;
  get_schema = Queries.get_schema x w;
  get_schema_metadata = Queries.get_schema_metadata x w;
  get_schema_topic = Queries.get_schema_topic x w;
  get_schema_query_address = Queries.get_schema_query_address x w;
  get_schema_versions = Queries.get_schema_versions x w;
  get_schema_type = Queries.get_schema_type x w;
  get_view = Queries.get_view x w;
  get_all_schemas = Queries.get_all_schemas x w;
  get_all_schema_names = Queries.get_all_schema_names x w;
  get_all_views_of_schema = Queries.get_all_views_of_schema x w;
  validate_value = Queries.validate_value x w;
}
