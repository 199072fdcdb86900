-- ===== src/Registry/Wire.antt =====
-- The requests and replies of the schema registry's gRPC service (crates/rpc/proto/schema_registry.proto
-- as crates/schema-registry/src/rpc.rs uses it), its statuses (error.rs), and the parsers and printers
-- of texts, which are parameters.
use common_data_layer.Prelude.{ℕ, zero, suc, String, Bool, Option, none, some, List}
use common_data_layer.Json.{Value}
use common_data_layer.Exec.{Result}
use common_data_layer.Registry.Types.{
  Version, SchemaType, document_storage, timeseries, RegistryError, no_schema_with_id,
  no_view_with_id, duplicated_uuid, db_error, connection_error, no_topic, mq_error, invalid_schema,
  invalid_schema_type, invalid_view, no_version_matches_requirement, new_version_must_be_greatest,
  cache_error, malformed_error,
}

-- The text that a parser refuses.
pub data Argument : Type 0 where
  an_id an_optional_id a_version a_version_req a_json : Argument

-- A gRPC status; the message of the error that it stands for is left out.
pub data Status : Type 0 where
  invalid_argument : Argument → Status
  not_found internal : RegistryError → Status
  not_serializable : Status
  -- The handler panics.
  panicked : Status

-- `impl From<RegistryError> for Status` of error.rs
unfoldable pub to_status : RegistryError → Status
to_status (no_topic t) = not_found (no_topic t)
to_status (no_schema_with_id id) = not_found (no_schema_with_id id)
to_status (no_view_with_id id) = not_found (no_view_with_id id)
to_status (new_version_must_be_greatest id v) = internal (new_version_must_be_greatest id v)
to_status invalid_schema = internal invalid_schema
to_status invalid_schema_type = internal invalid_schema_type
to_status (duplicated_uuid id) = internal (duplicated_uuid id)
to_status (db_error e) = internal (db_error e)
to_status (connection_error e) = internal (connection_error e)
to_status (mq_error e) = internal (mq_error e)
to_status (invalid_view e) = internal (invalid_view e)
to_status (no_version_matches_requirement id) = internal (no_version_matches_requirement id)
to_status (cache_error e) = internal (cache_error e)
to_status (malformed_error e) = internal (malformed_error e)

pub record Wire : Type 0 where
  pub version_parse : String → Option Version
  pub version_text : Version → String
  pub version_req_parse : String → Option String
  pub json_parse : String → Option Value
  pub json_text : Value → Option String
  pub uuid_text : ℕ → String
  -- `MetadataFetcher::topic_or_exchange_exists`
  pub topic_exists : String → Result String Bool
  -- The errors of a value against a compiled schema
  pub validation_errors : Value → Value → List String

-- The requests, as crates/rpc/proto/schema_registry.proto has them. A schema type is a number.
pub record NewSchemaRequest : Type 0 where
  pub id : String
  pub name : String
  pub definition : String
  pub query_address : String
  pub topic : String
  pub schema_type : ℕ

pub record NewVersionRequest : Type 0 where
  pub id : String
  pub version : String
  pub definition : String

pub record SchemaMetadataUpdate : Type 0 where
  pub id : String
  pub name : Option String
  pub topic : Option String
  pub address : Option String
  pub schema_type : Option ℕ

pub record NewSchemaView : Type 0 where
  pub schema_id : String
  pub view_id : String
  pub name : String
  pub jmespath : String

pub record UpdatedView : Type 0 where
  pub id : String
  pub name : Option String
  pub jmespath : Option String

pub record ValueToValidate : Type 0 where
  pub schema_id : String
  pub value : String

-- `schema_type::Type::from_i32`, with `From<schema_type::Type> for SchemaType`.
unfoldable pub from_i32 : ℕ → Option SchemaType
from_i32 zero = some document_storage
from_i32 (suc zero) = some timeseries
from_i32 (suc (suc n)) = none

-- `request.schema_type()`, which falls back on the first constructor.
unfoldable pub type_or_default : Option SchemaType → SchemaType
type_or_default none = document_storage
type_or_default (some t) = t
