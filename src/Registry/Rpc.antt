-- ===== src/Registry/Rpc.antt =====
-- `SchemaRegistryImpl` of crates/schema-registry/src/rpc.rs: the handlers of the gRPC service that
-- write. A handler is an action on the store and on the replication state.
pub mod Queries
use common_data_layer.Prelude.{ℕ, String, Option, none, some, str_eq, if◌then◌else◌}
use common_data_layer.Json.{Value}
use common_data_layer.Exec.{
  Result, ok, err, map_err, ok_or, Exec, pure, raise, lift, ◌>>=◌, ◌>>◌, when_some,
}
use common_data_layer.Registry.Types.{
  Version, View, ViewUpdate, NewSchema, NewSchemaVersion, no_topic, mq_error, invalid_schema_type,
}
use common_data_layer.Registry.Externals.{Externals}
use common_data_layer.Registry.Replication.{ReplicationEvent, ReplicationState, replicate_message}
use common_data_layer.Registry.Db
use common_data_layer.Registry.Update
use common_data_layer.Registry.Wire.{
  Argument, an_id, an_optional_id, a_version, a_version_req, a_json, Status, invalid_argument,
  not_serializable, to_status, Wire, NewSchemaRequest, NewVersionRequest, SchemaMetadataUpdate,
  NewSchemaView, UpdatedView, from_i32, type_or_default,
}

pub record Server (Db : Type 0) : Type 0 where
  pub db : Db
  pub replication : ReplicationState

module _ (x : Externals) (w : Wire) where
  open w use {version_parse, version_req_parse, json_parse, json_text, uuid_text, topic_exists}

  abbrev pub Handler : Type 0 → Type 0
  Handler A = Exec (Server x.Db) Status A

  -- `?` on a method of the store
  abbrev pub on_db : {A : Type 0} → Db.Op x A → Handler A
  on_db m s = let (r, db') = m s.db in (map_err to_status r, record s { db = db' })

  abbrev pub replicate : ReplicationEvent → Handler (Unit {0})
  replicate event s = (ok tt, record s { replication = replicate_message event s.replication })

  unfoldable pub parse_uuid : String → Result Status ℕ
  parse_uuid id = ok_or (x.uuid_parse id) (invalid_argument an_id)

  unfoldable pub parse_optional_uuid : String → Result Status (Option ℕ)
  parse_optional_uuid id = if str_eq id "" then ok none else elim (x.uuid_parse id) [
    | none ↦ err (invalid_argument an_optional_id)
    | some u ↦ ok (some u)
  ]

  unfoldable pub parse_json : String → Result Status Value
  parse_json text = ok_or (json_parse text) (invalid_argument a_json)

  unfoldable pub parse_version : String → Result Status Version
  parse_version text = ok_or (version_parse text) (invalid_argument a_version)

  unfoldable pub parse_version_req : String → Result Status String
  parse_version_req text = ok_or (version_req_parse text) (invalid_argument a_version_req)

  unfoldable pub serialize_json : Value → Result Status String
  serialize_json v = ok_or (json_text v) not_serializable

  unfoldable pub check_topic : String → Handler (Unit {0})
  check_topic topic = do
    exists ← lift (map_err (λ e. to_status (mq_error e)) (topic_exists topic))
    if exists then pure tt else raise (to_status (no_topic topic))

  unfoldable pub add_schema : NewSchemaRequest → Handler String
  add_schema request = do
    schema_id ← lift (parse_optional_uuid request.id)
    let schema_type = type_or_default (from_i32 request.schema_type)
    definition ← lift (parse_json request.definition)
    let new_schema : NewSchema = record {
      name = request.name;
      definition = definition;
      kafka_topic = request.topic;
      query_address = request.query_address;
      schema_type = schema_type;
    }
    check_topic request.topic
    new_id ← on_db (Update.add_schema x new_schema schema_id)
    replicate (ReplicationEvent.add_schema new_schema new_id)
    pure (uuid_text new_id)

  unfoldable pub add_schema_version : NewVersionRequest → Handler (Unit {0})
  add_schema_version request = do
    schema_id ← lift (parse_uuid request.id)
    parsed ← lift (parse_version request.version)
    definition ← lift (parse_json request.definition)
    let new_version : NewSchemaVersion = record { version = parsed; definition = definition }
    on_db (Update.add_new_version_of_schema x schema_id new_version)
    replicate (ReplicationEvent.add_schema_version schema_id new_version)

  unfoldable pub set_type : ℕ → Option ℕ → Handler (Unit {0})
  set_type schema_id number = when_some number λ n. do
    schema_type ← lift (ok_or (from_i32 n) (to_status invalid_schema_type))
    on_db (Update.update_schema_type x schema_id schema_type)

  unfoldable pub update_schema_metadata : SchemaMetadataUpdate → Handler (Unit {0})
  update_schema_metadata request = do
    schema_id ← lift (parse_uuid request.id)
    when_some request.topic check_topic
    when_some request.name (λ name. on_db (Update.update_schema_name x schema_id name))
    when_some request.topic (λ topic. on_db (Update.update_schema_topic x schema_id topic))
    when_some request.address
        (λ address. on_db (Update.update_schema_query_address x schema_id address))
    set_type schema_id request.schema_type
    replicate (
        ReplicationEvent.update_schema_metadata schema_id request.name request.topic request.address
          none)

  unfoldable pub add_view_to_schema : NewSchemaView → Handler String
  add_view_to_schema request = do
    schema_id ← lift (parse_uuid request.schema_id)
    replicated_view_id ← lift (parse_optional_uuid request.view_id)
    let view : View = record { name = request.name; jmespath = request.jmespath }
    view_id ← on_db (Update.add_view_to_schema x schema_id view replicated_view_id)
    replicate (ReplicationEvent.add_view_to_schema schema_id view view_id)
    pure (uuid_text view_id)

  unfoldable pub update_view : UpdatedView → Handler View
  update_view request = do
    view_id ← lift (parse_uuid request.id)
    let view : ViewUpdate = record { name = request.name; jmespath = request.jmespath }
    old_view ← on_db (Update.update_view x view_id view)
    replicate (ReplicationEvent.update_view view_id view)
    pure old_view
