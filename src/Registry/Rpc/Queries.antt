-- ===== src/Registry/Rpc/Queries.antt =====
-- The handlers of crates/schema-registry/src/rpc.rs that read, and `promote_to_master`.
use common_data_layer.Prelude.{ℕ, String, Option, none, some, List, map, if◌then◌else◌}
use common_data_layer.Exec.{Result, ok, err, pure, raise, lift, ◌>>=◌, ◌>>◌}
use common_data_layer.Registry.Types.{
  SchemaType, document_storage, timeseries, Schema, View, invalid_schema,
}
use common_data_layer.Registry.Externals.{Externals}
use common_data_layer.Registry.Replication.{ReplicationRole, master, set_role}
use common_data_layer.Registry.Db
use common_data_layer.Registry.Rpc
use common_data_layer.Registry.Wire.{Status, panicked, to_status, Wire, ValueToValidate}

-- The replies, as crates/rpc/proto/schema_registry.proto has them.
pub record DefinitionReply : Type 0 where
  pub version : String
  pub definition : String

pub record SchemaReply : Type 0 where
  pub name : String
  pub topic : String
  pub query_address : String
  pub schema_type : ℕ

pub record VersionedId : Type 0 where
  pub id : String
  pub version_req : String

-- `schema_type as i32`
abbrev pub as_i32 : SchemaType → ℕ
as_i32 document_storage = 0
as_i32 timeseries = 1

abbrev pub schema_reply : Schema → SchemaReply
schema_reply s = record {
  name = s.name;
  topic = s.kafka_topic;
  query_address = s.query_address;
  schema_type = as_i32 s.schema_type;
}

module _ (x : Externals) (w : Wire) where
  abbrev Handler : Type 0 → Type 0
  Handler A = Rpc.Handler x w A

  abbrev parse_uuid : String → Result Status ℕ
  parse_uuid = Rpc.parse_uuid x w

  unfoldable pub get_schema : VersionedId → Handler DefinitionReply
  get_schema request = do
    id ← lift (parse_uuid request.id)
    version_req ← lift (Rpc.parse_version_req x w request.version_req)
    found ←
        Rpc.on_db x w (Db.get_schema_definition x (record { id = id; version_req = version_req }))
    definition ← lift (Rpc.serialize_json x w found.definition)
    pure (record { version = w.version_text found.version; definition = definition })

  unfoldable pub get_schema_metadata : String → Handler SchemaReply
  get_schema_metadata id = do
    schema_id ← lift (parse_uuid id)
    schema ← Rpc.on_db x w (Db.get_schema x schema_id)
    pure (schema_reply schema)

  unfoldable pub get_schema_topic : String → Handler String
  get_schema_topic id = do
    schema_id ← lift (parse_uuid id)
    Rpc.on_db x w (Db.get_schema_topic x schema_id)

  unfoldable pub get_schema_query_address : String → Handler String
  get_schema_query_address id = do
    schema_id ← lift (parse_uuid id)
    Rpc.on_db x w (Db.get_schema_query_address x schema_id)

  unfoldable pub get_schema_versions : String → Handler (List String)
  get_schema_versions id = do
    schema_id ← lift (parse_uuid id)
    all_versions ← Rpc.on_db x w (Db.get_schema_versions x schema_id)
    pure (map (λ v. w.version_text v.0) all_versions)

  unfoldable pub get_schema_type : String → Handler ℕ
  get_schema_type id = do
    schema_id ← lift (parse_uuid id)
    schema_type ← Rpc.on_db x w (Db.get_schema_type x schema_id)
    pure (as_i32 schema_type)

  unfoldable pub get_view : String → Handler View
  get_view id = do view_id ← lift (parse_uuid id); Rpc.on_db x w (Db.get_view x view_id)

  unfoldable pub get_all_schemas : Handler (List (String × SchemaReply))
  get_all_schemas = do
    schemas ← Rpc.on_db x w (Db.get_all_schemas x)
    pure (map (λ e. (w.uuid_text e.0, schema_reply e.1)) schemas)

  unfoldable pub get_all_schema_names : Handler (List (String × String))
  get_all_schema_names = do
    names ← Rpc.on_db x w (Db.get_all_schema_names x)
    pure (map (λ e. (w.uuid_text e.0, e.1)) names)

  unfoldable pub get_all_views_of_schema : String → Handler (List (String × View))
  get_all_views_of_schema id = do
    schema_id ← lift (parse_uuid id)
    views ← Rpc.on_db x w (Db.get_all_views_of_schema x schema_id)
    pure (map (λ e. (w.uuid_text e.0, e.1)) views)

  unfoldable pub validate_value : ValueToValidate → Handler (List String)
  validate_value request = do
    schema_id ← lift (parse_uuid request.schema_id)
    json ← lift (Rpc.parse_json x w request.value)
    full_schema ←
        Rpc.on_db x w
          (Db.get_schema_definition x (record { id = schema_id; version_req = x.any_version }))
    if x.compiles full_schema.definition
        then pure (w.validation_errors full_schema.definition json)
        else raise (to_status invalid_schema)

  -- `set_replication_role`, and `promote_to_master` with the name of the pod.
  unfoldable pub set_replication_role : ReplicationRole → Handler (Unit {0})
  set_replication_role role s = elim (set_role role s.replication) [
    | none ↦ (err panicked, s)
    | some replication ↦ (ok tt, record s { replication = replication })
  ]

  unfoldable pub promote_to_master : Option String → Handler String
  promote_to_master pod_name = do
    set_replication_role master
    pure (elim pod_name [ none ↦ "" | some name ↦ name ])
