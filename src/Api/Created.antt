-- ===== src/Api/Created.antt =====
-- What a new schema through the GraphQL API answers: crates/api/src/schema/mutation.rs over
-- crates/schema-registry/src/rpc.rs and db.rs.
use common_data_layer.Prelude.{ℕ, ◌≡◌, refl, true, none, some, []}
use common_data_layer.Json.{Value}
use common_data_layer.Exec.{ok}
use common_data_layer.Registry.Types
use common_data_layer.Registry.Types.{SchemaType, document_storage, timeseries, Definition}
use common_data_layer.Registry.Externals.{Externals}
use common_data_layer.Registry.Laws.{IsPropertyGraph, IsCodec, IsVersionOrder}
use common_data_layer.Registry.Replication.{ReplicationEvent, replicate_message}
use common_data_layer.Registry.Db
use common_data_layer.Registry.Update.{build_full_schema}
use common_data_layer.Registry.Wire.{Wire, from_i32, type_or_default}
use common_data_layer.Registry.Rpc
use common_data_layer.Registry.Rpc.{Server}
use common_data_layer.Registry.Rpc.Queries
use common_data_layer.Registry.Rpc.Queries.{as_i32}
use common_data_layer.Registry.NewSchema.{add_schema-chosen}
use common_data_layer.Api.{Schema, NewSchema, get_schema}
use common_data_layer.Api.Query.{schema}
use common_data_layer.Api.Mutation.{add_schema}
use common_data_layer.Api.Updated.{over}

from_i32-as_i32 : (t : SchemaType) → from_i32 (as_i32 t) ≡ some t
unfolding from_i32
from_i32-as_i32 document_storage = refl
from_i32-as_i32 timeseries = refl

abbrev pub created : ℕ → NewSchema → Schema
created id new = record {
  id = id;
  name = new.name;
  topic = new.topic;
  query_address = new.query_address;
  schema_type = new.schema_type;
}

abbrev pub registered : NewSchema → Value → Types.NewSchema
registered new definition = record {
  name = new.name;
  definition = definition;
  kafka_topic = new.topic;
  query_address = new.query_address;
  schema_type = new.schema_type;
}

module _ (x : Externals) (g : IsPropertyGraph x) (cd : IsCodec x) (o : IsVersionOrder x)
    (w : Wire) where
  open g use {vertex_type}

  -- A new schema through the API, on a topic that exists and with a definition that is JSON and is
  -- accepted, answers with the schema that was asked for and an id. A query for that id then answers
  -- with the same schema. The registry reads back the ids it writes, and a free id has no versions.
  pub add_schema-schema :
      (new : NewSchema) (value : Value) (full : Definition) (s : Server x.Db)
      → ((id : ℕ) → x.uuid_parse (w.uuid_text id) ≡ some id)
      → ((id : ℕ) → vertex_type s.db id ≡ none → Db.get_schema_versions x id s.db ≡ (ok [], s.db))
      → w.topic_exists new.topic ≡ ok true
      → w.json_parse new.definition ≡ some value
      → build_full_schema x value s.db ≡ (ok full, s.db)
      → (id : ℕ) × (s' : Server x.Db) × (add_schema (over x w) new s ≡ (ok (created id new), s'))
        × (schema (over x w) id s' ≡ (ok (created id new), s'))
  unfolding add_schema schema get_schema Rpc.add_schema Rpc.parse_uuid Rpc.parse_optional_uuid
      Rpc.parse_json Rpc.check_topic Queries.get_schema_metadata type_or_default
  add_schema-schema new value full s ids versions topic json built =
      let (id, db', added, read, latest) =
        add_schema-chosen x g cd o (registered new value) full s.db versions built in
      let event = ReplicationEvent.add_schema (registered new value) id in
      let t = from_i32-as_i32 new.schema_type in
      (
        id,
        record { db = db'; replication = replicate_message event s.replication },
        rw (json, topic, t, added, ids id) refl,
        rw (ids id, read, t) refl,
      )
