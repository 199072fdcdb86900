-- ===== src/Registry/Tests.antt =====
-- The theorems on the schema registry at a concrete store: the schema 7 of a document store, added
-- to an empty store in memory, with its definition at the vertex 8.
use common_data_layer.Prelude.{
  ℕ, String, ◌≡◌, refl, inl, true, false, Option, none, some, [], ◌∷◌, All, Contains, ap, str_eq,
  if◌then◌else◌,
}
use common_data_layer.Json.{bool, string}
use common_data_layer.Exec.{ok, err, ok_or}
use common_data_layer.Registry.Types.{
  schema_of, Version, document_storage, timeseries, NewSchema, NewSchemaVersion, VersionedUuid,
  no_version_matches_requirement, new_version_must_be_greatest, topic_name_prop, schema_name_prop,
  query_address_prop, schema_type_prop, Schema, SchemaType,
}
use common_data_layer.Registry.Laws.{prop_of}
use common_data_layer.Registry.Db
use common_data_layer.Registry.Update
use common_data_layer.Registry.Memory.Store
use common_data_layer.Registry.Memory.Instance.{
  memory, memory_codec, unary, count, memory_order, version_le, version_from_value,
  version_to_value,
}
use common_data_layer.Registry.Memory.Graph.{
  memory_graph, memory_graph-vertex_type, memory_graph-props,
}
use common_data_layer.Registry.Versions.{
  IsLatest, get_latest_valid_schema_version-IsLatest, add_new_version_of_schema-refused,
}
use common_data_layer.Registry.NewSchema.{add_schema-get_schema}
use common_data_layer.Registry.NewVersion.{add_new_version_of_schema-latest}
use common_data_layer.Registry.Metadata.{ensure_schema_exists_found, update_schema_property_found}
use common_data_layer.Registry.Renamed.{StoredSchema, Changed, update_schema-get_schema}
use common_data_layer.Registry.Replication.{ReplicationEvent, replicate_message, new}
use common_data_layer.Registry.Replica.{apply_event}
use common_data_layer.Registry.Wire.{Wire, SchemaMetadataUpdate, from_i32}
use common_data_layer.Registry.Rpc.{Server, update_schema_metadata, parse_uuid, set_type}
use common_data_layer.Registry.TypeChange.{update_schema_metadata-loses_type}

abbrev pub seven : NewSchema
seven = record {
  name = "seven";
  definition = bool true;
  kafka_topic = "topic";
  query_address = "http://query";
  schema_type = document_storage;
}

abbrev pub one_zero_zero : Version
one_zero_zero = record { major = 1; minor = 0; patch = 0; pre = []; build = [] }

abbrev pub added : memory.Db
added = (Update.add_schema memory seven (some 7) Store.empty).1

abbrev any_of_seven : VersionedUuid
any_of_seven = record { id = 7; version_req = "*" }

pub added_versions : Db.get_schema_versions memory 7 added ≡ (ok ((one_zero_zero, 8) ∷ []), added)
unfolding Db.get_schema_versions Db.connect Db.parse_versions Update.add_schema
    Update.build_full_schema Update.definitions_of Db.create_vertex_with_properties Db.new_vertex
    Db.set_each Db.set_edge_properties Db.set_each_edge Store.empty Store.add Store.create_vertex
    Store.create_vertex_from_type Store.with_property Store.set_vertex_property Store.with_link
    Store.create_edge Store.set_edge_at Store.set_edge_property version_from_value version_to_value
added_versions = refl

pub added_exists : memory_graph.vertex_type added 7 ≡ some "SCHEMA"
unfolding Update.add_schema Update.build_full_schema Update.definitions_of
    Db.create_vertex_with_properties Db.new_vertex Db.set_each Db.set_edge_properties
    Db.set_each_edge Db.connect Store.empty Store.add Store.create_vertex
    Store.create_vertex_from_type Store.with_property Store.set_vertex_property Store.with_link
    Store.create_edge Store.set_edge_at Store.set_edge_property
added_exists = memory_graph-vertex_type added 7

added_ensured : Db.ensure_schema_exists memory 7 added ≡ (ok tt, added)
added_ensured = ensure_schema_exists_found memory memory_graph 7 added "SCHEMA" added_exists

empty_free : memory_graph.vertex_type Store.empty 7 ≡ none
unfolding Store.empty
empty_free = memory_graph-vertex_type Store.empty 7

get_latest_valid_schema_version-IsLatest_example :
    (r : Option (Version × ℕ)) × ((Db.get_latest_valid_schema_version memory any_of_seven added).0
      ≡ ok_or r (no_version_matches_requirement any_of_seven))
    × IsLatest version_le (memory.matches "*") ((one_zero_zero, 8) ∷ []) r
get_latest_valid_schema_version-IsLatest_example =
    get_latest_valid_schema_version-IsLatest memory memory_order any_of_seven added
      ((one_zero_zero, 8) ∷ []) (ap (λ r. r.0) added_versions)

abbrev again : NewSchemaVersion
again = record { version = one_zero_zero; definition = bool true }

add_new_version_of_schema-refused_example :
    (greatest : Version × ℕ) × (Update.add_new_version_of_schema memory 7 again added
      ≡ (err (new_version_must_be_greatest 7 greatest.0), added))
    × Contains greatest ((one_zero_zero, 8) ∷ [])
    × All (λ (v : Version × ℕ). version_le v.0 greatest.0 ≡ true) ((one_zero_zero, 8) ∷ [])
unfolding version_le
add_new_version_of_schema-refused_example =
    add_new_version_of_schema-refused memory memory_order 7 again added ((one_zero_zero, 8) ∷ [])
      (one_zero_zero, 8) added_ensured added_versions (inl refl) refl

added_stored : StoredSchema memory memory_graph memory_codec 7 (schema_of seven).0 added
unfolding Update.add_schema Update.build_full_schema Update.definitions_of
    Db.create_vertex_with_properties Db.new_vertex Db.set_each Db.set_edge_properties
    Db.set_each_edge Db.connect Store.empty Store.add Store.create_vertex
    Store.create_vertex_from_type Store.with_property Store.set_vertex_property Store.with_link
    Store.create_edge Store.set_edge_at Store.set_edge_property
added_stored = record {
  type = "SCHEMA";
  exists = added_exists;
  name = ap (prop_of schema_name_prop) (memory_graph-props added 7);
  topic = ap (prop_of topic_name_prop) (memory_graph-props added 7);
  address = ap (prop_of query_address_prop) (memory_graph-props added 7);
  schema_type = ap (prop_of schema_type_prop) (memory_graph-props added 7);
}

update_schema-get_schema_example :
    let s : Schema = (schema_of seven).0 in
    ((new : String)
      → Changed memory memory_graph memory_codec 7
          (record s { name = new })
          added
          (Update.update_schema_name memory 7 new added))
    × ((new : String)
        → Changed memory memory_graph memory_codec 7
            (record s { kafka_topic = new })
            added
            (Update.update_schema_topic memory 7 new added))
    × ((new : String)
        → Changed memory memory_graph memory_codec 7
            (record s { query_address = new })
            added
            (Update.update_schema_query_address memory 7 new added))
    × ((new : SchemaType)
        → Changed memory memory_graph memory_codec 7
            (record s { schema_type = new })
            added
            (Update.update_schema_type memory 7 new added))
update_schema-get_schema_example =
    update_schema-get_schema memory memory_graph memory_codec 7 (schema_of seven).0 added
      added_stored

abbrev pub wire : Wire
wire = record {
  version_parse = λ s. if str_eq s "1.0.0" then some one_zero_zero else none;
  version_text = λ v. "1.0.0";
  version_req_parse = λ s. some s;
  json_parse = λ s. some (bool true);
  json_text = λ v. some "true";
  uuid_text = unary;
  topic_exists = λ s. ok (str_eq s "topic");
  validation_errors = λ s v. [];
}

abbrev server : Server memory.Db
server = record { db = added; replication = new }

abbrev pub rename : SchemaMetadataUpdate
rename = record {
  id = "iiiiiii";
  name = some "renamed";
  topic = none;
  address = none;
  schema_type = none;
}

renamed : (update_schema_metadata memory wire rename server).0 ≡ ok tt
unfolding update_schema_metadata parse_uuid set_type count
renamed =
    rw
      (update_schema_property_found memory memory_graph schema_name_prop 7 (string "renamed") added
        "SCHEMA" added_exists).1
      refl

abbrev retype : SchemaMetadataUpdate
retype = record { id = "iiiiiii"; name = none; topic = none; address = none; schema_type = some 1 }

update_schema_metadata-loses_type_example :
    (s' : Server memory.Db) × (event : ReplicationEvent) × (update_schema_metadata memory wire
        retype server
      ≡ (ok tt, s'))
    × (s'.replication ≡ replicate_message event server.replication)
    × ((Db.get_schema_type memory 7 s'.db).0 ≡ ok timeseries)
    × ((Db.get_schema_type memory 7 (apply_event memory (λ s. none) event added).1).0
        ≡ (Db.get_schema_type memory 7 added).0)
unfolding from_i32 count
update_schema_metadata-loses_type_example =
    update_schema_metadata-loses_type memory memory_graph memory_codec wire (λ s. none) retype
      server 7 1 timeseries "SCHEMA" refl refl refl refl added_exists

abbrev two_zero_zero : Version
two_zero_zero = record { major = 2; minor = 0; patch = 0; pre = []; build = [] }

abbrev newer : NewSchemaVersion
newer = record { version = two_zero_zero; definition = bool false }

newer_built :
    Update.build_full_schema memory (bool false) added
    ≡ (ok (record { definition = bool false }), added)
unfolding Update.build_full_schema Update.definitions_of
newer_built = refl

add_new_version_of_schema-latest_example :
    (db' : memory.Db) × (Update.add_new_version_of_schema memory 7 newer added ≡ (ok tt, db'))
    × (Db.get_schema_definition memory any_of_seven db'
        ≡ (ok (record { version = two_zero_zero; definition = bool false }), db'))
unfolding version_le
add_new_version_of_schema-latest_example =
    add_new_version_of_schema-latest memory memory_graph memory_codec memory_order 7 newer
      (record { definition = bool false }) ((one_zero_zero, 8) ∷ []) "SCHEMA" added added_exists
      added_versions (refl, tt) newer_built

empty_versions : Db.get_schema_versions memory 7 Store.empty ≡ (ok [], Store.empty)
unfolding Db.get_schema_versions Db.connect Db.parse_versions Store.empty
empty_versions = refl

seven_built :
    Update.build_full_schema memory (bool true) Store.empty
    ≡ (ok (record { definition = bool true }), Store.empty)
unfolding Update.build_full_schema Update.definitions_of
seven_built = refl

add_schema-get_schema_example :
    (db' : memory.Db) × (Update.add_schema memory seven (some 7) Store.empty ≡ (ok 7, db'))
    × (Db.get_schema memory 7 db' ≡ (ok (schema_of seven).0, db'))
    × (Db.get_schema_definition memory any_of_seven db'
        ≡ (ok (record { version = one_zero_zero; definition = bool true }), db'))
add_schema-get_schema_example =
    add_schema-get_schema memory memory_graph memory_codec memory_order 7 seven
      (record { definition = bool true }) Store.empty empty_free empty_versions seven_built
