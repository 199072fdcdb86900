-- ===== src/Registry/Start/Tests.antt =====
-- A master that starts again on a store with the schema 7, with a file to import.
use common_data_layer.Prelude.{String, ◌≡◌, refl, none, some, List, [], ◌∷◌}
use common_data_layer.Exec.{ok, err}
use common_data_layer.Registry.Types.{DbExport}
use common_data_layer.Registry.Memory.Instance.{memory, string_from_value}
use common_data_layer.Registry.Replication.{master, new}
use common_data_layer.Registry.Db
use common_data_layer.Registry.Update
use common_data_layer.Registry.Memory.Store
use common_data_layer.Registry.Start.{
  kafka_type, amqp_type, message_queue_type, message_queue, missing_kafka_group, Config,
  Environment, Process, main,
}
use common_data_layer.Registry.Start.Restart.{main_restart}
use common_data_layer.Registry.Tests.{added}

abbrev config : Config
config = record {
  input_port = 6400;
  db_name = "schemas";
  replication_role = master;
  replication_queue = kafka_type;
  kafka_brokers = some "broker";
  kafka_group_id = some "group";
  amqp_connection_string = none;
  amqp_consumer_tag = none;
  replication_topic_or_queue = "schema_replication";
  replication_topic_or_exchange = "schema_replication";
  pod_name = none;
  export_dir = some "exports";
  import_file = some "import.json";
}

abbrev empty_export : DbExport
empty_export = record {
  schemas = [];
  definitions = [];
  views = [];
  schema_definitions = [];
  schema_views = [];
}

-- The files that were written, by their texts.
abbrev env : Environment memory.Db (List String)
env = record {
  open_store = λ name db. ok tt;
  fetch_kafka = λ brokers. ok tt;
  fetch_amqp = λ connection_string. ok tt;
  export_text = λ exported. ok "exported";
  read_export = λ text. ok empty_export;
  export_path = λ dir files. dir;
  create = λ path files. (ok tt, files);
  write = λ path text files. (ok tt, text ∷ files);
  read = λ path files. ok "";
}

abbrev stopped : Process memory.Db (List String)
stopped = record { server = record { db = added; replication = new }; files = [] }

message_queue_incomplete :
    message_queue (record config { kafka_group_id = none }) ≡ err missing_kafka_group
unfolding message_queue
message_queue_incomplete = refl

message_queue_type_amqp : message_queue_type "amqp" ≡ ok amqp_type
unfolding message_queue_type
message_queue_type_amqp = refl

added_names : (Db.get_all_schema_names memory added).0 ≡ ok ((7, "seven") ∷ [])
unfolding Db.get_all_schema_names Db.connect Db.collect Db.name_of_vertex Store.get_range_property
    Update.add_schema Update.build_full_schema Update.definitions_of
    Db.create_vertex_with_properties Db.new_vertex Db.set_each Db.set_edge_properties
    Db.set_each_edge Store.empty Store.add Store.create_vertex Store.create_vertex_from_type
    Store.with_property Store.set_vertex_property Store.with_link Store.create_edge
    Store.set_edge_at Store.set_edge_property string_from_value
added_names = refl

main_restart_example : (main memory env (ok config) stopped).1.server.db ≡ added
main_restart_example = main_restart memory env (ok config) stopped (7, "seven") [] added_names
