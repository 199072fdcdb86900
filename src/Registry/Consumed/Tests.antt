-- ===== src/Registry/Consumed/Tests.antt =====
-- A master whose schema 7 is renamed, and a replica that follows it.
use common_data_layer.Prelude.{String, ◌≡◌, refl, false, Option, none, some, [], ◌∷◌}
use common_data_layer.Json.{string}
use common_data_layer.Exec.{ok}
use common_data_layer.Registry.Types.{schema_name_prop}
use common_data_layer.Registry.Memory.Instance.{memory, count}
use common_data_layer.Registry.Memory.Graph.{memory_graph}
use common_data_layer.Registry.Metadata.{update_schema_property_found}
use common_data_layer.Registry.Replication.{
  ReplicationEvent, replicate_message, master, fresh_worker, is_receiving, at_worker,
}
use common_data_layer.Registry.Replica.{Message, consume_mq}
use common_data_layer.Registry.Rpc.{Server, update_schema_metadata, parse_uuid, set_type}
use common_data_layer.Registry.Histories.{metadata, answer, done, next}
use common_data_layer.Registry.Consumed.{IsMaster, events_at, Carries, consume_mq-follows}
use common_data_layer.Registry.Tests.{added, added_exists, wire, rename}

abbrev leading : Server memory.Db
leading = record {
  db = added;
  replication = record {
    replication_role = master;
    stop_channel = some 0;
    master_replication_channel = some 0;
    workers = fresh_worker ∷ [];
  };
}

abbrev renames : ReplicationEvent
renames = ReplicationEvent.update_schema_metadata 7 (some "renamed") none none none

abbrev parse_renames : String → Option ReplicationEvent
parse_renames text = some renames

abbrev renames_message : Message
renames_message = record { payload = ok "event"; ack = ok tt }

abbrev led : Server memory.Db
led = (answer memory wire (metadata rename) leading).1

leading_renamed : (update_schema_metadata memory wire rename leading).0 ≡ ok tt
unfolding update_schema_metadata parse_uuid set_type count
leading_renamed =
    rw
      (update_schema_property_found memory memory_graph schema_name_prop 7 (string "renamed") added
        "SCHEMA" added_exists).1
      refl

leading_IsMaster : IsMaster 0 leading.replication
unfolding is_receiving
leading_IsMaster = record { role = refl; channel = refl; receiving = refl }

led_events : events_at 0 led.replication.workers ≡ renames ∷ []
unfolding update_schema_metadata parse_uuid set_type count events_at replicate_message is_receiving
    at_worker
led_events =
    rw
      (
        (update_schema_property_found memory memory_graph schema_name_prop 7 (string "renamed")
            added "SCHEMA" added_exists).1,
        events_at,
        update_schema_metadata,
        set_type,
      )
      refl

consume_mq-follows_example :
    consume_mq memory parse_renames ((false, ok renames_message) ∷ []) added ≡ led.db
unfolding Carries events_at
consume_mq-follows_example =
    consume_mq-follows memory wire parse_renames leading led 0 (renames ∷ [])
      ((false, ok renames_message) ∷ []) leading_IsMaster
      (next (metadata rename) refl leading_renamed done) led_events
      ((renames_message, "event", refl, refl, refl), tt)
