-- ===== src/Api/Tests.antt =====
-- The theorems on the GraphQL API at a registry in memory, and at a broker that refuses a message.
use common_data_layer.Prelude.{
  ℕ, String, ◌≡◌, refl, ap, Bool, true, false, none, some, List, [], ◌∷◌, str_eq, if◌then◌else◌,
}
use common_data_layer.Json.{bool}
use common_data_layer.Exec.{Result, ok, err}
use common_data_layer.Messaging.{CommonConsumerConfig}
use common_data_layer.Registry.Types.{document_storage}
use common_data_layer.Registry.Db
use common_data_layer.Registry.Update
use common_data_layer.Registry.Replication
use common_data_layer.Registry.Memory.Store
use common_data_layer.Registry.Memory.Instance.{memory, memory_codec, memory_order, count-unary}
use common_data_layer.Registry.Memory.Graph.{memory_graph}
use common_data_layer.Registry.Rpc.{Server}
use common_data_layer.Registry.Tests.{wire}
use common_data_layer.Registry.Views.Tests.{nine, viewed, viewed_stored}
use common_data_layer.Api.{NewSchema, UpdateView}
use common_data_layer.Api.Mutation.{add_schema, update_view}
use common_data_layer.Api.Query.{schema, view}
use common_data_layer.Api.Messages.{
  InputMessage, MessageQueueArgs, kafka, World, Sender, config, open_publisher,
  connect_to_data_router, insert_batch,
}
use common_data_layer.Api.Sent.{IsPrefix, insert_batch-IsPrefix}
use common_data_layer.Api.Created.{created, add_schema-schema}
use common_data_layer.Api.Updated.{over, updated_view, update_view-answer}
use common_data_layer.Api.Subscriptions.{
  Subscriptions, EventStream, set, start, new_subscriber, subscribe_on_message_queue, Steps, done,
  next, subscribes, closes,
}
use common_data_layer.Api.Subscriptions.Dead.{received, subscribe_on_message_queue_dead}

text_of_id : (id : ℕ) → memory.uuid_parse (wire.uuid_text id) ≡ some id
text_of_id id = ap some (count-unary id)

abbrev new_schema : NewSchema
new_schema = record {
  name = "seven";
  query_address = "http://query";
  topic = "topic";
  definition = "true";
  schema_type = document_storage;
}

abbrev nothing : Server memory.Db
nothing = record { db = Store.empty; replication = Replication.new }

add_schema-schema_example :
    (id : ℕ) × (s' : Server memory.Db) × (add_schema (over memory wire) new_schema nothing
      ≡ (ok (created id new_schema), s'))
    × (schema (over memory wire) id s' ≡ (ok (created id new_schema), s'))
unfolding Db.get_schema_versions Db.connect Db.parse_versions Store.empty Update.build_full_schema
    Update.definitions_of
add_schema-schema_example =
    add_schema-schema memory memory_graph memory_codec memory_order wire new_schema (bool true)
      (record { definition = bool true }) nothing text_of_id (λ id free. refl) refl refl refl

abbrev views_server : Server memory.Db
views_server = record { db = viewed; replication = Replication.new }

abbrev renamed : UpdateView
renamed = record { name = some "renamed"; expression = none }

update_view-answer_example :
    (s' : Server memory.Db) × (update_view (over memory wire) 9 renamed views_server
      ≡ (ok (updated_view memory memory_graph memory_codec wire 9 renamed nine), s'))
    × (view (over memory wire) 9 s'
        ≡ (ok (updated_view memory memory_graph memory_codec wire 9 renamed nine), s'))
update_view-answer_example =
    update_view-answer memory memory_graph memory_codec wire 9 renamed nine views_server
      (text_of_id 9) viewed_stored refl

abbrev args : MessageQueueArgs
args = record {
  message_queue = kafka;
  kafka_brokers = some "broker";
  kafka_group_id = some "group";
  amqp_connection_string = none;
  amqp_consumer_tag = none;
}

abbrev world : World
world = record {
  message_queue = args;
  data_router_topic_or_queue = "input";
  new_amqp = λ s. err "no broker";
  new_kafka = λ s. ok tt;
  publish_message = λ ps p. if str_eq p.payload "two" then err "too large" else ok tt;
  from_string = λ s. ok s;
  to_vec = λ o s d. ok d;
  new_v4 = λ n. "group-1";
}

abbrev sender : Sender
sender = record { published = []; calls = 0 }

abbrev batch : List InputMessage
batch =
    record { object_id = 1; schema_id = 7; payload = "one" }
    ∷ record { object_id = 2; schema_id = 7; payload = "two" }
    ∷ []

insert_batch-IsPrefix_example :
    IsPrefix world Bool "group-1" batch sender
      (insert_batch world batch sender).0
      (insert_batch world batch sender).1
unfolding connect_to_data_router config open_publisher
insert_batch-IsPrefix_example = insert_batch-IsPrefix world batch sender refl

abbrev made : CommonConsumerConfig → Result String (Unit {0})
made c = ok tt

abbrev first_client : Subscriptions
first_client = (subscribe_on_message_queue args made "reports" start).1

abbrev ended : Subscriptions
ended = record first_client {
  channels =
      set 0 (record { sent = (first_client.channels 0).sent; consuming = false })
        first_client.channels;
}

ended_reached : Steps args made start ended
unfolding subscribe_on_message_queue new_subscriber config
ended_reached = next (next done (subscribes start "reports")) (closes first_client 0 refl)

subscribe_on_message_queue_dead_example :
    (r : EventStream) × (subscribe_on_message_queue args made "reports" ended ≡ (ok r, ended))
    × (received r ended ≡ [])
unfolding subscribe_on_message_queue new_subscriber config
subscribe_on_message_queue_dead_example =
    subscribe_on_message_queue_dead args made "reports" 0 ended ended ended ended_reached refl refl
      done done
