-- ===== src/CommandService/Tests.antt =====
-- The theorems on the command service at concrete messages and settings.
use common_data_layer.Prelude.{
  ℕ, String, ◌≡◌, refl, ◌↔◌, none, some, List, [], ◌∷◌, ◌++◌, All, str_eq, if◌then◌else◌,
}
use common_data_layer.Json.{null, number}
use common_data_layer.Exec.{ok, err, aborts}
use common_data_layer.Messaging.{CommunicationMessage, BorrowedInsertMessage, to_owned}
use common_data_layer.CommandService
use common_data_layer.CommandService.{
  World, Service, handed, published, acknowledged, with_message_body, report, publish_message,
  success, full, OutputPlugin, storage_layer_failure, display,
}
use common_data_layer.CommandService.Input.{InsertMessage, Parsers}
use common_data_layer.CommandService.Input.Grpc
use common_data_layer.CommandService.Input.MessageQueue
use common_data_layer.CommandService.Druid
use common_data_layer.CommandService.Druid.{DruidWorld, FutureRecord, TimeseriesInputMessage}
use common_data_layer.CommandService.VictoriaMetrics.{VictoriaWorld, build_line_protocol}
use common_data_layer.CommandService.Postgres.{PostgresOutputConfig}
use common_data_layer.CommandService.Settings.{grpc, CommunicationArgs, kafka_method}
use common_data_layer.CommandService.Start.{Broker, start_services}
use common_data_layer.CommandService.Started.{AsksGrpcReports, start_services-aborts}
use common_data_layer.CommandService.Handled.{Handled, handle_message_reported}
use common_data_layer.CommandService.Lines.{IsWritable, build_line_protocol-IsWritable}
use common_data_layer.CommandService.Deliveries.{accepted, records_of, handle_message_blind}

abbrev world : World
world = record {
  parse_value = λ text. ok null;
  to_vec = λ body. ok body.description;
  delivery = λ p. ok tt;
}

abbrev msg : BorrowedInsertMessage
msg = record { object_id = 1; schema_id = 7; timestamp = 100; raw_data = "null" }

abbrev parsers : Parsers
parsers = record {
  parse_uuid = λ text. if str_eq text "one" then ok 1 else ok 7;
  raw_value = λ text. ok text;
  parse_message = λ text. ok msg;
}

-- A plugin that keeps the objects and cannot store.
abbrev failing : OutputPlugin (List ℕ)
failing = record {
  handle_message = λ m s. (storage_layer_failure "full", m.object_id ∷ s);
  name = "failing";
}

abbrev message : CommunicationMessage
message = record { payload = ok "message"; key = ok "order"; ack = ok tt }

abbrev idle : Service (List ℕ)
idle = record { store = []; effects = [] }

handle_message_reported_example :
    let end =
      MessageQueue.handle_message world parsers (full "reports" "failing") failing message idle in
    Handled world parsers "reports" "failing" failing message idle end.0 end.1
handle_message_reported_example =
    handle_message_reported world parsers "reports" "failing" failing message idle

-- The same run, computed.
handle_message_run :
    MessageQueue.handle_message world parsers (full "reports" "failing") failing message idle ≡ (
      ok tt,
      record {
        store = 1 ∷ [];
        effects =
            handed msg
            ∷ published (record {
              topic = "reports";
              key = "command_service.status";
              payload = "failed on database layer, `full`";
            })
            ∷ acknowledged
            ∷ [];
      },
    )
unfolding MessageQueue.handle_message MessageQueue.build_message to_owned display
    CommandService.handle_message with_message_body report publish_message
handle_message_run = refl

abbrev request : InsertMessage
request = record { object_id = "one"; schema_id = "seven"; timestamp = 100; raw_data = "null" }

abbrev druid : DruidWorld
druid = record {
  parse_messages =
      λ text. ok (record { fields = null; ts = 1 } ∷ record { fields = null; ts = 2 } ∷ []);
  to_vec = λ m. "payload";
  uuid_text = λ id. "id";
  send = λ r. err "no broker";
}

handle_message_blind_example :
    (((Druid.handle_message druid "topic" msg []).0 ≡ success)
      ↔ ((values : List TimeseriesInputMessage) × (druid.parse_messages "null" ≡ ok values)))
    × ((Druid.handle_message druid "topic" msg []).1
        ≡ [] ++ accepted druid (records_of druid "topic" msg))
handle_message_blind_example = handle_message_blind druid "topic" msg []

abbrev victoria : VictoriaWorld
victoria = record {
  parse_payloads = λ text. ok (record { fields = ("y01", number "13.4") ∷ []; ts = 123 } ∷ []);
  uuid_text = λ id. "id";
  value_text = λ v. "13.4";
  number_text = λ n. "123";
  set_query = λ url query. url;
  post = λ url body. err "no server";
}

build_line_protocol-IsWritable_example :
    ((text : String) × (build_line_protocol victoria 7 1 "data" ≡ ok text))
    ↔ All IsWritable (record { fields = ("y01", number "13.4") ∷ []; ts = 123 } ∷ [])
build_line_protocol-IsWritable_example =
    build_line_protocol-IsWritable victoria 7 1 "data"
      (record { fields = ("y01", number "13.4") ∷ []; ts = 123 } ∷ []) refl

abbrev database : PostgresOutputConfig
database = record {
  username = "cdl";
  password = "secret";
  host = "db";
  port = 5432;
  dbname = "cdl";
  schema = "cdl_1";
}

abbrev args : CommunicationArgs
args = record {
  communication_method = kafka_method;
  kafka_brokers = some "kafka:9092";
  kafka_group_id = some "command";
  amqp_connection_string = none;
  amqp_consumer_tag = none;
  grpc_port = none;
  ordered_topics_or_queues = some "a,,b";
  unordered_topics_or_queues = none;
  limit = 32;
}

abbrev broker : Broker String
broker = record { new_kafka = λ b. ok tt; new_amqp = λ c. ok tt; new_consumer = λ c. ok "consumer" }

start_services-aborts_example :
    (start_services broker (grpc 50103) (some "reports") "Druid timeseries" ≡ err aborts)
    ↔ AsksGrpcReports (grpc 50103) (some "reports")
start_services-aborts_example =
    start_services-aborts broker (grpc 50103) (some "reports") "Druid timeseries"
