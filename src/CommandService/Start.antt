-- ===== src/CommandService/Start.antt =====
-- The start of the command service: `start_services` of crates/command-service/src/main.rs, up to
-- the listening or the serving, with FullReportSenderBase::new and MessageQueueInput::new.
use common_data_layer.Prelude.{ℕ, String, Option, none, some, List, ◌++◌}
use common_data_layer.Exec.{Result, ok, err, map_err, Fault, aborts, fails, map_fault}
use common_data_layer.Fallible.{◌>>=◌, ◌>>◌, collect_map}
use common_data_layer.Messaging.{CommonConsumerConfig}
use common_data_layer.CommandService.{ReportError, producer_creation, ReportSender, full, disabled}
use common_data_layer.CommandService.Input.{
  InputError, consumer_creation_failed, failed_to_initialize_reporting,
}
use common_data_layer.CommandService.Settings.{
  MessageQueueConfig, kafka_config, amqp_config, CommunicationConfig, message_queue, grpc,
  ordered_configs, unordered_configs,
}

-- A service that is about to listen to its consumers, or to serve at its port.
pub data Started (Consumer : Type 0) : Type 0 where
  listens : List Consumer → ReportSender → Started Consumer
  serves : (grpc_port : ℕ) → ReportSender → Started Consumer

-- The constructors of the publishers and the consumers.
pub record Broker (Consumer : Type 0) : Type 0 where
  pub new_kafka : String → Result String (Unit {0})
  pub new_amqp : String → Result String (Unit {0})
  pub new_consumer : CommonConsumerConfig → Result String Consumer

module _ {Consumer : Type 0} (broker : Broker Consumer) where
  -- The publisher of the reports; with gRPC the code is `unreachable!()`, a panic.
  unfoldable pub publisher : CommunicationConfig → Result (Fault ReportError) (Unit {0})
  publisher (message_queue (kafka_config brokers group_id ordered unordered limit)) =
      map_err (λ e. fails (producer_creation e)) (broker.new_kafka brokers)
  publisher (message_queue (amqp_config consumer_tag connection_string ordered unordered limit)) =
      map_err (λ e. fails (producer_creation e)) (broker.new_amqp connection_string)
  publisher (grpc grpc_port) = err aborts

  unfoldable pub new_report_sender :
      CommunicationConfig → String → String → Result (Fault ReportError) ReportSender
  new_report_sender communication_config topic_or_exchange output_plugin = do
    publisher communication_config
    ok (full topic_or_exchange output_plugin)

  unfoldable pub report_service :
      CommunicationConfig → Option String → String → Result (Fault InputError) ReportSender
  report_service communication_config none output_plugin = ok disabled
  report_service communication_config (some topic) output_plugin =
      map_err (map_fault failed_to_initialize_reporting)
        (new_report_sender communication_config topic output_plugin)

  unfoldable pub new_input : MessageQueueConfig → Result InputError (List Consumer)
  new_input config = do
    ordered ←
        map_err consumer_creation_failed (collect_map broker.new_consumer (ordered_configs config))
    unordered ←
        map_err consumer_creation_failed
          (collect_map broker.new_consumer (unordered_configs config))
    ok (ordered ++ unordered)

  unfoldable pub start_input :
      ReportSender → CommunicationConfig → Result (Fault InputError) (Started Consumer)
  start_input sender (message_queue config) = do
    consumers ← map_err fails (new_input config)
    ok (listens consumers sender)
  start_input sender (grpc grpc_port) = ok (serves grpc_port sender)

  unfoldable pub start_services :
      CommunicationConfig → Option String → String → Result (Fault InputError) (Started Consumer)
  start_services communication_config topic_or_exchange output_plugin = do
    sender ← report_service communication_config topic_or_exchange output_plugin
    start_input sender communication_config
