-- ===== src/CommandService/Started.antt =====
-- When the start of the command service panics, crates/command-service/src/main.rs and
-- report/full_report_sender.rs.
use common_data_layer.Prelude.{String, ◌≡◌, refl, ◌↔◌, ◌≢◌, Option, none, some, inl, inr}
use common_data_layer.Exec.{Result, ok, err, map_err, aborts, fails, map_fault, Result-cases}
use common_data_layer.Fallible.{and_then}
use common_data_layer.CommandService.{ReportSender, disabled, full, producer_creation}
use common_data_layer.CommandService.Input.{failed_to_initialize_reporting}
use common_data_layer.CommandService.Settings.{
  MessageQueueConfig, kafka_config, amqp_config, CommunicationConfig, message_queue, grpc,
}
use common_data_layer.CommandService.Start.{
  Broker, publisher, new_report_sender, report_service, new_input, start_input, start_services,
}

-- Reports are asked for, and messages come by gRPC.
abbrev pub AsksGrpcReports : CommunicationConfig → Option String → Type 0
AsksGrpcReports (grpc grpc_port) (some topic) = Unit
AsksGrpcReports (grpc grpc_port) none = ⊥
AsksGrpcReports (message_queue config) topic = ⊥

module _ {Consumer : Type 0} (broker : Broker Consumer) where
  start_input-starts :
      (sender : ReportSender) (config : MessageQueueConfig)
      → start_input broker sender (message_queue config) ≢ err aborts
  unfolding start_input
  start_input-starts sender config h = elim (Result-cases (new_input broker config)) [
    | inl (consumers, e) ↦ cc (rw (e, start_input) at h)
    | inr (r, e) ↦ cc (rw (e, start_input) at h)
  ]

  -- Also with a publisher of reports, whether it could be made or not.
  reported-starts :
      (made : Result String (Unit {0})) (config : MessageQueueConfig) (topic plugin : String)
      → and_then
          (map_err (map_fault failed_to_initialize_reporting) (
            and_then
              (map_err (λ e. fails (producer_creation e)) made)
              (λ u. ok (full topic plugin))))
          (λ sender. start_input broker sender (message_queue config))
        ≢ err aborts
  reported-starts (ok u) config topic plugin h = start_input-starts (full topic plugin) config h
  reported-starts (err e) config topic plugin h = cc

  -- The start panics just when messages come by gRPC and a topic for reports is given.
  pub start_services-aborts :
      (config : CommunicationConfig) (topic : Option String) (plugin : String)
      → (start_services broker config topic plugin ≡ err aborts) ↔ AsksGrpcReports config topic
  unfolding start_services report_service new_report_sender publisher start_input
  start_services-aborts (grpc port) none plugin = (λ h. cc, λ h. absurd h)
  start_services-aborts (grpc port) (some topic) plugin = (λ h. tt, λ h. refl)
  start_services-aborts (message_queue config) none plugin =
      (λ h. start_input-starts disabled config h, λ h. absurd h)
  start_services-aborts (message_queue (kafka_config brokers group_id o u limit)) (some topic)
        plugin =
      (
        λ h.
            reported-starts (broker.new_kafka brokers) (kafka_config brokers group_id o u limit)
              topic plugin h,
        λ h. absurd h,
      )
  start_services-aborts (message_queue (amqp_config tag connection o u limit)) (some topic) plugin =
      (
        λ h.
            reported-starts (broker.new_amqp connection) (amqp_config tag connection o u limit)
              topic plugin h,
        λ h. absurd h,
      )
