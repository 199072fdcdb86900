-- ===== src/CommandService/Input/MessageQueue.antt =====
-- The input of the command service from a message queue,
-- crates/command-service/src/input/service/message_queue.rs.
use common_data_layer.Prelude.{String, [], ◌∷◌, ◌++◌}
use common_data_layer.Exec.{
  Result, ok, err, map_err, raise, lift, ◌>>=◌, ◌>>◌, Fault, aborts, fails,
}
use common_data_layer.Fallible.{and_then}
use common_data_layer.Messaging.{BorrowedInsertMessage, CommunicationMessage}
use common_data_layer.CommandService.{World, acknowledged, ReportSender, OutputPlugin}
use common_data_layer.CommandService.Input.{
  InputError, payload_deserialization_failed, missing_payload, failed_to_acknowledge, Parsers,
  InputTask, route,
}

unfoldable pub build_message :
    Parsers → CommunicationMessage → Result InputError BorrowedInsertMessage
build_message p message =
    and_then (map_err missing_payload message.payload)
      (λ json. map_err payload_deserialization_failed (p.parse_message json))

abbrev pub acknowledge : {S : Type 0} → Result String (Unit {0}) → InputTask S (Unit {0})
acknowledge (err e) = raise (fails (failed_to_acknowledge e))
acknowledge (ok u) = λ s. (ok tt, record s { effects = s.effects ++ acknowledged ∷ [] })

-- The task of a message aborts the process on an error.
abbrev pub aborted : Result (Fault InputError) (Unit {0}) → Result (Fault InputError) (Unit {0})
aborted (ok u) = ok tt
aborted (err e) = err aborts

module _ {S : Type 0} (w : World) (p : Parsers) (report_sender : ReportSender)
    (plugin : OutputPlugin S) where
  unfoldable pub handle_message : CommunicationMessage → InputTask S (Unit {0})
  handle_message message = do
    generic_message ← lift (map_err fails (build_message p message))
    route w report_sender plugin generic_message
    acknowledge message.ack

  unfoldable pub listen_task : CommunicationMessage → InputTask S (Unit {0})
  listen_task message s = let handled = handle_message message s in (aborted handled.0, handled.1)
