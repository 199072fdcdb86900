-- ===== src/CommandService/Input/Grpc.antt =====
-- The gRPC input of the command service, crates/command-service/src/input/service/grpc.rs.
use common_data_layer.Prelude.{String}
use common_data_layer.Exec.{Result, ok, err, map_err, Exec, lift, ◌>>=◌, Fault, aborts, fails}
use common_data_layer.Fallible.{and_then}
use common_data_layer.Messaging.{BorrowedInsertMessage}
use common_data_layer.CommandService.{World, Service, ReportSender, OutputPlugin}
use common_data_layer.CommandService.Input.{
  InputError, payload_deserialization_failed, not_valid_object_id, not_valid_schema_id,
  InsertMessage, Parsers, InputTask, route, input_error_text,
}

unfoldable pub build_message : Parsers → InsertMessage → Result InputError BorrowedInsertMessage
build_message p message =
    and_then (map_err not_valid_object_id (p.parse_uuid message.object_id)) (λ object_id.
      and_then (map_err not_valid_schema_id (p.parse_uuid message.schema_id)) (λ schema_id.
        and_then (map_err payload_deserialization_failed (p.raw_value message.raw_data))
          (λ raw_data. ok (record {
            object_id = object_id;
            schema_id = schema_id;
            timestamp = message.timestamp;
            raw_data = raw_data;
          }))))

-- The answer of a request whose handling ended with that result.
abbrev pub answer : Result (Fault InputError) (Unit {0}) → Result (Fault String) (Unit {0})
answer (ok u) = ok tt
answer (err (fails e)) = err (fails (input_error_text e))
answer (err aborts) = err aborts

module _ {S : Type 0} (w : World) (p : Parsers) (report_sender : ReportSender)
    (plugin : OutputPlugin S) where
  unfoldable pub handle_message : InsertMessage → InputTask S (Unit {0})
  handle_message message = do
    generic_message ← lift (map_err fails (build_message p message))
    route w report_sender plugin generic_message

  unfoldable pub insert : InsertMessage → Exec (Service S) (Fault String) (Unit {0})
  insert message s = let handled = handle_message message s in (answer handled.0, handled.1)
