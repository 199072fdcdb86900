-- ===== src/CommandService/Input.antt =====
-- The inputs of the command service: crates/command-service/src/input/service/grpc.rs and
-- message_queue.rs, with the errors of input/error.rs.
pub mod Grpc
pub mod MessageQueue
use Prim.Native.String.{◌++◌ as str_append}
use common_data_layer.Prelude.{ℕ, String}
use common_data_layer.Exec.{Result, Exec, Fault, exec_map_err}
use common_data_layer.Messaging.{BorrowedInsertMessage}
use common_data_layer.CommandService.{
  World, Service, ReportError, ReportSender, OutputPlugin, handle_message, producer_creation,
  failed_to_report, failed_to_produce_error_message,
}

pub data InputError : Type 0 where
  payload_deserialization_failed consumer_creation_failed failed_to_acknowledge
        server_creation_failed missing_payload failed_reading_message :
      String → InputError
  not_valid_uuid : (what error : String) → InputError
  communication_error failed_to_initialize_reporting : ReportError → InputError

abbrev pub quoted : String → String → String
quoted before text = str_append before (str_append text "`")

-- The texts of the errors.
unfoldable pub report_error_text : ReportError → String
report_error_text (producer_creation e) = quoted "Failed to create producer `" e
report_error_text (failed_to_report e) = quoted "Failed to deliver report `" e
report_error_text (failed_to_produce_error_message e) = quoted "Failed to produce error message `" e

unfoldable pub input_error_text : InputError → String
unfolding report_error_text
input_error_text (payload_deserialization_failed e) =
    str_append "Message payload deserialization failed: " e
input_error_text (consumer_creation_failed e) = quoted "Failed to create message queue consumer `" e
input_error_text (server_creation_failed e) = quoted "Failed to create GRPC server `" e
input_error_text (failed_reading_message e) = quoted "Failed to read message `" e
input_error_text (failed_to_initialize_reporting e) = "Failed to initialize reporting module"
input_error_text (failed_to_acknowledge e) = quoted "Failed to acknowledge message `" e
input_error_text (missing_payload e) = str_append "Message is missing payload `" e
input_error_text (not_valid_uuid what e) =
    str_append "Message has a non-UUID " (str_append what (str_append ": " e))
input_error_text (communication_error e) =
    quoted "Failed to communicate with handler `" (report_error_text e)

unfoldable pub not_valid_object_id : String → InputError
not_valid_object_id error = not_valid_uuid "Object ID" error

unfoldable pub not_valid_schema_id : String → InputError
not_valid_schema_id error = not_valid_uuid "Schema ID" error

-- `rpc::command_service::InsertMessage`; the data are its bytes as a text.
pub record InsertMessage : Type 0 where
  pub object_id : String
  pub schema_id : String
  pub timestamp : ℕ
  pub raw_data : String

-- UUIDs and serde_json.
pub record Parsers : Type 0 where
  pub parse_uuid : String → Result String ℕ
  pub raw_value : String → Result String String
  pub parse_message : String → Result String BorrowedInsertMessage

abbrev pub InputTask : Type 0 → Type 0 → Type 0
InputTask S A = Exec (Service S) (Fault InputError) A

module _ {S : Type 0} (w : World) (report_sender : ReportSender) (plugin : OutputPlugin S) where
  abbrev pub route : BorrowedInsertMessage → InputTask S (Unit {0})
  route msg = exec_map_err communication_error (handle_message w report_sender plugin msg)
