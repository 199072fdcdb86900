-- ===== src/CommandService.antt =====
-- The command service, crates/command-service/src: what becomes of a message that reached it
-- (communication/mod.rs, communication/resolution.rs, report/mod.rs, report/full_report_sender.rs).
pub mod Input
pub mod Settings
pub mod Start
pub mod Started
pub mod Druid
pub mod Postgres
pub mod VictoriaMetrics
pub mod Handled
pub mod Alike
pub mod Lines
pub mod Deliveries
pub mod Names
pub mod Consumers
mod Tests
use Prim.Native.String.{◌++◌ as str_append}
use common_data_layer.Prelude.{ℕ, suc, String, Option, none, some, List, [], ◌∷◌, ◌++◌}
use common_data_layer.Json.{Value}
use common_data_layer.Exec.{
  Result, ok, err, map_err, Exec, pure, raise, lift, ◌>>=◌, ◌>>◌, Fault, aborts, fails,
}
use common_data_layer.Messaging.{BorrowedInsertMessage, OwnedInsertMessage, to_owned, Publication}

pub data Resolution : Type 0 where
  storage_layer_failure : (description : String) → Resolution
  command_service_failure : Resolution
  user_failure : (description context : String) → Resolution
  success : Resolution

-- `Display`
unfoldable pub display : Resolution → String
display (storage_layer_failure description) =
    str_append "failed on database layer, `" (str_append description "`")
display command_service_failure = "internal server error"
display (user_failure description context) =
    str_append description (str_append "; caused by " context)
display success = "success"

-- `report::Error`
pub data ReportError : Type 0 where
  producer_creation failed_to_report failed_to_produce_error_message : String → ReportError

-- A plugin acts on a store of its own.
pub record OutputPlugin (S : Type 0) : Type 0 where
  pub handle_message : BorrowedInsertMessage → S → Resolution × S
  pub name : String

pub record ReportBody : Type 0 where
  pub application : String
  pub output_plugin : String
  pub description : String
  pub object_id : ℕ
  pub payload : Value

-- `FullReportSenderBase`, without its producer.
pub data ReportSender : Type 0 where
  full : (topic output_plugin : String) → ReportSender
  disabled : ReportSender

-- What `with_message_body` gives: the reporter `()`, or a `FullReportSender`.
pub data Reporter : Type 0 where
  silent : Reporter
  full_report_sender : (topic output_plugin : String) (msg : OwnedInsertMessage) → Reporter

-- serde_json and the broker.
pub record World : Type 0 where
  pub parse_value : String → Result String Value
  pub to_vec : ReportBody → Result String String
  pub delivery : Publication → Result String (Unit {0})

-- What a task has done to the outside: a message went to the plugin, a report to the broker, or an
-- acknowledgement to the queue.
pub data Effect : Type 0 where
  handed : BorrowedInsertMessage → Effect
  published : Publication → Effect
  acknowledged : Effect

-- The store of the plugin, and the effects in their order.
pub record Service (S : Type 0) : Type 0 where
  pub store : S
  pub effects : List Effect

abbrev pub Task : Type 0 → Type 0 → Type 0
Task S A = Exec (Service S) (Fault ReportError) A

abbrev pub report_body : String → OwnedInsertMessage → String → ReportBody
report_body output_plugin msg description = record {
  application = "Command Service";
  output_plugin = output_plugin;
  description = description;
  object_id = msg.object_id;
  payload = msg.raw_data;
}

-- A data that is not JSON is a panic.
unfoldable pub with_message_body :
    World → ReportSender → BorrowedInsertMessage → Result (Fault ReportError) Reporter
with_message_body w disabled msg = ok silent
with_message_body w (full topic output_plugin) msg = elim (to_owned w.parse_value msg) [
  | none ↦ err aborts
  | some owned ↦ ok (full_report_sender topic output_plugin owned)
]

module _ {S : Type 0} (w : World) where
  unfoldable pub publish_message : Publication → Task S (Unit {0})
  publish_message p s = elim (w.delivery p) [
    | err e ↦ (err (fails (failed_to_report e)), s)
    | ok u ↦ (ok tt, record s { effects = s.effects ++ published p ∷ [] })
  ]

  unfoldable pub report : Reporter → String → Task S (Unit {0})
  report silent description = pure tt
  report (full_report_sender topic output_plugin msg) description = do
    bytes ← lift (
        map_err (λ e. fails (failed_to_produce_error_message e))
          (w.to_vec (report_body output_plugin msg description)))
    publish_message (record { topic = topic; key = "command_service.status"; payload = bytes })

  abbrev pub output : OutputPlugin S → BorrowedInsertMessage → Task S Resolution
  output plugin msg s =
      let handled = plugin.handle_message msg s.store in
      (ok handled.0, record s { store = handled.1; effects = s.effects ++ handed msg ∷ [] })

  -- `MessageRouter::handle_message`
  unfoldable pub handle_message :
      ReportSender → OutputPlugin S → BorrowedInsertMessage → Task S (Unit {0})
  handle_message report_sender output_plugin msg = do
    instance_ ← lift (with_message_body w report_sender msg)
    status ← output output_plugin msg
    report instance_ (display status)
