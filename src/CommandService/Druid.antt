-- ===== src/CommandService/Druid.antt =====
-- The Druid output of the command service, crates/command-service/src/output/druid/mod.rs.
use common_data_layer.Prelude.{ℕ, String, List, [], ◌∷◌, ◌++◌, map}
use common_data_layer.Json.{Value}
use common_data_layer.Exec.{Result, ok, err}
use common_data_layer.Messaging.{BorrowedInsertMessage}
use common_data_layer.CommandService.{
  Resolution, storage_layer_failure, user_failure, success, OutputPlugin,
}

pub record TimeseriesInputMessage : Type 0 where
  pub fields : Value
  pub ts : ℕ

pub record DruidOutputMessage : Type 0 where
  pub fields : Value
  pub ts : ℕ
  pub object_id : ℕ
  pub schema_id : ℕ

-- A record for the producer, with no partition and no headers.
pub record FutureRecord : Type 0 where
  pub topic : String
  pub payload : String
  pub key : String
  pub timestamp : ℕ

-- serde_json, the texts of UUIDs and the broker. Serializing a message to Druid does not fail.
pub record DruidWorld : Type 0 where
  pub parse_messages : String → Result String (List TimeseriesInputMessage)
  pub to_vec : DruidOutputMessage → String
  pub uuid_text : ℕ → String
  pub send : FutureRecord → Result String (Unit {0})

module _ (w : DruidWorld) where
  unfoldable pub deserialize_payloads : BorrowedInsertMessage → Result Resolution (List String)
  deserialize_payloads msg = elim (w.parse_messages msg.raw_data) [
    | ok values ↦ ok (
        map
          (λ payload. w.to_vec (record {
            fields = payload.fields;
            ts = payload.ts;
            object_id = msg.object_id;
            schema_id = msg.schema_id;
          }))
          values)
    | err e ↦ err (user_failure e msg.raw_data)
  ]

  -- The records that the broker took, in order.
  abbrev pub Sent : Type 0
  Sent = List FutureRecord

  abbrev pub send_one : FutureRecord → Sent → Result Resolution Resolution × Sent
  send_one message s = elim (w.send message) [
    | err e ↦ (err (storage_layer_failure e), s)
    | ok u ↦ (ok success, s ++ message ∷ [])
  ]

  unfoldable pub send_each : List FutureRecord → Sent → List (Result Resolution Resolution) × Sent
  send_each [] s = ([], s)
  send_each (message ∷ messages) s =
      let first = send_one message s in
      let rest = send_each messages first.1 in (first.0 ∷ rest.0, rest.1)

  abbrev pub records : String → BorrowedInsertMessage → List String → List FutureRecord
  records topic msg payloads =
      map
        (λ payload. record {
          topic = topic;
          payload = payload;
          key = w.uuid_text msg.object_id;
          timestamp = msg.timestamp;
        })
        payloads

  -- The results of the sends are collected, and not looked at.
  unfoldable pub handle_message : String → BorrowedInsertMessage → Sent → Resolution × Sent
  handle_message topic msg s = elim (deserialize_payloads msg) [
    | err e ↦ (e, s)
    | ok payloads ↦
        let collected = send_each (records topic msg payloads) s in (success, collected.1)
  ]

  abbrev pub plugin : String → OutputPlugin Sent
  plugin topic = record { handle_message = handle_message topic; name = "Druid timeseries" }
