-- ===== src/Messaging.antt =====
-- What the services share of crates/utils: messages of a queue (messaging_system/message.rs, mod.rs),
-- insert messages (message_types.rs) and the settings of a consumer (messaging_system/consumer.rs).
use common_data_layer.Prelude.{ℕ, String, Bool, Option, none, some, str_eq, if◌then◌else◌}
use common_data_layer.Json.{Value}
use common_data_layer.Exec.{Result, ok, err}

-- What `payload`, `key` and `ack` of a message give.
pub record CommunicationMessage : Type 0 where
  pub payload : Result String String
  pub key : Result String String
  pub ack : Result String (Unit {0})

-- The key of a message, unless it has none or an empty one.
unfoldable pub get_order_group_id : CommunicationMessage → Option String
get_order_group_id message = elim message.key [
  | err e ↦ none
  | ok key ↦ if str_eq key "" then none else some key
]

-- The field `data`, a `RawValue` of serde_json, is its text.
pub record BorrowedInsertMessage : Type 0 where
  pub object_id : ℕ
  pub schema_id : ℕ
  pub timestamp : ℕ
  pub raw_data : String

pub record OwnedInsertMessage : Type 0 where
  pub object_id : ℕ
  pub schema_id : ℕ
  pub timestamp : ℕ
  pub raw_data : Value

pub record DataRouterInsertMessage : Type 0 where
  pub object_id : ℕ
  pub schema_id : ℕ
  pub raw_data : String

-- `to_owned`, with the parser of JSON; `none` is the panic on a data that is not JSON.
unfoldable pub to_owned :
    (String → Result String Value) → BorrowedInsertMessage → Option OwnedInsertMessage
to_owned parse message = elim (parse message.raw_data) [
  | err e ↦ none
  | ok value ↦ some (record {
    object_id = message.object_id;
    schema_id = message.schema_id;
    timestamp = message.timestamp;
    raw_data = value;
  })
]

-- The options of an AMQP consumer are their `exclusive` flag, the others keep their defaults.
pub data CommonConsumerConfig : Type 0 where
  kafka : (brokers group_id topic : String) → CommonConsumerConfig
  amqp :
      (connection_string consumer_tag queue_name : String) (exclusive : Option Bool)
      → CommonConsumerConfig

-- A message that was handed to a broker: `publish_message`.
pub record Publication : Type 0 where
  pub topic : String
  pub key : String
  pub payload : String
