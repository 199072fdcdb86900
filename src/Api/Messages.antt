-- ===== src/Api/Messages.antt =====
-- The mutations of the GraphQL API that send messages to the data router: crates/api/src/schema/mutation.rs,
-- `connect_to_data_router` of schema/context.rs and `MessageQueueArgs::config` of config.rs. The
-- publishers, serde_json and `Uuid::new_v4` are parameters.
use common_data_layer.Prelude.{ℕ, suc, String, Bool, true, Option, List, [], ◌∷◌, ◌++◌}
use common_data_layer.Exec.{Result, ok, err, map_err, ok_or, Exec, pure, lift, ◌>>=◌, ◌>>◌}
use common_data_layer.Fallible
use common_data_layer.Messaging.{Publication}
use common_data_layer.Api.{
  FieldError, no_publisher, publisher_error, invalid_payload, not_serializable,
}

pub record InputMessage : Type 0 where
  pub object_id : ℕ
  pub schema_id : ℕ
  pub payload : String

pub data MessageQueue : Type 0 where
  amqp kafka : MessageQueue

pub record MessageQueueArgs : Type 0 where
  pub message_queue : MessageQueue
  pub kafka_brokers : Option String
  pub kafka_group_id : Option String
  pub amqp_connection_string : Option String
  pub amqp_consumer_tag : Option String

pub data MessageQueueConfig : Type 0 where
  kafka_config : (group_id brokers : String) → MessageQueueConfig
  amqp_config : (connection_string consumer_tag : String) → MessageQueueConfig

unfoldable pub config : MessageQueueArgs → Result String MessageQueueConfig
config args = elim args.message_queue [
  | kafka ↦ Fallible.and_then (ok_or args.kafka_brokers "Missing kafka brokers") λ brokers.
      Fallible.and_then (ok_or args.kafka_group_id "Missing kafka group")
        λ group_id. ok (kafka_config group_id brokers)
  | amqp ↦
      Fallible.and_then (ok_or args.amqp_connection_string "Missing AMQP connection string")
        λ connection_string.
          Fallible.and_then (ok_or args.amqp_consumer_tag "Missing AMQP consumer tag")
            λ consumer_tag. ok (amqp_config connection_string consumer_tag)
]

pub record World : Type 0 where
  pub message_queue : MessageQueueArgs
  pub data_router_topic_or_queue : String
  -- `CommonPublisher::new_amqp` and `new_kafka`
  pub new_amqp : String → Result String (Unit {0})
  pub new_kafka : String → Result String (Unit {0})
  -- What the broker answers, after what it was given before.
  pub publish_message : List Publication → Publication → Result String (Unit {0})
  -- `RawValue::from_string`, and `to_vec` of the message with that value
  pub from_string : String → Result String String
  pub to_vec : ℕ → ℕ → String → Result String String
  -- `Uuid::new_v4`, at its first call, its second, and so on
  pub new_v4 : ℕ → String

-- What the broker was given, and the calls of `new_v4`.
pub record Sender : Type 0 where
  pub published : List Publication
  pub calls : ℕ

abbrev pub Sending : Type 0 → Type 0
Sending A = Exec Sender FieldError A

module _ (w : World) where
  unfoldable pub open_publisher : MessageQueueConfig → Result String (Unit {0})
  open_publisher (amqp_config connection_string consumer_tag) = w.new_amqp connection_string
  open_publisher (kafka_config group_id brokers) = w.new_kafka brokers

  unfoldable pub connect_to_data_router : Result String (Unit {0})
  connect_to_data_router = Fallible.and_then (config w.message_queue) open_publisher

  unfoldable pub payload_of : InputMessage → Result FieldError String
  payload_of message =
      Fallible.and_then (map_err invalid_payload (w.from_string message.payload))
        λ value. map_err not_serializable (w.to_vec message.object_id message.schema_id value)

  unfoldable pub publish : Publication → Sending (Unit {0})
  publish p s = elim (w.publish_message s.published p) [
    | err e ↦ (err (publisher_error e), s)
    | ok u ↦ (ok tt, record s { published = s.published ++ p ∷ [] })
  ]

  unfoldable pub send : String → InputMessage → Sending (Unit {0})
  send key message = do
    payload ← lift (payload_of message)
    publish (record { topic = w.data_router_topic_or_queue; key = key; payload = payload })

  unfoldable pub insert_message : InputMessage → Sending Bool
  insert_message message = do
    lift (map_err no_publisher connect_to_data_router)
    send "" message
    pure true

  unfoldable pub send_all : String → List InputMessage → Sending (Unit {0})
  send_all key [] = pure tt
  send_all key (message ∷ messages) = do send key message; send_all key messages

  abbrev pub new_group : Sending String
  new_group s = (ok (w.new_v4 s.calls), record s { calls = suc s.calls })

  unfoldable pub insert_batch : List InputMessage → Sending Bool
  insert_batch messages = do
    lift (map_err no_publisher connect_to_data_router)
    order_group_id ← new_group
    send_all order_group_id messages
    pure true
