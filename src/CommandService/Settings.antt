-- ===== src/CommandService/Settings.antt =====
-- The settings of the command service: crates/command-service/src/args.rs and
-- communication/config.rs.
use Prim.Native.Char.{Char, code}
use Prim.Native.String.{[] as empty, ◌∷◌ as add_char}
use common_data_layer.Prelude.{
  ℕ, String, Option, none, some, List, [], ◌∷◌, map, Bool, true, false, ◌&&◌, ◌==◌, str_eq,
  if◌then◌else◌,
}
use common_data_layer.Exec.{Result, ok, err, ok_or}
use common_data_layer.Fallible.{◌>>=◌}
use common_data_layer.Messaging.{CommonConsumerConfig, kafka, amqp}

pub data MessageQueueConfig : Type 0 where
  kafka_config :
      (brokers group_id : String) (ordered_topics unordered_topics : List String) (task_limit : ℕ)
      → MessageQueueConfig
  amqp_config :
      (consumer_tag connection_string : String)
      (ordered_queue_names unordered_queue_names : List String) (task_limit : ℕ)
      → MessageQueueConfig

pub data CommunicationConfig : Type 0 where
  message_queue : MessageQueueConfig → CommunicationConfig
  grpc : (grpc_port : ℕ) → CommunicationConfig

unfoldable pub task_limit : MessageQueueConfig → ℕ
task_limit (kafka_config brokers group_id ordered unordered limit) = limit
task_limit (amqp_config consumer_tag connection_string ordered unordered limit) = limit

unfoldable pub ordered_configs : MessageQueueConfig → List CommonConsumerConfig
ordered_configs (kafka_config brokers group_id ordered unordered limit) =
    map (λ topic. kafka brokers group_id topic) ordered
ordered_configs (amqp_config consumer_tag connection_string ordered unordered limit) =
    map (λ queue_name. amqp connection_string consumer_tag queue_name (some true)) ordered

unfoldable pub unordered_configs : MessageQueueConfig → List CommonConsumerConfig
unordered_configs (kafka_config brokers group_id ordered unordered limit) =
    map (λ topic. kafka brokers group_id topic) unordered
unordered_configs (amqp_config consumer_tag connection_string ordered unordered limit) =
    map (λ queue_name. amqp connection_string consumer_tag queue_name (some false)) unordered

pub data CommunicationMethod : Type 0 where
  amqp_method kafka_method grpc_method : CommunicationMethod

pub record CommunicationArgs : Type 0 where
  pub communication_method : CommunicationMethod
  pub kafka_brokers : Option String
  pub kafka_group_id : Option String
  pub amqp_connection_string : Option String
  pub amqp_consumer_tag : Option String
  pub grpc_port : Option ℕ
  pub ordered_topics_or_queues : Option String
  pub unordered_topics_or_queues : Option String
  pub limit : ℕ

pub data MissingConfigError : Type 0 where
  missing_config : String → MissingConfigError

-- The first part of a text before a separator, and the parts after it.
abbrev split_first : Bool → Char → String × List String → String × List String
split_first true c parts = (empty, parts.0 ∷ parts.1)
split_first false c parts = (add_char c parts.0, parts.1)

abbrev split_parts : ℕ → String → String × List String
split_parts separator empty = (empty, [])
split_parts separator (add_char c s) = split_first (code c == separator) c (split_parts separator s)

-- `split`
unfoldable pub split : ℕ → String → List String
split separator s = let parts = split_parts separator s in parts.0 ∷ parts.1

-- `filter(|name| !name.is_empty())`
abbrev pub not_empty : List String → List String
not_empty [] = []
not_empty (name ∷ names) =
    let rest = not_empty names in if str_eq name "" then rest else name ∷ rest

abbrev pub text_or_empty : Option String → String
text_or_empty none = ""
text_or_empty (some s) = s

-- The names of a setting, parted by commas.
unfoldable pub queue_names : Option String → List String
queue_names setting = not_empty (split 44 (text_or_empty setting))

abbrev pub is_empty : List String → Bool
is_empty [] = true
is_empty (x ∷ xs) = false

unfoldable pub amqp_settings :
    CommunicationArgs → List String → List String → Result MissingConfigError CommunicationConfig
amqp_settings args ordered unordered = do
  consumer_tag ← ok_or args.amqp_consumer_tag (missing_config "AMQP consumer tag")
  connection_string ← ok_or args.amqp_connection_string (missing_config "AMQP connection string")
  ok (message_queue (amqp_config consumer_tag connection_string ordered unordered args.limit))

unfoldable pub kafka_settings :
    CommunicationArgs → List String → List String → Result MissingConfigError CommunicationConfig
kafka_settings args ordered unordered = do
  brokers ← ok_or args.kafka_brokers (missing_config "Kafka brokers")
  group_id ← ok_or args.kafka_group_id (missing_config "Kafka group")
  ok (message_queue (kafka_config brokers group_id ordered unordered args.limit))

unfoldable pub grpc_settings : CommunicationArgs → Result MissingConfigError CommunicationConfig
grpc_settings args = do
  grpc_port ← ok_or args.grpc_port (missing_config "GRPC port")
  ok (grpc grpc_port)

-- The settings of a queue, unless no queue is named.
abbrev pub with_queues :
    (List String → List String → Result MissingConfigError CommunicationConfig)
    → List String
    → List String
    → Result MissingConfigError CommunicationConfig
with_queues settings ordered unordered =
    if is_empty ordered && is_empty unordered
    then err (missing_config "Queue names")
    else settings ordered unordered

unfoldable pub communication_config :
    CommunicationArgs → Result MissingConfigError CommunicationConfig
communication_config args =
    let ordered = queue_names args.ordered_topics_or_queues in
    let unordered = queue_names args.unordered_topics_or_queues in
    elim args.communication_method [
      | amqp_method ↦ with_queues (amqp_settings args) ordered unordered
      | kafka_method ↦ with_queues (kafka_settings args) ordered unordered
      | grpc_method ↦ grpc_settings args
    ]
