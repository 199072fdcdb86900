-- ===== src/DataRouter/Settings.antt =====
-- The settings of the data router: Config, new_producer and new_consumer of
-- crates/data-router/src/main.rs.
use common_data_layer.Prelude.{ℕ, String, ◌≡◌, refl, ap, ◌⊎◌, inl, inr, Option, none, Option-cases}
use common_data_layer.Exec.{Result, ok, ok_or, ok-injective}
use common_data_layer.Fallible.{◌>>=◌}
use common_data_layer.Messaging.{CommonConsumerConfig, kafka, amqp}

pub data MessageQueueKind : Type 0 where
  kafka_queue amqp_queue : MessageQueueKind

pub record Config : Type 0 where
  pub message_queue : MessageQueueKind
  pub kafka_brokers : Option String
  pub kafka_group_id : Option String
  pub amqp_connection_string : Option String
  pub amqp_consumer_tag : Option String
  pub input_topic_or_queue : String
  pub error_topic_or_exchange : String
  pub schema_registry_addr : String
  pub cache_capacity : ℕ
  pub task_limit : ℕ
  pub metrics_port : ℕ

queue-cases : (k : MessageQueueKind) → (k ≡ kafka_queue) ⊎ (k ≡ amqp_queue)
queue-cases kafka_queue = inl refl
queue-cases amqp_queue = inr refl

-- With the constructors of the publishers.
module _ {P : Type 0} (new_kafka new_amqp : String → Result String P) where
  unfoldable pub new_producer : Config → Result String P
  new_producer config = elim config.message_queue [
    | kafka_queue ↦ do
      brokers ← ok_or config.kafka_brokers "kafka brokers were not specified"
      new_kafka brokers
    | amqp_queue ↦ do
      connection_string ←
          ok_or config.amqp_connection_string "amqp connection string was not specified"
      new_amqp connection_string
  ]

-- The configuration of the consumer, up to the call of `CommonConsumer::new`.
unfoldable pub consumer_config : Config → String → Result String CommonConsumerConfig
consumer_config config topic_or_queue = elim config.message_queue [
  | kafka_queue ↦ do
    brokers ← ok_or config.kafka_brokers "kafka brokers were not specified"
    group_id ← ok_or config.kafka_group_id "kafka group was not specified"
    ok (kafka brokers group_id topic_or_queue)
  | amqp_queue ↦ do
    connection_string ←
        ok_or config.amqp_connection_string "amqp connection string was not specified"
    consumer_tag ← ok_or config.amqp_consumer_tag "amqp consumer tag was not specified"
    ok (amqp connection_string consumer_tag topic_or_queue none)
]

-- With the constructor of the consumers.
unfoldable pub new_consumer :
    {C : Type 0} → (CommonConsumerConfig → Result String C) → Config → String → Result String C
new_consumer new config topic_or_queue = do
  consumer ← consumer_config config topic_or_queue
  new consumer

module _ {P : Type 0} (new_kafka new_amqp : String → Result String P) where
  -- What the producer of a router connects to, when its consumer has that configuration.
  abbrev pub producer_of : CommonConsumerConfig → Result String P
  producer_of (kafka brokers group_id topic) = new_kafka brokers
  producer_of (amqp connection_string consumer_tag queue_name exclusive) =
      new_amqp connection_string

  -- Settings that suffice for the consumer suffice for the producer, which connects to the same
  -- brokers.
  pub consumer_config-new_producer :
      (config : Config) (topic : String) (consumer : CommonConsumerConfig)
      → consumer_config config topic ≡ ok consumer
      → new_producer new_kafka new_amqp config ≡ producer_of consumer
  unfolding consumer_config new_producer
  consumer_config-new_producer config topic consumer h = elim (queue-cases config.message_queue) [
    | inl k ↦ elim (Option-cases config.kafka_brokers) [
      | inl no_b ↦ cc (rw (k, no_b, consumer_config) at h)
      | inr (b, eb) ↦ elim (Option-cases config.kafka_group_id) [
        | inl no_g ↦ cc (rw (k, eb, no_g, consumer_config) at h)
        | inr (g, eg) ↦
            rw (k, eb, new_producer)
              (ap producer_of (ok-injective (rw (k, eb, eg, consumer_config) at h)))
      ]
    ]
    | inr k ↦ elim (Option-cases config.amqp_connection_string) [
      | inl no_c ↦ cc (rw (k, no_c, consumer_config) at h)
      | inr (c, ec) ↦ elim (Option-cases config.amqp_consumer_tag) [
        | inl no_t ↦ cc (rw (k, ec, no_t, consumer_config) at h)
        | inr (t, et) ↦
            rw (k, ec, new_producer)
              (ap producer_of (ok-injective (rw (k, ec, et, consumer_config) at h)))
      ]
    ]
  ]
