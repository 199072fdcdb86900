-- ===== src/Api/Subscriptions.antt =====
-- The subscriptions of the GraphQL API to a message queue: crates/api/src/events.rs and
-- `subscribe_on_message_queue` of schema/context.rs. The consumers are the library's. A broadcast
-- channel is a number; a receiver gets what is sent after it was made, if it does not lag behind.
pub mod Dead
use common_data_layer.Prelude.{
  ℕ, suc, String, ◌≡◌, Bool, true, false, Option, none, some, List, [], ◌∷◌, ◌++◌, length, str_eq,
  ◌==◌, if◌then◌else◌,
}
use common_data_layer.Exec.{Result, ok, err, Exec, pure, lift, ◌>>=◌, ◌>>◌}
use common_data_layer.Messaging.{CommonConsumerConfig, kafka, amqp}
use common_data_layer.Api.Messages.{
  MessageQueueArgs, MessageQueueConfig, kafka_config, amqp_config, config,
}

-- The key and the payload of a message, where it has them.
pub record Event : Type 0 where
  pub key : Option String
  pub payload : Option String

-- What was sent on the channel of a subscriber, and whether its consumer still runs.
pub record EventSubscriber : Type 0 where
  pub sent : List (Result String Event)
  pub consuming : Bool

-- The receiver of a channel, made when this much had been sent.
pub record EventStream : Type 0 where
  pub channel : ℕ
  pub since : ℕ

-- The map of the context, and the channels that were made.
pub record Subscriptions : Type 0 where
  pub event_map : String → Option ℕ
  pub count : ℕ
  pub channels : ℕ → EventSubscriber

abbrev pub set {ℓ} : {A : Type ℓ} → ℕ → A → (ℕ → A) → ℕ → A
set i a f j = if i == j then a else f j

abbrev pub start : Subscriptions
start = record {
  event_map = λ topic. none;
  count = 0;
  channels = λ i. record { sent = []; consuming = false };
}

-- The `config` of `EventSubscriber::new`.
unfoldable pub consumer_config : MessageQueueConfig → String → CommonConsumerConfig
consumer_config (kafka_config group_id brokers) topic_or_queue =
    kafka brokers group_id topic_or_queue
consumer_config (amqp_config connection_string consumer_tag) topic_or_queue =
    amqp connection_string consumer_tag topic_or_queue none

module _ (args : MessageQueueArgs)
    (new_consumer : CommonConsumerConfig → Result String (Unit {0})) where
  abbrev pub Subscribing : Type 0 → Type 0
  Subscribing A = Exec Subscriptions String A

  abbrev pub channel : Subscribing ℕ
  channel s = (
    ok s.count,
    record s {
      count = suc s.count;
      channels = set s.count (record { sent = []; consuming = true }) s.channels;
    },
  )

  -- `EventSubscriber::new`: the subscriber, by its channel.
  unfoldable pub new_subscriber : MessageQueueConfig → String → Subscribing ℕ
  new_subscriber mq topic_or_queue = do
    lift (new_consumer (consumer_config mq topic_or_queue))
    channel

  unfoldable pub subscribe : ℕ → Subscribing EventStream
  subscribe i s = (ok (record { channel = i; since = length (s.channels i).sent }), s)

  abbrev pub insert : String → ℕ → Subscribing (Unit {0})
  insert topic i s =
      (ok tt, record s { event_map = λ t. if str_eq topic t then some i else s.event_map t })

  unfoldable pub subscribe_on_message_queue : String → Subscribing EventStream
  subscribe_on_message_queue topic s = elim (s.event_map topic) [
    | some subscriber ↦ subscribe subscriber s
    | none ↦
        (do
          mq ← lift (config args)
          subscriber ← new_subscriber mq topic
          insert topic subscriber
          pure (record { channel = subscriber; since = 0 }))
          s
  ]

  -- A client subscribes; the consumer of a channel gets an item; its stream ends. At the end the task
  -- calls `on_close`, and drops the future that it returns, which is the one that would remove the
  -- topic from the map.
  pub data Step : Subscriptions → Subscriptions → Type 0 where
    subscribes :
        (s : Subscriptions) (topic : String) → Step s (subscribe_on_message_queue topic s).1
    arrives :
        (s : Subscriptions) (i : ℕ) (item : Result String Event)
        → (s.channels i).consuming ≡ true
        → Step s (record s {
          channels =
              set i
                (record { sent = (s.channels i).sent ++ item ∷ []; consuming = true })
                s.channels;
        })
    closes :
        (s : Subscriptions) (i : ℕ)
        → (s.channels i).consuming ≡ true
        → Step s (record s {
          channels = set i (record { sent = (s.channels i).sent; consuming = false }) s.channels;
        })

  pub data Steps (s : Subscriptions) : Subscriptions → Type 0 where
    done : Steps s s
    next : {u v : Subscriptions} → Steps s u → Step u v → Steps s v
