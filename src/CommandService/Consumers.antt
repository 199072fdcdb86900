-- ===== src/CommandService/Consumers.antt =====
-- The consumers that the settings of the command service give:
-- crates/command-service/src/args.rs and communication/config.rs.
use common_data_layer.Prelude.{
  ℕ, suc, ◌+◌, ◌⊎◌, String, ◌≡◌, refl, ap, ◌∙◌, ◌≤◌, ◌≢◌, List, [], ◌∷◌, ◌++◌, map, length, inl,
  inr, arith, Option-cases,
}
use common_data_layer.Exec.{Result, ok}
use common_data_layer.CommandService.Settings.{
  CommunicationMethod, MissingConfigError, MessageQueueConfig, kafka_config, amqp_config,
  CommunicationConfig, message_queue, ordered_configs, unordered_configs, CommunicationArgs,
  amqp_method, kafka_method, grpc_method, with_queues, kafka_settings, amqp_settings, grpc_settings,
  queue_names, communication_config,
}

length-map : {A B : Type 0} (f : A → B) (xs : List A) → length (map f xs) ≡ length xs
length-map f [] = refl
length-map f (x ∷ xs) = ap suc (length-map f xs)

length-maps :
    {A B : Type 0} (f g : A → B) (xs ys : List A)
    → length (map f xs ++ map g ys) ≡ length xs + length ys
length-maps f g [] ys = omega (arith, length-map g ys)
length-maps f g (x ∷ xs) ys = omega (arith, length-maps f g xs ys)

message_queue-injective :
    {a b : MessageQueueConfig}
    → ◌≡◌ {A = Result MissingConfigError CommunicationConfig}
        (ok (message_queue a))
        (ok (message_queue b))
    → b ≡ a
message_queue-injective h = cc

-- The names that a configuration consumes from.
abbrev names : MessageQueueConfig → List String × List String
names (kafka_config brokers group_id ordered unordered limit) = (ordered, unordered)
names (amqp_config consumer_tag connection_string ordered unordered limit) = (ordered, unordered)

-- How many consumers a configuration starts.
abbrev consumers : MessageQueueConfig → ℕ
consumers c = length (ordered_configs c ++ unordered_configs c)

consumers-names : (c : MessageQueueConfig) → consumers c ≡ length (names c).0 + length (names c).1
unfolding ordered_configs unordered_configs
consumers-names (kafka_config brokers group_id ordered unordered limit) =
    length-maps _ _ ordered unordered
consumers-names (amqp_config consumer_tag connection_string ordered unordered limit) =
    length-maps _ _ ordered unordered

amqp_settings-names :
    (args : CommunicationArgs) (ordered unordered : List String) (c : MessageQueueConfig)
    → amqp_settings args ordered unordered ≡ ok (message_queue c)
    → names c ≡ (ordered, unordered)
unfolding amqp_settings
amqp_settings-names args ordered unordered c h = elim (Option-cases args.amqp_consumer_tag) [
  | inl no_t ↦ cc (rw (no_t, amqp_settings) at h)
  | inr (t, et) ↦ elim (Option-cases args.amqp_connection_string) [
    | inl no_c ↦ cc (rw (et, no_c, amqp_settings) at h)
    | inr (s, es) ↦ ap names (message_queue-injective (rw (et, es, amqp_settings) at h))
  ]
]

kafka_settings-names :
    (args : CommunicationArgs) (ordered unordered : List String) (c : MessageQueueConfig)
    → kafka_settings args ordered unordered ≡ ok (message_queue c)
    → names c ≡ (ordered, unordered)
unfolding kafka_settings
kafka_settings-names args ordered unordered c h = elim (Option-cases args.kafka_brokers) [
  | inl no_b ↦ cc (rw (no_b, kafka_settings) at h)
  | inr (b, eb) ↦ elim (Option-cases args.kafka_group_id) [
    | inl no_g ↦ cc (rw (eb, no_g, kafka_settings) at h)
    | inr (g, eg) ↦ ap names (message_queue-injective (rw (eb, eg, kafka_settings) at h))
  ]
]

grpc_settings-not_queue :
    (args : CommunicationArgs) (c : MessageQueueConfig) → grpc_settings args ≢ ok (message_queue c)
unfolding grpc_settings
grpc_settings-not_queue args c h = elim (Option-cases args.grpc_port) [
  | inl no_p ↦ cc (rw (no_p, grpc_settings) at h)
  | inr (n, en) ↦ cc (rw (en, grpc_settings) at h)
]

-- Settings of queues that are accepted name at least one queue.
with_queues-names :
    (settings : List String → List String → Result MissingConfigError CommunicationConfig)
    (ordered unordered : List String) (c : CommunicationConfig)
    → with_queues settings ordered unordered ≡ ok c
    → (1 ≤ length ordered + length unordered) × (settings ordered unordered ≡ ok c)
with_queues-names settings [] [] c h = cc
with_queues-names settings [] (u ∷ us) c h = (omega arith, h)
with_queues-names settings (o ∷ os) unordered c h = (omega arith, h)

method-cases :
    (m : CommunicationMethod) → (m ≡ amqp_method) ⊎ ((m ≡ kafka_method) ⊎ (m ≡ grpc_method))
method-cases amqp_method = inl refl
method-cases kafka_method = inr (inl refl)
method-cases grpc_method = inr (inr refl)

communication_config-names :
    (args : CommunicationArgs) (c : MessageQueueConfig)
    → communication_config args ≡ ok (message_queue c)
    → (names c
        ≡ (queue_names args.ordered_topics_or_queues, queue_names args.unordered_topics_or_queues))
      × (1
          ≤ length (queue_names args.ordered_topics_or_queues)
            + length (queue_names args.unordered_topics_or_queues))
unfolding communication_config
communication_config-names args c h =
    let ordered = queue_names args.ordered_topics_or_queues in
    let unordered = queue_names args.unordered_topics_or_queues in
    elim (method-cases args.communication_method) [
      | inl m ↦
          let (some_queue, made) =
            with_queues-names (amqp_settings args) ordered unordered _
              (rw (m, communication_config) at h) in
          (amqp_settings-names args ordered unordered c made, some_queue)
      | inr (inl m) ↦
          let (some_queue, made) =
            with_queues-names (kafka_settings args) ordered unordered _
              (rw (m, communication_config) at h) in
          (kafka_settings-names args ordered unordered c made, some_queue)
      | inr (inr m) ↦ absurd (grpc_settings-not_queue args c (rw (m, communication_config) at h))
    ]

-- A service on queues starts as many consumers as its two settings name queues, and at least one.
communication_config-consumers :
    (args : CommunicationArgs) (c : MessageQueueConfig)
    → communication_config args ≡ ok (message_queue c)
    → (consumers c
        ≡ length (queue_names args.ordered_topics_or_queues)
          + length (queue_names args.unordered_topics_or_queues))
      × (1 ≤ consumers c)
communication_config-consumers args c h =
    let (same, enough) = communication_config-names args c h in
    let count = consumers-names c ∙ ap (λ n. length n.0 + length n.1) same in
    (count, rw count enough)
