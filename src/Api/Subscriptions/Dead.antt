-- ===== src/Api/Subscriptions/Dead.antt =====
-- What a client gets after the consumer of its topic has ended: crates/api/src/events.rs.
use mathlib.Core.Option.{none-ne-some, some-injective}
use common_data_layer.Prelude.{
  ℕ, zero, suc, ◌<◌, String, ◌≡◌, refl, sym, ap, ◌∙◌, ◌⊎◌, inl, inr, true, false, none, some, List,
  [], ◌∷◌, length, str_eq, ◌==◌, if◌then◌else◌, arith, Option-cases, Bool-cases, str_eq_iff, ==_iff,
}
use common_data_layer.Exec.{Result, ok, Result-cases}
use common_data_layer.Messaging.{CommonConsumerConfig}
use common_data_layer.Api.Messages.{MessageQueueArgs, config}
use common_data_layer.Api.Subscriptions.{
  Event, EventStream, Subscriptions, set, start, consumer_config, new_subscriber, subscribe,
  subscribe_on_message_queue, Step, subscribes, arrives, closes, Steps, done, next,
}

unfoldable pub drop : {A : Type 0} → ℕ → List A → List A
drop zero xs = xs
drop (suc n) [] = []
drop (suc n) (x ∷ xs) = drop n xs

drop-length : {A : Type 0} (xs : List A) → drop (length xs) xs ≡ []
unfolding drop
drop-length [] = refl
drop-length (x ∷ xs) = drop-length xs

-- What was sent to a client's receiver.
unfoldable pub received : EventStream → Subscriptions → List (Result String Event)
received r s = drop r.since (s.channels r.channel).sent

-- A channel was made before its topic was put into the map.
IsMade : Subscriptions → Type 0
IsMade s = (topic : String) (i : ℕ) → s.event_map topic ≡ some i → i < s.count

-- The consumer of the topic's channel has ended, and the channel keeps what was sent.
record Ended (topic : String) (i : ℕ) (items : List (Result String Event)) (s : Subscriptions)
    : Type 0 where
  mapped : s.event_map topic ≡ some i
  made : i < s.count
  ended : (s.channels i).consuming ≡ false
  kept : (s.channels i).sent ≡ items

abbrev with_new : String → Subscriptions → Subscriptions
with_new topic s = record {
  event_map = λ t. if str_eq topic t then some s.count else s.event_map t;
  count = suc s.count;
  channels = set s.count (record { sent = []; consuming = true }) s.channels;
}

new_made :
    (topic t : String) (i : ℕ) (s : Subscriptions)
    → IsMade s
    → (with_new topic s).event_map t ≡ some i
    → i < suc s.count
unfolding IsMade
new_made topic t i s m e = elim (Bool-cases (str_eq topic t)) [
  | inl h ↦ omega (arith, some-injective _ _ (rw h at e))
  | inr h ↦ omega (arith, m t i (rw h at e))
]

-- A channel whose consumer runs is not one whose consumer has ended.
other_channel :
    (s : Subscriptions) (i j : ℕ)
    → (s.channels j).consuming ≡ true
    → (s.channels i).consuming ≡ false
    → (j == i) ≡ false
other_channel s i j c e = elim (Bool-cases (j == i)) [
  | inl h ↦ absurd (cc (rw ((==_iff j i).0 h) at c))
  | inr h ↦ h
]

module _ (args : MessageQueueArgs)
    (new_consumer : CommonConsumerConfig → Result String (Unit {0})) where
  -- A subscription changes nothing, or makes the channel of a topic that had none.
  subscribed :
      (topic : String) (s : Subscriptions)
      → ((subscribe_on_message_queue args new_consumer topic s).1 ≡ s)
        ⊎ ((s.event_map topic ≡ none)
            × ((subscribe_on_message_queue args new_consumer topic s).1 ≡ with_new topic s))
  unfolding subscribe_on_message_queue subscribe new_subscriber
  subscribed topic s = elim (Option-cases (s.event_map topic)) [
    | inr (i, e) ↦ inl (rw (e, subscribe_on_message_queue) refl)
    | inl e ↦ elim (Result-cases (config args)) [
      | inr (reason, h) ↦ inl (rw (e, h, subscribe_on_message_queue) refl)
      | inl (mq, h) ↦ elim (Result-cases (new_consumer (consumer_config mq topic))) [
        | inr (reason, k) ↦ inl (rw (e, h, k, subscribe_on_message_queue, new_subscriber) refl)
        | inl (u, k) ↦ inr (e, rw (e, h, k, subscribe_on_message_queue, new_subscriber) refl)
      ]
    ]
  ]

  IsMade-Step : {s u : Subscriptions} → Step args new_consumer s u → IsMade s → IsMade u
  unfolding IsMade
  IsMade-Step (subscribes s topic) m = elim (subscribed topic s) [
    | inl e ↦ rw e m
    | inr (e, f) ↦ rw f (λ t i h. new_made topic t i s m h)
  ]
  IsMade-Step (arrives s i item c) m = m
  IsMade-Step (closes s i c) m = m

  IsMade-Steps : {s u : Subscriptions} → Steps args new_consumer s u → IsMade s → IsMade u
  IsMade-Steps done m = m
  IsMade-Steps (next r step) m = IsMade-Step step (IsMade-Steps r m)

  IsMade-start : IsMade start
  unfolding IsMade
  IsMade-start topic i e = absurd (none-ne-some i e)

  Ended-new :
      (t topic : String) (i : ℕ) (items : List (Result String Event)) (s : Subscriptions)
      → s.event_map t ≡ none
      → Ended topic i items s
      → Ended topic i items (with_new t s)
  Ended-new t topic i items s none_yet e =
      let other : (s.count == i) ≡ false = ground (arith, e.made) in
      elim (Bool-cases (str_eq t topic)) [
        | inl h ↦
            absurd
              (none-ne-some i (sym none_yet ∙ ap s.event_map ((str_eq_iff t topic).0 h) ∙ e.mapped))
        | inr h ↦ record {
          mapped = rw h e.mapped;
          made = omega (arith, e.made);
          ended = rw other e.ended;
          kept = rw other e.kept;
        }
      ]

  Ended-Step :
      {topic : String} {i : ℕ} {items : List (Result String Event)} {s u : Subscriptions}
      → Step args new_consumer s u
      → Ended topic i items s
      → Ended topic i items u
  Ended-Step {topic} {i} {items} (subscribes s t) e = elim (subscribed t s) [
    | inl f ↦ rw f e
    | inr (none_yet, f) ↦ rw f (Ended-new t topic i items s none_yet e)
  ]
  Ended-Step {i = i} (arrives s j item c) e =
      let other = other_channel s i j c e.ended in
      record { mapped = e.mapped; made = e.made; ended = rw other e.ended; kept = rw other e.kept }
  Ended-Step {i = i} (closes s j c) e =
      let other = other_channel s i j c e.ended in
      record { mapped = e.mapped; made = e.made; ended = rw other e.ended; kept = rw other e.kept }

  Ended-Steps :
      {topic : String} {i : ℕ} {items : List (Result String Event)} {s u : Subscriptions}
      → Steps args new_consumer s u
      → Ended topic i items s
      → Ended topic i items u
  Ended-Steps done e = e
  Ended-Steps (next r step) e = Ended-Step step (Ended-Steps r e)

  -- Once the consumer of a topic has ended, whoever subscribes to the topic later is given the channel
  -- of that consumer, and never receives anything, whatever happens afterwards.
  pub subscribe_on_message_queue_dead :
      (topic : String) (i : ℕ) (s u v : Subscriptions)
      → Steps args new_consumer start s
      → s.event_map topic ≡ some i
      → (s.channels i).consuming ≡ false
      → Steps args new_consumer s u
      → Steps args new_consumer u v
      → (r : EventStream) × (subscribe_on_message_queue args new_consumer topic u ≡ (ok r, u))
        × (received r v ≡ [])
  unfolding subscribe_on_message_queue subscribe received IsMade
  subscribe_on_message_queue_dead topic i s u v reached mapped ended later after =
      let made = IsMade-Steps reached IsMade-start topic i mapped in
      let items = (s.channels i).sent in
      let at_s : Ended topic i items s = record {
        mapped = mapped;
        made = made;
        ended = ended;
        kept = refl;
      } in
      let at_u = Ended-Steps later at_s in
      let at_v = Ended-Steps after at_u in
      (
        record { channel = i; since = length items },
        rw (at_u.mapped, at_u.kept, subscribe_on_message_queue) refl,
        rw at_v.kept (drop-length items),
      )
