-- ===== src/DataRouter/Acked.antt =====
-- When the data router of crates/data-router/src/main.rs acknowledges a message.
use common_data_layer.Prelude.{
  ℕ, suc, String, ◌≡◌, refl, ◌∙◌, ap, List, [], ◌∷◌, inl, inr, Option-cases, Bool-cases,
}
use common_data_layer.Exec.{
  Result, ok, err, map_err, continue, Fault, aborts, fails, attempt, attempted, Result-cases,
}
use common_data_layer.Cache.{LruCache}
use common_data_layer.Messaging.{CommunicationMessage, get_order_group_id, DataRouterInsertMessage}
use common_data_layer.DataRouter.{
  Failure, no_payload, not_json, not_a_message, no_connection, no_topic, not_serializable, World,
  Router, Task, send_message, get_schema_topic, route, route_each, process_many, process_single,
  process, report, acknowledge, handle_message, or_empty, is_array, last_error,
}

module _ (l : LruCache String) (w : World) where
  -- So many messages are acknowledged at the end of a part.
  record Kept {A : Type 0} (n : ℕ) (end : Result (Fault Failure) A × Router l.Cache) : Type 0 where
    at : end.1.acknowledged ≡ n

  Kept-continue :
      {A B : Type 0} (n : ℕ) (end : Result (Fault Failure) A × Router l.Cache) (f : A → Task l w B)
      → Kept n end
      → ((a : A) (t : Router l.Cache) → Kept t.acknowledged (f a t))
      → Kept n (continue end.0 f end.1)
  Kept-continue n (ok a, s) f e h = record { at = (h a s).at ∙ e.at }
  Kept-continue n (err r, s) f e h = record { at = e.at }

  -- A part that is given a result.
  Kept-lift :
      {A B : Type 0} (r : Result (Fault Failure) A) (f : A → Task l w B) (s : Router l.Cache)
      → ((a : A) (t : Router l.Cache) → Kept t.acknowledged (f a t))
      → Kept s.acknowledged (continue r f s)
  Kept-lift r f s h = Kept-continue s.acknowledged (r, s) f (record { at = refl }) h

  Kept-attempted :
      {A : Type 0} (r : Result (Fault Failure) A) (s : Router l.Cache)
      → Kept s.acknowledged (attempted r s)
  Kept-attempted (ok a) s = record { at = refl }
  Kept-attempted (err (fails e)) s = record { at = refl }
  Kept-attempted (err aborts) s = record { at = refl }

  Kept-attempt :
      {A : Type 0} (m : Task l w A) (s : Router l.Cache)
      → Kept s.acknowledged (m s)
      → Kept s.acknowledged (attempt m s)
  Kept-attempt m s k = record { at = (Kept-attempted (m s).0 (m s).1).at ∙ k.at }

  Kept-send_message :
      (topic key payload : String) (s : Router l.Cache)
      → Kept s.acknowledged (send_message l w topic key payload s)
  unfolding send_message
  Kept-send_message topic key payload s =
      elim (Result-cases (w.delivery (record { topic = topic; key = key; payload = payload }))) [
        | inl (u, e) ↦ record { at = rw (e, send_message) refl }
        | inr (r, e) ↦ record { at = rw (e, send_message) refl }
      ]

  Kept-get_schema_topic :
      (id : ℕ) (s : Router l.Cache) → Kept s.acknowledged (get_schema_topic l w id s)
  unfolding get_schema_topic
  Kept-get_schema_topic id s = elim (Option-cases (l.get_mut id s.cache).0) [
    | inl miss ↦
        rw (miss, get_schema_topic)
          (Kept-lift (map_err (λ e. fails (no_connection e)) w.connect) _
            (record s { cache = (l.get_mut id s.cache).1 })
            (λ u t.
              Kept-lift (map_err (λ e. fails (no_topic e)) (w.registry_topic id)) _ t
                (λ topic t'. record { at = refl })))
    | inr (topic, hit) ↦ record { at = rw (hit, get_schema_topic) refl }
  ]

  Kept-route :
      (event : DataRouterInsertMessage) (key : String) (s : Router l.Cache)
      → Kept s.acknowledged (route l w event key s)
  unfolding route
  Kept-route event key s =
      Kept-continue s.acknowledged
        (get_schema_topic l w event.schema_id (record s { calls = suc s.calls })) _
        (Kept-get_schema_topic event.schema_id (record s { calls = suc s.calls }))
        (λ topic t.
          Kept-lift (map_err (λ e. fails (not_serializable e)) (w.to_vec _)) _ t
            (λ bytes t'. Kept-send_message topic key bytes t'))

  Kept-route_each :
      (entries : List DataRouterInsertMessage) (key : String) (result : Result Failure (Unit {0}))
      (s : Router l.Cache)
      → Kept s.acknowledged (route_each l w entries key result s)
  unfolding route_each
  Kept-route_each [] key result s = record { at = refl }
  Kept-route_each (entry ∷ entries) key result s =
      Kept-continue s.acknowledged (attempt (route l w entry key) s) _
        (Kept-attempt (route l w entry key) s (Kept-route entry key s))
        (λ r t. Kept-route_each entries key (last_error r result) t)

  Kept-process :
      (message : CommunicationMessage) (key : String) (s : Router l.Cache)
      → Kept s.acknowledged (process l w message key s)
  unfolding process process_many process_single
  Kept-process message key s =
      Kept-lift (map_err (λ e. fails (no_payload e)) message.payload) _ s (λ payload t.
        Kept-lift (map_err (λ e. fails (not_json e)) (w.parse_value payload)) _ t (λ value t'.
          elim (Bool-cases (is_array value)) [
            | inl e ↦ rw e (
                Kept-lift (map_err (λ e. fails (not_a_message e)) (w.parse_messages payload)) _ t'
                  (λ many v.
                    Kept-continue v.acknowledged (route_each l w many key (ok tt) v) _
                      (Kept-route_each many key (ok tt) v) (λ r v'. record { at = refl })))
            | inr e ↦ rw e (
                Kept-lift (map_err (λ e. fails (not_a_message e)) (w.parse_message payload)) _ t'
                  (λ one v. Kept-route one key v))
          ]))

  Kept-report :
      (topic : String) (r : Result Failure (Unit {0})) (s : Router l.Cache)
      → Kept s.acknowledged (report l w topic r s)
  Kept-report topic (ok u) s = record { at = refl }
  Kept-report topic (err e) s = Kept-send_message topic "data-router" (w.debug e) s

  -- How many messages are acknowledged after a task.
  abbrev pub count_after : Result (Fault Failure) (Unit {0}) → ℕ → ℕ
  count_after (ok u) n = suc n
  count_after (err e) n = n

  record Counted (n : ℕ) (end : Result (Fault Failure) (Unit {0}) × Router l.Cache) : Type 0 where
    at : end.1.acknowledged ≡ count_after end.0 n

  Counted-continue :
      {A : Type 0} (n : ℕ) (end : Result (Fault Failure) A × Router l.Cache)
      (f : A → Task l w (Unit {0}))
      → Kept n end
      → ((a : A) (t : Router l.Cache) → Counted t.acknowledged (f a t))
      → Counted n (continue end.0 f end.1)
  Counted-continue n (ok a, s) f e h = record { at = (h a s).at ∙ ap (count_after (f a s).0) e.at }
  Counted-continue n (err r, s) f e h = record { at = e.at }

  Counted-acknowledge :
      (r : Result String (Unit {0})) (s : Router l.Cache)
      → Counted s.acknowledged (acknowledge l w r s)
  Counted-acknowledge (ok u) s = record { at = refl }
  Counted-acknowledge (err e) s = record { at = refl }

  Counted-handle_message :
      (message : CommunicationMessage) (error_topic : String) (s : Router l.Cache)
      → Counted s.acknowledged (handle_message l w message error_topic s)
  unfolding handle_message
  Counted-handle_message message error_topic s =
      let key = or_empty (get_order_group_id message) in
      Counted-continue s.acknowledged (attempt (process l w message key) s) _
        (Kept-attempt (process l w message key) s (Kept-process message key s))
        (λ result t.
          Counted-continue t.acknowledged (report l w error_topic result t) _
            (Kept-report error_topic result t) (λ u t'. Counted-acknowledge message.ack t'))

  -- The message is acknowledged once if its handling ends, also with an error that was reported, and
  -- not at all if the task aborts.
  pub handle_message_acknowledged :
      (message : CommunicationMessage) (error_topic : String) (s : Router l.Cache)
      → (handle_message l w message error_topic s).1.acknowledged
        ≡ count_after (handle_message l w message error_topic s).0 s.acknowledged
  handle_message_acknowledged message error_topic s =
      (Counted-handle_message message error_topic s).at
