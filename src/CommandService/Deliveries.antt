-- ===== src/CommandService/Deliveries.antt =====
-- What the Druid output of the command service delivers, and what it makes of it:
-- crates/command-service/src/output/druid/mod.rs.
use mathlib.Core.List.{append-nil, append_assoc}
use common_data_layer.Prelude.{String, ◌≡◌, refl, sym, ◌∙◌, List, [], ◌∷◌, ◌++◌, ◌↔◌, inl, inr}
use common_data_layer.Exec.{ok, err, Result-cases}
use common_data_layer.Messaging.{BorrowedInsertMessage}
use common_data_layer.CommandService.{success}
use common_data_layer.CommandService.Druid.{
  DruidWorld, FutureRecord, TimeseriesInputMessage, send_one, send_each, handle_message,
  deserialize_payloads, records,
}

module _ (w : DruidWorld) where
  -- The records of a message: none if its data cannot be read.
  unfoldable pub records_of : String → BorrowedInsertMessage → List FutureRecord
  records_of topic msg = elim (deserialize_payloads w msg) [
    | err e ↦ []
    | ok payloads ↦ records w topic msg payloads
  ]

  unfoldable pub accepted : List FutureRecord → List FutureRecord
  accepted [] = []
  accepted (message ∷ messages) = elim (w.send message) [
    | err e ↦ accepted messages
    | ok u ↦ message ∷ accepted messages
  ]

  accepted-send_each :
      (messages s : List FutureRecord) → (send_each w messages s).1 ≡ s ++ accepted messages
  unfolding send_each accepted
  accepted-send_each [] s = sym (append-nil s)
  accepted-send_each (message ∷ messages) s = elim (Result-cases (w.send message)) [
    | inl (u, e) ↦
        rw (e, send_one, send_each, accepted)
          (accepted-send_each messages (s ++ message ∷ [])
            ∙ append_assoc s (message ∷ []) (accepted messages))
    | inr (r, e) ↦ rw (e, send_one, send_each, accepted) (accepted-send_each messages s)
  ]

  -- A message of which the data can be read counts as stored, whatever the broker answers, even if
  -- it refuses every record; and no other does. Of its records the broker gets those that it takes,
  -- in their order.
  pub handle_message_blind :
      (topic : String) (msg : BorrowedInsertMessage) (s : List FutureRecord)
      → (((handle_message w topic msg s).0 ≡ success)
          ↔ ((values : List TimeseriesInputMessage) × (w.parse_messages msg.raw_data ≡ ok values)))
        × ((handle_message w topic msg s).1 ≡ s ++ accepted (records_of topic msg))
  unfolding handle_message deserialize_payloads records_of accepted
  handle_message_blind topic msg s = elim (Result-cases (w.parse_messages msg.raw_data)) [
    | inl (values, e) ↦
        rw (e, handle_message, deserialize_payloads, records_of)
          ((λ h. (values, refl), λ h. refl), accepted-send_each (records w topic msg _) s)
    | inr (r, e) ↦
        rw (e, handle_message, deserialize_payloads, records_of)
          ((λ h. absurd (cc h), λ (values, h). absurd (cc h)), sym (append-nil s))
  ]
