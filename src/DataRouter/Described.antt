-- ===== src/DataRouter/Described.antt =====
-- What a message for the data router of crates/data-router/src/main.rs calls for, with no cache and
-- no store: an independent description.
use common_data_layer.Prelude.{ℕ, suc, String, List, [], ◌∷◌, ◌++◌, if◌then◌else◌}
use common_data_layer.Exec.{Result, ok, err, map_err}
use common_data_layer.Fallible.{◌>>=◌}
use common_data_layer.Messaging.{
  CommunicationMessage, BorrowedInsertMessage, DataRouterInsertMessage, Publication,
}
use common_data_layer.DataRouter.{
  Failure, no_payload, not_json, not_a_message, not_serializable, World, is_array, last_error,
}
use common_data_layer.DataRouter.Coherence.{source}

-- What a part publishes, its result, and the calls of the clock after it.
pub record Expected : Type 0 where
  pub sent : List Publication
  pub result : Result Failure (Unit {0})
  pub calls : ℕ

module _ (w : World) where
  abbrev pub payload_at : DataRouterInsertMessage → ℕ → BorrowedInsertMessage
  payload_at event n = record {
    object_id = event.object_id;
    schema_id = event.schema_id;
    timestamp = w.current_timestamp n;
    raw_data = event.raw_data;
  }

  -- The publication of an entry whose timestamp is the call of that number.
  abbrev pub routed : String → DataRouterInsertMessage → ℕ → Result Failure Publication
  routed key event n = do
    topic ← source w event.schema_id
    bytes ← map_err not_serializable (w.to_vec (payload_at event n))
    ok (record { topic = topic; key = key; payload = bytes })

  abbrev pub sent_by : Result Failure Publication → List Publication
  sent_by (ok p) = p ∷ []
  sent_by (err e) = []

  abbrev pub outcome : Result Failure Publication → Result Failure (Unit {0})
  outcome (ok p) = ok tt
  outcome (err e) = err e

  -- Every entry is tried, and an error of a later entry replaces those before it.
  abbrev pub expected_each :
      String → List DataRouterInsertMessage → Result Failure (Unit {0}) → ℕ → Expected
  expected_each key [] result n = record { sent = []; result = result; calls = n }
  expected_each key (entry ∷ entries) result n =
      let r = routed key entry n in
      let rest = expected_each key entries (last_error (outcome r) result) (suc n) in
      record rest { sent = sent_by r ++ rest.sent }

  abbrev pub failed : Failure → ℕ → Expected
  failed e n = record { sent = []; result = err e; calls = n }

  unfoldable pub expected_many : String → String → ℕ → Expected
  expected_many key text n = elim (w.parse_messages text) [
    | err e ↦ failed (not_a_message e) n
    | ok entries ↦ expected_each key entries (ok tt) n
  ]

  unfoldable pub expected_single : String → String → ℕ → Expected
  expected_single key text n = elim (w.parse_message text) [
    | err e ↦ failed (not_a_message e) n
    | ok event ↦
        let r = routed key event n in record { sent = sent_by r; result = outcome r; calls = suc n }
  ]

  unfoldable pub expected : CommunicationMessage → String → ℕ → Expected
  expected message key n = elim message.payload [
    | err e ↦ failed (no_payload e) n
    | ok text ↦ elim (w.parse_value text) [
      | err e ↦ failed (not_json e) n
      | ok value ↦ if is_array value then expected_many key text n else expected_single key text n
    ]
  ]

  -- The report of an error to the topic of errors.
  abbrev pub reported : String → Result Failure (Unit {0}) → List Publication
  reported error_topic (ok u) = []
  reported error_topic (err e) =
      record { topic = error_topic; key = "data-router"; payload = w.debug e } ∷ []
