-- ===== src/DataRouter.antt =====
-- The data router, crates/data-router/src/main.rs: a message is routed to the topic of its schema.
pub mod Settings
pub mod Coherence
pub mod Described
pub mod Parts
pub mod Expected
pub mod Acked
mod Tests
use common_data_layer.Prelude.{
  ℕ, suc, String, Option, none, some, List, [], ◌∷◌, ◌++◌, if◌then◌else◌, Bool, true, false,
}
use common_data_layer.Json.{Value, array}
use common_data_layer.Exec.{
  Result, ok, err, map_err, Exec, pure, raise, lift, ◌>>=◌, ◌>>◌, Fault, aborts, fails, attempt,
}
use common_data_layer.Cache.{LruCache}
use common_data_layer.Messaging.{
  CommunicationMessage, get_order_group_id, BorrowedInsertMessage, DataRouterInsertMessage,
  Publication,
}

-- Why a message is not routed.
pub data Failure : Type 0 where
  no_payload not_json not_a_message no_connection no_topic not_serializable : String → Failure

-- What the router calls: the schema registry's client, the clock, serde_json and the broker.
pub record World : Type 0 where
  pub connect : Result String (Unit {0})
  pub registry_topic : ℕ → Result String String
  -- `current_timestamp`, at its first call, its second, and so on.
  pub current_timestamp : ℕ → ℕ
  pub parse_value : String → Result String Value
  pub parse_messages : String → Result String (List DataRouterInsertMessage)
  pub parse_message : String → Result String DataRouterInsertMessage
  pub to_vec : BorrowedInsertMessage → Result String String
  pub delivery : Publication → Result String (Unit {0})
  -- `format!("{:?}", error)`
  pub debug : Failure → String

-- The cache, what was published, the calls of the clock, and the messages acknowledged.
pub record Router (Cache : Type 0) : Type 0 where
  pub cache : Cache
  pub published : List Publication
  pub calls : ℕ
  pub acknowledged : ℕ

abbrev pub is_array : Value → Bool
is_array (array xs) = true
is_array v = false

-- `unwrap_or_default` on a text
abbrev pub or_empty : Option String → String
or_empty none = ""
or_empty (some s) = s

-- `if r.is_err() { result = r; }`
abbrev pub last_error :
    Result Failure (Unit {0}) → Result Failure (Unit {0}) → Result Failure (Unit {0})
last_error (err e) result = err e
last_error (ok u) result = result

module _ (l : LruCache String) (w : World) where
  abbrev pub Task : Type 0 → Type 0
  Task A = Exec (Router l.Cache) (Fault Failure) A

  abbrev pub failing : {A : Type 0} → (String → Failure) → Result String A → Task A
  failing kind r = lift (map_err (λ e. fails (kind e)) r)

  unfoldable pub send_message : String → String → String → Task (Unit {0})
  send_message topic_name key payload s =
      let p : Publication = record { topic = topic_name; key = key; payload = payload } in
      elim (w.delivery p) [
        | err e ↦ (err aborts, s)
        | ok u ↦ (ok tt, record s { published = s.published ++ p ∷ [] })
      ]

  abbrev pub retrieve : ℕ → Task (Option String)
  retrieve schema_id s =
      let found = l.get_mut schema_id s.cache in (ok found.0, record s { cache = found.1 })

  abbrev pub remember : ℕ → String → Task (Unit {0})
  remember schema_id topic s = (ok tt, record s { cache = l.insert schema_id topic s.cache })

  unfoldable pub get_schema_topic : ℕ → Task String
  get_schema_topic schema_id = do
    recv_channel ← retrieve schema_id
    elim recv_channel [
      | some val ↦ pure val
      | none ↦ do
        failing no_connection w.connect
        channel ← failing no_topic (w.registry_topic schema_id)
        remember schema_id channel
        pure channel
    ]

  abbrev pub tick : Task ℕ
  tick s = (ok (w.current_timestamp s.calls), record s { calls = suc s.calls })

  unfoldable pub route : DataRouterInsertMessage → String → Task (Unit {0})
  route event message_key = do
    now ← tick
    let payload : BorrowedInsertMessage = record {
      object_id = event.object_id;
      schema_id = event.schema_id;
      timestamp = now;
      raw_data = event.raw_data;
    }
    topic_name ← get_schema_topic payload.schema_id
    bytes ← failing not_serializable (w.to_vec payload)
    send_message topic_name message_key bytes

  -- The loop over a multimessage: every entry is tried, and the last error is the result.
  unfoldable pub route_each :
      List DataRouterInsertMessage
      → String
      → Result Failure (Unit {0})
      → Task (Result Failure (Unit {0}))
  route_each [] message_key result = pure result
  route_each (entry ∷ entries) message_key result = do
    r ← attempt (route entry message_key)
    route_each entries message_key (last_error r result)

  -- The two branches of the `async` block of `handle_message`, and the block.
  unfoldable pub process_many : String → String → Task (Unit {0})
  process_many payload message_key = do
    maybe_array ← failing not_a_message (w.parse_messages payload)
    result ← route_each maybe_array message_key (ok tt)
    lift (map_err fails result)

  unfoldable pub process_single : String → String → Task (Unit {0})
  process_single payload message_key = do
    owned ← failing not_a_message (w.parse_message payload)
    route owned message_key

  unfoldable pub process : CommunicationMessage → String → Task (Unit {0})
  process message message_key = do
    payload ← failing no_payload message.payload
    json_something ← failing not_json (w.parse_value payload)
    if is_array json_something
        then process_many payload message_key
        else process_single payload message_key

  abbrev pub report : String → Result Failure (Unit {0}) → Task (Unit {0})
  report error_topic_or_exchange (ok u) = pure tt
  report error_topic_or_exchange (err e) =
      send_message error_topic_or_exchange "data-router" (w.debug e)

  abbrev pub acknowledge : Result String (Unit {0}) → Task (Unit {0})
  acknowledge (err e) = raise aborts
  acknowledge (ok u) = λ s. (ok tt, record s { acknowledged = suc s.acknowledged })

  unfoldable pub handle_message : CommunicationMessage → String → Task (Unit {0})
  handle_message message error_topic_or_exchange = do
    let message_key = or_empty (get_order_group_id message)
    result ← attempt (process message message_key)
    report error_topic_or_exchange result
    acknowledge message.ack
