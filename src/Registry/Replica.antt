-- ===== src/Registry/Replica.antt =====
-- crates/schema-registry/src/replication/slave.rs: a replica that applies the events of its master.
-- The deserialization of a payload is a parameter, and a message carries what its `payload` and its
-- `ack` return.
use common_data_layer.Prelude.{String, Bool, true, false, Option, some, List, [], ◌∷◌}
use common_data_layer.Exec.{
  Result, ok, err, map_err, ok_or, Exec, pure, lift, when_some, ◌>>=◌, ◌>>◌,
}
use common_data_layer.Registry.Types.{RegistryError}
use common_data_layer.Registry.Externals.{Externals}
use common_data_layer.Registry.Replication.{
  ReplicationEvent, add_schema, add_schema_version, update_schema_metadata, add_view_to_schema,
  update_view,
}
use common_data_layer.Registry.Db
use common_data_layer.Registry.Update

pub record Message : Type 0 where
  pub payload : Result String String
  pub ack : Result String (Unit {0})

-- What ends the consumption of one message.
pub data ConsumeError : Type 0 where
  no_payload : String → ConsumeError
  not_an_event : ConsumeError
  refused : RegistryError → ConsumeError
  not_acknowledged : String → ConsumeError

module _ (x : Externals) (event_from_payload : String → Option ReplicationEvent) where
  abbrev Op : Type 0 → Type 0
  Op A = Db.Op x A

  -- The `match event` of `consume_message`.
  unfoldable pub apply_event : ReplicationEvent → Op (Unit {0})
  apply_event (add_schema schema id) = do Update.add_schema x schema (some id); pure tt
  apply_event (add_schema_version id new_version) =
      Update.add_new_version_of_schema x id new_version
  apply_event (add_view_to_schema schema_id view view_id) = do
    Update.add_view_to_schema x schema_id view (some view_id)
    pure tt
  apply_event (update_schema_metadata id name topic query_address schema_type) = do
    when_some name (Update.update_schema_name x id)
    when_some topic (Update.update_schema_topic x id)
    when_some query_address (Update.update_schema_query_address x id)
    when_some schema_type (Update.update_schema_type x id)
  apply_event (update_view id view) = do Update.update_view x id view; pure tt

  unfoldable pub refusing : {A : Type 0} → Op A → Exec x.Db ConsumeError A
  refusing m db = let (r, db') = m db in (map_err refused r, db')

  unfoldable pub consume_message : Message → Exec x.Db ConsumeError (Unit {0})
  consume_message message = do
    payload ← lift (map_err no_payload message.payload)
    event ← lift (ok_or (event_from_payload payload) not_an_event)
    refusing (apply_event event)
    lift (map_err not_acknowledged message.ack)

  -- The loop over the stream: before each message the kill signal is tried, and an error of a message
  -- is logged and passed over.
  unfoldable pub consume_mq : List (Bool × Result String Message) → x.Db → x.Db
  consume_mq [] db = db
  consume_mq ((true, message) ∷ rest) db = db
  consume_mq ((false, err e) ∷ rest) db = consume_mq rest db
  consume_mq ((false, ok message) ∷ rest) db = consume_mq rest (consume_message message db).1
