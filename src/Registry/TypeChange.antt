-- ===== src/Registry/TypeChange.antt =====
-- What becomes of a changed schema type: crates/schema-registry/src/rpc.rs hands `schema_type: None`
-- to replication whatever the request says.
use common_data_layer.Prelude.{
  ℕ, String, ◌≡◌, refl, sym, ◌∙◌, false, Option, none, some, str_eq, ==_refl,
}
use common_data_layer.Json.{Value, string}
use common_data_layer.Exec.{ok, when_some, ◌>>◌}
use common_data_layer.Registry.Types.{
  SchemaType, to_string, schema_name_prop, topic_name_prop, query_address_prop, schema_type_prop,
}
use common_data_layer.Registry.Externals.{Externals}
use common_data_layer.Registry.Laws.{IsPropertyGraph, IsCodec, prop_of}
use common_data_layer.Registry.Replication.{ReplicationEvent, replicate_message}
use common_data_layer.Registry.Db
use common_data_layer.Registry.Metadata.{
  read_value, update_schema_property_found, get_schema_property_value,
}
use common_data_layer.Registry.Update.{
  update_schema_name, update_schema_topic, update_schema_query_address, update_schema_property,
}
use common_data_layer.Registry.Replica.{apply_event}
use common_data_layer.Registry.Wire.{Wire, SchemaMetadataUpdate, from_i32}
use common_data_layer.Registry.Rpc.{
  Server, Handler, on_db, replicate, update_schema_metadata, parse_uuid, check_topic, set_type,
}

module _ (x : Externals) (g : IsPropertyGraph x) (id : ℕ) (t : String) (o : Option Value) where
  -- The schema exists, and its stored type is `o`.
  record HasType (db : x.Db) : Type 0 where
    exists : g.vertex_type db id ≡ some t
    stored : prop_of schema_type_prop (g.props db id) ≡ o

  -- The operation succeeds and leaves the type alone.
  record Keeps (m : Db.Op x (Unit {0})) : Type 0 where
    at : (db : x.Db) → HasType db → (db' : x.Db) × (m db ≡ (ok tt, db')) × HasType db'

  Keeps-update :
      (name : String) (value : Value)
      → str_eq name schema_type_prop ≡ false
      → Keeps (update_schema_property x name id value)
  Keeps-update name value other = record {
    at = λ db h.
        let u = update_schema_property_found x g name id value db t h.exists in
        (
          u.0,
          u.1,
          record {
            exists = u.2.types id ∙ h.exists;
            stored = u.2.values id schema_type_prop ∙ rw (==_refl id, other) h.stored;
          },
        );
  }

  Keeps-when_some :
      {A : Type 0} (a : Option A) (m : A → Db.Op x (Unit {0}))
      → ((b : A) → Keeps (m b))
      → Keeps (when_some a m)
  Keeps-when_some none m k = record { at = λ db h. (db, refl, h) }
  Keeps-when_some (some b) m k = k b

  Keeps-then : (m n : Db.Op x (Unit {0})) → Keeps m → Keeps n → Keeps (m >> n)
  Keeps-then m n k l = record {
    at = λ db h. let a = k.at db h in let b = l.at a.0 a.2 in (b.0, rw a.1 b.1, b.2);
  }

  module _ (name topic address : Option String) where
    abbrev plain : Db.Op x (Unit {0})
    plain =
        when_some name (update_schema_name x id)
        >> (when_some topic (update_schema_topic x id)
            >> when_some address (update_schema_query_address x id))

    Keeps-plain : Keeps plain
    Keeps-plain =
        Keeps-then _ _ (Keeps-when_some name _ (λ b. Keeps-update schema_name_prop (string b) refl))
          (Keeps-then _ _
            (Keeps-when_some topic _ (λ b. Keeps-update topic_name_prop (string b) refl))
            (Keeps-when_some address _ (λ b. Keeps-update query_address_prop (string b) refl)))

    Keeps-event :
        (parse : String → Option ReplicationEvent)
        → Keeps (
            apply_event x parse
              (ReplicationEvent.update_schema_metadata id name topic address none))
    unfolding apply_event
    Keeps-event parse =
        Keeps-then _ _ (Keeps-when_some name _ (λ b. Keeps-update schema_name_prop (string b) refl))
          (Keeps-then _ _
            (Keeps-when_some topic _ (λ b. Keeps-update topic_name_prop (string b) refl))
            (Keeps-then _ _
              (Keeps-when_some address _ (λ b. Keeps-update query_address_prop (string b) refl))
              (record { at = λ db h. (db, refl, h) })))

  module _ (w : Wire) where
    -- The same of a part of a handler, which leaves the replication state alone.
    record KeepsServer (m : Handler x w (Unit {0})) : Type 0 where
      at :
          (s : Server x.Db)
          → HasType s.db
          → (db' : x.Db) × (m s ≡ (ok tt, record s { db = db' })) × HasType db'

    KeepsServer-when_some :
        {A : Type 0} (a : Option A) (m : A → Db.Op x (Unit {0}))
        → ((b : A) → Keeps (m b))
        → KeepsServer (when_some a (λ b. on_db x w (m b)))
    KeepsServer-when_some none m k = record { at = λ s h. (s.db, refl, h) }
    KeepsServer-when_some (some b) m k = record {
      at = λ s h. let a = (k b).at s.db h in (a.0, rw a.1 refl, a.2);
    }

    KeepsServer-then :
        (m n : Handler x w (Unit {0})) → KeepsServer m → KeepsServer n → KeepsServer (m >> n)
    KeepsServer-then m n k l = record {
      at = λ s h.
          let a = k.at s h in let b = l.at (record s { db = a.0 }) a.2 in (b.0, rw a.1 b.1, b.2);
    }

  get_schema_type_stored :
      (db : x.Db)
      → HasType db
      → (Db.get_schema_type x id db).0 ≡ read_value x.schema_type_from_value id o
  get_schema_type_stored db h =
      rw (get_schema_property_value x g x.schema_type_from_value schema_type_prop id db, h.stored)

module _ (x : Externals) (g : IsPropertyGraph x) (c : IsCodec x) (w : Wire)
    (parse : String → Option ReplicationEvent) where
  -- The last steps of the handler: the type is written, and the event goes out.
  type_written :
      (id number : ℕ) (ty : SchemaType) (t : String) (event : ReplicationEvent) (s : Server x.Db)
      → from_i32 number ≡ some ty
      → g.vertex_type s.db id ≡ some t
      → (s' : Server x.Db) × ((set_type x w id (some number) >> replicate x w event) s
          ≡ (ok tt, s'))
        × ((Db.get_schema_type x id s'.db).0 ≡ ok ty)
        × (s'.replication ≡ replicate_message event s.replication)
  unfolding set_type
  type_written id number ty t event s e h =
      let u =
        update_schema_property_found x g schema_type_prop id (string (to_string ty)) s.db t h in
      (
        record { db = u.0; replication = replicate_message event s.replication },
        rw (e, u.1) refl,
        rw
            (
              get_schema_property_value x g x.schema_type_from_value schema_type_prop id u.0,
              u.2.values id schema_type_prop,
              ==_refl id,
              c.schema_type_ok ty,
            )
            refl,
        refl,
      )

  -- A request that gives an existing schema another type succeeds on the master, where the schema has
  -- that type afterwards. The event that it hands to replication leaves a replica that had the
  -- master's contents with the type that the schema had before.
  pub update_schema_metadata-loses_type :
      (request : SchemaMetadataUpdate) (s : Server x.Db) (id number : ℕ) (ty : SchemaType)
      (t : String)
      → x.uuid_parse request.id ≡ some id
      → when_some request.topic (check_topic x w) s ≡ (ok tt, s)
      → request.schema_type ≡ some number
      → from_i32 number ≡ some ty
      → g.vertex_type s.db id ≡ some t
      → (s' : Server x.Db) × (event : ReplicationEvent) × (update_schema_metadata x w request s
          ≡ (ok tt, s'))
        × (s'.replication ≡ replicate_message event s.replication)
        × ((Db.get_schema_type x id s'.db).0 ≡ ok ty)
        × ((Db.get_schema_type x id (apply_event x parse event s.db).1).0
            ≡ (Db.get_schema_type x id s.db).0)
  unfolding update_schema_metadata parse_uuid
  update_schema_metadata-loses_type request s id number ty t u topic_ok given is_type exists =
      let stored : Option Value = prop_of schema_type_prop (g.props s.db id) in
      let event : ReplicationEvent =
        ReplicationEvent.update_schema_metadata id request.name request.topic request.address
          none in
      let before : HasType x g id t stored s.db = record { exists = exists; stored = refl } in
      let replica =
        (Keeps-event x g id t stored request.name request.topic request.address parse).at s.db
          before in
      let first =
        (KeepsServer-when_some x g id t stored w request.name (update_schema_name x id)
            (λ b. Keeps-update x g id t stored schema_name_prop (string b) refl)).at
          s before in
      let second =
        (KeepsServer-when_some x g id t stored w request.topic (update_schema_topic x id)
            (λ b. Keeps-update x g id t stored topic_name_prop (string b) refl)).at
          (record s { db = first.0 }) first.2 in
      let third =
        (KeepsServer-when_some x g id t stored w request.address (update_schema_query_address x id)
            (λ b. Keeps-update x g id t stored query_address_prop (string b) refl)).at
          (record s { db = second.0 }) second.2 in
      let end =
        type_written id number ty t event (record s { db = third.0 }) is_type third.2.exists in
      (
        end.0,
        event,
        rw (u, topic_ok, first.1, second.1, third.1, given) end.1,
        end.3,
        end.2,
        rw replica.1 (get_schema_type_stored x g id t stored replica.0 replica.2)
            ∙ sym (get_schema_type_stored x g id t stored s.db before),
      )
