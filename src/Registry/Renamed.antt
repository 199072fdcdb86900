-- ===== src/Registry/Renamed.antt =====
-- The methods of crates/schema-registry/src/db.rs that change a schema's name, topic, address or type.
use common_data_layer.Prelude.{
  ℕ, String, ◌≡◌, refl, ◌∙◌, false, some, ==_refl, ◌==◌, str_eq, if◌then◌else◌,
}
use common_data_layer.Json.{Value, string}
use common_data_layer.Exec.{Result, ok}
use common_data_layer.Registry.Types.{
  RegistryError, Schema, SchemaType, to_string, schema_name_prop, topic_name_prop,
  query_address_prop, schema_type_prop,
}
use common_data_layer.Registry.Externals.{Externals}
use common_data_layer.Registry.Laws.{IsPropertyGraph, IsCodec, prop_of}
use common_data_layer.Registry.Stored.{schema_from_properties_stored}
use common_data_layer.Registry.Db.{get_schema, schema_of_vertex}
use common_data_layer.Registry.Metadata.{connect_ok, Wrote, update_schema_property_found}
use common_data_layer.Registry.Update.{
  update_schema_property, update_schema_name, update_schema_topic, update_schema_query_address,
  update_schema_type,
}

module _ (x : Externals) (g : IsPropertyGraph x) (c : IsCodec x) where
  -- The vertex `id` exists and has the properties of this schema.
  pub record StoredSchema (id : ℕ) (s : Schema) (db : x.Db) : Type 0 where
    pub type : String
    pub exists : g.vertex_type db id ≡ some type
    pub name : prop_of schema_name_prop (g.props db id) ≡ some (string s.name)
    pub topic : prop_of topic_name_prop (g.props db id) ≡ some (string s.kafka_topic)
    pub address : prop_of query_address_prop (g.props db id) ≡ some (string s.query_address)
    pub schema_type :
        prop_of schema_type_prop (g.props db id) ≡ some (string (to_string s.schema_type))

  get_schema_stored :
      (id : ℕ) (s : Schema) (db : x.Db) → StoredSchema id s db → (get_schema x id db).0 ≡ ok s
  unfolding get_schema schema_of_vertex
  get_schema_stored id s db h =
      rw (connect_ok x g db, g.get_all_vertex_properties_ok id db, h.exists)
        (rw
          (schema_from_properties_stored x c
            (record { vertex = record { id = id; t = h.type }; props = g.props db id }) s h.name
            h.topic h.address h.schema_type)
          refl)

  -- The change succeeded: the schema `id` now reads as `s`, is stored as such, and no other vertex has
  -- another property than before.
  pub record Changed (id : ℕ) (s : Schema) (db : x.Db) (r : Result RegistryError (Unit {0}) × x.Db)
      : Type 0 where
    pub succeeds : r.0 ≡ ok tt
    pub reads : (get_schema x id r.1).0 ≡ ok s
    pub others :
        (j : ℕ) (n : String)
        → (id == j) ≡ false
        → prop_of n (g.props r.1 j) ≡ prop_of n (g.props db j)

  module _ (id : ℕ) (s : Schema) (db : x.Db) (h : StoredSchema id s db) where
    -- The stored properties after one was written.
    property_of :
        (name n : String) (value : Value) (db' : x.Db)
        → Wrote x g id name value db db'
        → prop_of n (g.props db' id)
          ≡ (if str_eq name n then some value else prop_of n (g.props db id))
    property_of name n value db' wrote = wrote.values id n ∙ rw (==_refl id) refl

    changed :
        (name : String) (value : Value) (s' : Schema)
        → ((db' : x.Db) → Wrote x g id name value db db' → StoredSchema id s' db')
        → Changed id s' db (update_schema_property x name id value db)
    changed name value s' keeps =
        let (db', updated, wrote) =
          update_schema_property_found x g name id value db h.type h.exists in
        rw updated (record {
          succeeds = refl;
          reads = get_schema_stored id s' db' (keeps db' wrote);
          others = λ j n other. wrote.values j n ∙ rw other refl;
        })

    -- Each of the four changes of a stored schema succeeds, and the schema then reads with the new
    -- name, topic, query address or type and the other three as before; no property of another vertex
    -- changes.
    pub update_schema-get_schema :
        ((new : String) → Changed id (record s { name = new }) db (update_schema_name x id new db))
        × ((new : String)
            → Changed id (record s { kafka_topic = new }) db (update_schema_topic x id new db))
        × ((new : String)
            → Changed id
                (record s { query_address = new })
                db
                (update_schema_query_address x id new db))
        × ((new : SchemaType)
            → Changed id (record s { schema_type = new }) db (update_schema_type x id new db))
    update_schema-get_schema = (
      λ new.
          changed schema_name_prop (string new) (record s { name = new })
            λ db' wrote. record {
              type = h.type;
              exists = wrote.types id ∙ h.exists;
              name = property_of schema_name_prop schema_name_prop (string new) db' wrote;
              topic = property_of schema_name_prop topic_name_prop (string new) db' wrote ∙ h.topic;
              address =
                  property_of schema_name_prop query_address_prop (string new) db' wrote
                  ∙ h.address;
              schema_type =
                  property_of schema_name_prop schema_type_prop (string new) db' wrote
                  ∙ h.schema_type;
            },
      λ new.
          changed topic_name_prop (string new) (record s { kafka_topic = new })
            λ db' wrote. record {
              type = h.type;
              exists = wrote.types id ∙ h.exists;
              name = property_of topic_name_prop schema_name_prop (string new) db' wrote ∙ h.name;
              topic = property_of topic_name_prop topic_name_prop (string new) db' wrote;
              address =
                  property_of topic_name_prop query_address_prop (string new) db' wrote ∙ h.address;
              schema_type =
                  property_of topic_name_prop schema_type_prop (string new) db' wrote
                  ∙ h.schema_type;
            },
      λ new.
          changed query_address_prop (string new) (record s { query_address = new })
            λ db' wrote. record {
              type = h.type;
              exists = wrote.types id ∙ h.exists;
              name =
                  property_of query_address_prop schema_name_prop (string new) db' wrote ∙ h.name;
              topic =
                  property_of query_address_prop topic_name_prop (string new) db' wrote ∙ h.topic;
              address = property_of query_address_prop query_address_prop (string new) db' wrote;
              schema_type =
                  property_of query_address_prop schema_type_prop (string new) db' wrote
                  ∙ h.schema_type;
            },
      λ new.
          changed schema_type_prop (string (to_string new)) (record s { schema_type = new })
            λ db' wrote. record {
              type = h.type;
              exists = wrote.types id ∙ h.exists;
              name =
                  property_of schema_type_prop schema_name_prop (string (to_string new)) db' wrote
                  ∙ h.name;
              topic =
                  property_of schema_type_prop topic_name_prop (string (to_string new)) db' wrote
                  ∙ h.topic;
              address =
                  property_of schema_type_prop query_address_prop (string (to_string new)) db' wrote
                  ∙ h.address;
              schema_type =
                  property_of schema_type_prop schema_type_prop (string (to_string new)) db' wrote;
            },
    )
