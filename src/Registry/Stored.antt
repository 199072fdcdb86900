-- ===== src/Registry/Stored.antt =====
-- What is read back from the properties of a stored vertex: `extract_vertex_property` and the
-- `from_properties` of crates/schema-registry/src/types and types/storage/vertices.rs.
use common_data_layer.Prelude.{
  String, ◌≡◌, refl, ◌∙◌, false, Option, some, List, [], ◌∷◌, arith, str_eq, str_eq_iff,
  if◌then◌else◌,
}
use common_data_layer.Json.{Value, string}
use common_data_layer.Registry.Types.{
  Schema, to_string, schema_name_prop, topic_name_prop, query_address_prop, schema_type_prop,
}
use common_data_layer.Registry.Externals.{Externals, NamedProperty, VertexProperties}
use common_data_layer.Registry.Storage.{left, extract, schema_from_properties}
use common_data_layer.Registry.Laws.{IsCodec, prop_of}

-- What one extraction leaves is all that the next, of another name, looks for.
pub prop_of-left :
    (n name : String) (ps : List NamedProperty)
    → str_eq name n ≡ false
    → prop_of n (left name ps) ≡ prop_of n ps
prop_of-left n name [] h = refl
prop_of-left n name (p ∷ ps) h = ground (
  arith,
  prop_of-left n name ps h,
  str_eq_iff p.name n,
  str_eq_iff p.name name,
  str_eq_iff name n,
)

pub prop_of-replace :
    (n name : String) (v : Value) (ps : List NamedProperty)
    → prop_of n (record { name = name; value = v } ∷ left name ps)
      ≡ (if str_eq name n then some v else prop_of n ps)
prop_of-replace n name v ps = ground (arith, prop_of-left n name ps)

pub extract_found :
    {T : Type 0} (f : Value → Option T) (name : String) (ps : List NamedProperty) (v : Value)
    (t : T)
    → prop_of name ps ≡ some v
    → f v ≡ some t
    → extract f name ps ≡ some (t, left name ps)
extract_found f name ps v t e h = rw (e, h) refl

module _ (x : Externals) (c : IsCodec x) where
  -- A vertex with the properties of a schema reads back as that schema.
  pub schema_from_properties_stored :
      (vp : VertexProperties) (s : Schema)
      → prop_of schema_name_prop vp.props ≡ some (string s.name)
      → prop_of topic_name_prop vp.props ≡ some (string s.kafka_topic)
      → prop_of query_address_prop vp.props ≡ some (string s.query_address)
      → prop_of schema_type_prop vp.props ≡ some (string (to_string s.schema_type))
      → schema_from_properties x vp ≡ some (vp.vertex.id, s)
  unfolding schema_from_properties
  schema_from_properties_stored vp s name topic address type =
      let ps1 = left schema_name_prop vp.props in
      let ps2 = left topic_name_prop ps1 in
      let ps3 = left query_address_prop ps2 in
      rw
        (
          extract_found x.string_from_value schema_name_prop vp.props _ s.name name
              (c.string_ok s.name),
          extract_found x.string_from_value topic_name_prop ps1 _ s.kafka_topic
              (prop_of-left topic_name_prop schema_name_prop vp.props refl ∙ topic)
              (c.string_ok s.kafka_topic),
          extract_found x.string_from_value query_address_prop ps2 _ s.query_address
              (prop_of-left query_address_prop topic_name_prop ps1 refl
                ∙ prop_of-left query_address_prop schema_name_prop vp.props refl
                ∙ address)
              (c.string_ok s.query_address),
          extract_found x.schema_type_from_value schema_type_prop ps3 _ s.schema_type
              (prop_of-left schema_type_prop query_address_prop ps2 refl
                ∙ prop_of-left schema_type_prop topic_name_prop ps1 refl
                ∙ prop_of-left schema_type_prop schema_name_prop vp.props refl
                ∙ type)
              (c.schema_type_ok s.schema_type),
        )
        refl
