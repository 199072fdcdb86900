-- ===== src/Registry/Update.antt =====
-- The methods of `SchemaDb` (crates/schema-registry/src/db.rs) that write, and `build_full_schema` of
-- crates/schema-registry/src/schema.rs.
use common_data_layer.Prelude.{ℕ, String, Option, none, some, List, [], ◌∷◌, if◌then◌else◌}
use common_data_layer.Json.{Value, Fields, string, object, end, field, lookup, insert}
use common_data_layer.Exec.{Result, ok, err, pure, raise, lift, when_some, map_err, ◌>>=◌, ◌>>◌}
use common_data_layer.Registry.Types.{
  Version, SchemaType, to_string, Definition, View, ViewUpdate, NewSchema, schema_of,
  NewSchemaVersion, RegistryError, invalid_schema, invalid_view, new_version_must_be_greatest,
  schema_name_prop, topic_name_prop, query_address_prop, schema_type_prop, view_name_prop,
  view_expression_prop,
}
use common_data_layer.Registry.Externals.{Externals}
use common_data_layer.Registry.Storage.{
  schema_vertex, definition_vertex, view_vertex, schema_definition_edge, schema_view_edge,
}
use common_data_layer.Registry.Db
use common_data_layer.Registry.Db.{max_version?}

module _ (x : Externals) where
  open x use {uuid_parse, any_version, compiles, version_le, jmespath_parse}

  abbrev Op : Type 0 → Type 0
  Op A = Db.Op x A

  -- `value.as_str().and_then(|val| Uuid::parse_str(val).ok())`
  abbrev pub reference : Value → Option ℕ
  reference (string s) = uuid_parse s
  reference v = none

  -- `schemas_to_retrieve`: the definitions that name another schema.
  unfoldable pub schemas_to_retrieve : Fields → List (String × ℕ)
  schemas_to_retrieve end = []
  schemas_to_retrieve (field key value rest) =
      let others = schemas_to_retrieve rest in
      elim (reference value) [ none ↦ others | some id ↦ (key, id) ∷ others ]

  -- The loop that puts the latest definition of each such schema in its place.
  unfoldable pub retrieve : List (String × ℕ) → Fields → Op Fields
  retrieve [] defs = pure defs
  retrieve ((key, id) ∷ rest) defs = do
    schema ← Db.get_schema_definition x (record { id = id; version_req = any_version })
    retrieve rest (insert key schema.definition defs)

  compile : Value → Op Definition
  compile schema =
      if compiles schema then pure (record { definition = schema }) else raise invalid_schema

  -- The `definitions` of the schema, if it is an object with an object there.
  unfoldable pub definitions_of : Value → Option (Fields × Fields)
  definitions_of (object m) = elim (lookup "definitions" m) [
    | none ↦ none
    | some v ↦ elim v [ object defs ↦ some (m, defs) | _ ↦ none ]
  ]
  definitions_of v = none

  unfoldable pub build_full_schema : Value → Op Definition
  unfolding compile
  build_full_schema schema = elim (definitions_of schema) [
    | none ↦ compile schema
    | some (m, defs) ↦ do
      full ← retrieve (schemas_to_retrieve defs) defs
      compile (object (insert "definitions" (object full) m))
  ]

  unfoldable pub validate_view : String → Op (Unit {0})
  validate_view view db = (map_err invalid_view (jmespath_parse view), db)

  unfoldable pub add_schema : NewSchema → Option ℕ → Op ℕ
  add_schema new_schema new_id = do
    full_schema ← build_full_schema (schema_of new_schema).1
    id ← Db.create_vertex_with_properties x (schema_vertex x) (schema_of new_schema).0 new_id
    definition_id ← Db.create_vertex_with_properties x (definition_vertex x) full_schema none
    Db.set_edge_properties x (schema_definition_edge x) (record {
      schema_id = id;
      definition_id = definition_id;
      version = record { major = 1; minor = 0; patch = 0; pre = []; build = [] };
    })
    pure id

  -- The four methods that replace one property of a schema.
  unfoldable pub update_schema_property : String → ℕ → Value → Op (Unit {0})
  update_schema_property name id value = do
    Db.ensure_schema_exists x id
    Db.set_vertex_properties x id ((name, value) ∷ [])

  abbrev pub update_schema_name : ℕ → String → Op (Unit {0})
  update_schema_name id new_name = update_schema_property schema_name_prop id (string new_name)

  abbrev pub update_schema_topic : ℕ → String → Op (Unit {0})
  update_schema_topic id new_topic = update_schema_property topic_name_prop id (string new_topic)

  abbrev pub update_schema_query_address : ℕ → String → Op (Unit {0})
  update_schema_query_address id address =
      update_schema_property query_address_prop id (string address)

  abbrev pub update_schema_type : ℕ → SchemaType → Op (Unit {0})
  update_schema_type id new_schema_type =
      update_schema_property schema_type_prop id (string (to_string new_schema_type))

  -- The refusal of a version that is not above every version of the schema.
  unfoldable pub must_be_greatest :
      ℕ → Version → List (Version × ℕ) → Result RegistryError (Unit {0})
  must_be_greatest id version versions = elim (max_version? version_le versions) [
    | none ↦ ok tt
    | some (greatest, _) ↦
        if version_le version greatest
        then err (new_version_must_be_greatest id greatest)
        else ok tt
  ]

  unfoldable pub add_new_version_of_schema : ℕ → NewSchemaVersion → Op (Unit {0})
  add_new_version_of_schema id schema = do
    Db.ensure_schema_exists x id
    versions ← Db.get_schema_versions x id
    lift (must_be_greatest id schema.version versions)
    full_schema ← build_full_schema schema.definition
    definition_id ← Db.create_vertex_with_properties x (definition_vertex x) full_schema none
    Db.set_edge_properties x (schema_definition_edge x)
        (record { schema_id = id; definition_id = definition_id; version = schema.version })

  unfoldable pub add_view_to_schema : ℕ → View → Option ℕ → Op ℕ
  add_view_to_schema schema_id view view_id = do
    Db.ensure_schema_exists x schema_id
    validate_view view.jmespath
    id ← Db.create_vertex_with_properties x (view_vertex x) view view_id
    Db.set_edge_properties x schema_view_edge (record { schema_id = schema_id; view_id = id })
    pure id

  unfoldable pub update_view : ℕ → ViewUpdate → Op View
  update_view id view = do
    old_view ← Db.get_view x id
    when_some view.jmespath validate_view
    when_some view.name (λ name. Db.set_vertex_properties x id ((view_name_prop, string name) ∷ []))
    when_some view.jmespath
        (λ jmespath. Db.set_vertex_properties x id ((view_expression_prop, string jmespath) ∷ []))
    pure old_view
