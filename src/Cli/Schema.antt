-- ===== src/Cli/Schema.antt =====
-- The actions on schemas of the command line client, crates/cdl-cli/src/actions/schema.rs.
use Prim.Native.String.{◌++◌ as str_append}
use common_data_layer.Prelude.{
  ℕ, String, Bool, Option, none, some, List, [], ◌∷◌, map, join, if◌then◌else◌,
}
use common_data_layer.Exec.{Result, map_err, raise, lift, ◌>>=◌, ◌>>◌}
use common_data_layer.Fallible.{collect_map}
use common_data_layer.Registry.Types.{SchemaType, to_string, Version}
use common_data_layer.Registry.Wire.{SchemaMetadataUpdate, from_i32, type_or_default}
use common_data_layer.Registry.Rpc.Queries.{as_i32}
use common_data_layer.Cli.{
  Error, World, Action, not_json, not_a_version, bail, asking, println, eprintln, println_all,
  print_entries, connect, read_json, serialized,
}

-- `versions.sort()`, by the order of semver; equal elements keep their order.
unfoldable pub insert : (Version → Version → Bool) → Version → List Version → List Version
insert le v [] = v ∷ []
insert le v (u ∷ us) = let rest = insert le v us in if le v u then v ∷ u ∷ us else u ∷ rest

unfoldable pub sort : (Version → Version → Bool) → List Version → List Version
sort le [] = []
sort le (v ∷ vs) = insert le v (sort le vs)

-- An update of one schema that names nothing yet.
abbrev pub update_of : String → SchemaMetadataUpdate
update_of id = record { id = id; name = none; topic = none; address = none; schema_type = none }

abbrev pub or_any : String → Option String → String
or_any any none = any
or_any any (some version) = version

module _ {S : Type 0} (w : World S) where
  open w use {client, uuid_text}

  unfoldable pub get_schema : ℕ → Option String → Action S (Unit {0})
  get_schema schema_id version = do
    connect w
    response ← asking (
        client.get_schema
          (record { id = uuid_text schema_id; version_req = or_any w.any_version version }))
    definition ← lift (map_err not_json (w.json_parse response.definition))
    println (w.json_pretty definition)

  unfoldable pub add_schema :
      String → String → String → Option String → SchemaType → Action S (Unit {0})
  add_schema schema_name topic query_address file schema_type = do
    definition ← lift (read_json w file)
    connect w
    text ← lift (serialized w definition)
    id ← asking (
        client.add_schema (record {
          id = "";
          name = schema_name;
          definition = text;
          query_address = query_address;
          topic = topic;
          schema_type = as_i32 schema_type;
        }))
    eprintln (
        str_append "Successfully added schema \""
          (str_append schema_name "\" to the schema registry."))
    eprintln "The following UUID was assigned:"
    println id

  unfoldable pub parse_versions : List String → Result Error (List Version)
  parse_versions texts = collect_map (λ v. map_err not_a_version (w.version_parse v)) texts

  unfoldable pub get_schema_versions : ℕ → Action S (Unit {0})
  get_schema_versions schema_id = do
    connect w
    texts ← asking (client.get_schema_versions (uuid_text schema_id))
    versions ← lift (parse_versions texts)
    println_all (map w.version_text (sort w.version_le versions))

  -- The four setters, each an update that names one thing.
  abbrev pub update : SchemaMetadataUpdate → Action S (Unit {0})
  update request = do connect w; asking (client.update_schema_metadata request)

  unfoldable pub set_schema_name : ℕ → String → Action S (Unit {0})
  set_schema_name schema_id name =
      update (record (update_of (uuid_text schema_id)) { name = some name })

  unfoldable pub set_schema_topic : ℕ → String → Action S (Unit {0})
  set_schema_topic schema_id topic =
      update (record (update_of (uuid_text schema_id)) { topic = some topic })

  unfoldable pub set_schema_query_address : ℕ → String → Action S (Unit {0})
  set_schema_query_address schema_id query_address =
      update (record (update_of (uuid_text schema_id)) { address = some query_address })

  unfoldable pub set_schema_type : ℕ → SchemaType → Action S (Unit {0})
  set_schema_type schema_id schema_type =
      update (record (update_of (uuid_text schema_id)) { schema_type = some (as_i32 schema_type) })

  unfoldable pub add_schema_version : ℕ → Version → Option String → Action S (Unit {0})
  add_schema_version schema_id version file = do
    definition ← lift (read_json w file)
    text ← lift (serialized w definition)
    connect w
    asking (
        client.add_schema_version (record {
          id = uuid_text schema_id;
          version = w.version_text version;
          definition = text;
        }))

  abbrev pub name_line : String × String → String
  name_line (id, name) = str_append "ID: " (str_append id (str_append ", Name: " name))

  unfoldable pub get_schema_names : Action S (Unit {0})
  get_schema_names = do
    connect w
    schemas ← asking client.get_all_schema_names
    print_entries "No schemas exist yet in the schema registry." name_line schemas

  unfoldable pub get_schema_topic : ℕ → Action S (Unit {0})
  get_schema_topic schema_id = do
    connect w
    topic ← asking (client.get_schema_topic (uuid_text schema_id))
    println topic

  unfoldable pub get_schema_query_address : ℕ → Action S (Unit {0})
  get_schema_query_address schema_id = do
    connect w
    address ← asking (client.get_schema_query_address (uuid_text schema_id))
    println address

  unfoldable pub get_schema_type : ℕ → Action S (Unit {0})
  get_schema_type schema_id = do
    connect w
    number ← asking (client.get_schema_type (uuid_text schema_id))
    println (to_string (type_or_default (from_i32 number)))

  unfoldable pub validate_value : ℕ → Option String → Action S (Unit {0})
  validate_value schema_id file = do
    value ← lift (read_json w file)
    connect w
    text ← lift (serialized w value)
    errors ←
        asking (client.validate_value (record { schema_id = uuid_text schema_id; value = text }))
    elim errors [
      | [] ↦ println "The value is valid."
      | e ∷ es ↦ raise (bail (str_append "The value is not valid. " (join ", " (e ∷ es))))
    ]
