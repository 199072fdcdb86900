-- ===== src/Cli/Args.antt =====
-- The actions of the command line client, crates/cdl-cli/src/args.rs, and their dispatch, main.rs. The
-- parser of the command line is the library's, and the address of the registry is in the connection.
use common_data_layer.Prelude.{ℕ, String, Option}
use common_data_layer.Registry.Types.{SchemaType, Version}
use common_data_layer.Cli
use common_data_layer.Cli.{World}
use common_data_layer.Cli.Schema
use common_data_layer.Cli.View

pub data SchemaAction : Type 0 where
  names : SchemaAction
  get : (schema_id : ℕ) (version : Option String) → SchemaAction
  get_topic get_query_address get_schema_type versions : (schema_id : ℕ) → SchemaAction
  add :
      (name topic query_address : String) (file : Option String) (schema_type : SchemaType)
      → SchemaAction
  add_version : (schema_id : ℕ) (version : Version) (file : Option String) → SchemaAction
  set_name : (id : ℕ) (name : String) → SchemaAction
  set_topic : (id : ℕ) (topic : String) → SchemaAction
  set_query_address : (id : ℕ) (query_address : String) → SchemaAction
  set_schema_type : (id : ℕ) (schema_type : SchemaType) → SchemaAction
  validate : (schema_id : ℕ) (file : Option String) → SchemaAction

pub data ViewAction : Type 0 where
  view_names : (schema_id : ℕ) → ViewAction
  get_view : (id : ℕ) → ViewAction
  add_view : (schema_id : ℕ) (name jmespath : String) → ViewAction
  update : (id : ℕ) (name jmespath : Option String) → ViewAction

pub data Action : Type 0 where
  schema : SchemaAction → Action
  view : ViewAction → Action

module _ {S : Type 0} (w : World S) where
  unfoldable pub schema_action : SchemaAction → Cli.Action S (Unit {0})
  schema_action names = Schema.get_schema_names w
  schema_action (get schema_id version) = Schema.get_schema w schema_id version
  schema_action (get_topic schema_id) = Schema.get_schema_topic w schema_id
  schema_action (get_query_address schema_id) = Schema.get_schema_query_address w schema_id
  schema_action (get_schema_type schema_id) = Schema.get_schema_type w schema_id
  schema_action (versions schema_id) = Schema.get_schema_versions w schema_id
  schema_action (add name topic query_address file schema_type) =
      Schema.add_schema w name topic query_address file schema_type
  schema_action (add_version schema_id version file) =
      Schema.add_schema_version w schema_id version file
  schema_action (set_name id name) = Schema.set_schema_name w id name
  schema_action (set_topic id topic) = Schema.set_schema_topic w id topic
  schema_action (set_query_address id query_address) =
      Schema.set_schema_query_address w id query_address
  schema_action (set_schema_type id schema_type) = Schema.set_schema_type w id schema_type
  schema_action (validate schema_id file) = Schema.validate_value w schema_id file

  unfoldable pub view_action : ViewAction → Cli.Action S (Unit {0})
  view_action (view_names schema_id) = View.get_schema_views w schema_id
  view_action (get_view id) = View.get_view w id
  view_action (add_view schema_id name jmespath) = View.add_view_to_schema w schema_id name jmespath
  view_action (update id name jmespath) = View.update_view w id name jmespath

  unfoldable pub main : Action → Cli.Action S (Unit {0})
  main (schema action) = schema_action action
  main (view action) = view_action action
