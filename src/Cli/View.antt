-- ===== src/Cli/View.antt =====
-- The actions on views of the command line client, crates/cdl-cli/src/actions/view.rs.
use Prim.Native.String.{◌++◌ as str_append}
use common_data_layer.Prelude.{ℕ, String, Option}
use common_data_layer.Exec.{◌>>=◌, ◌>>◌}
use common_data_layer.Registry.Types
use common_data_layer.Cli.{World, Action, asking, println, eprintln, print_entries, connect}

module _ {S : Type 0} (w : World S) where
  open w use {client, uuid_text}

  unfoldable pub get_view : ℕ → Action S (Unit {0})
  get_view view_id = do
    connect w
    view ← asking (client.get_view (uuid_text view_id))
    println (str_append "Name: " (str_append view.name (str_append ", JMESPath: " view.jmespath)))

  unfoldable pub add_view_to_schema : ℕ → String → String → Action S (Unit {0})
  add_view_to_schema schema_id name jmespath = do
    connect w
    id ← asking (
        client.add_view_to_schema (record {
          view_id = "";
          schema_id = uuid_text schema_id;
          name = name;
          jmespath = jmespath;
        }))
    eprintln (
        str_append "Successfully added view \"" (
          str_append name (
            str_append "\" to schema \""
              (str_append (uuid_text schema_id) "\" in the schema registry."))))
    eprintln "The following UUID was assigned:"
    println id

  unfoldable pub update_view : ℕ → Option String → Option String → Action S (Unit {0})
  update_view view_id name jmespath = do
    connect w
    old_view ←
        asking
          (client.update_view (record { id = uuid_text view_id; name = name; jmespath = jmespath }))
    println (
        str_append "Old Name: "
          (str_append old_view.name (str_append ", Old JMESPath: " old_view.jmespath)))

  abbrev pub view_line : String × Types.View → String
  view_line (id, view) = str_append "ID: " (str_append id (str_append ", Name: " view.name))

  unfoldable pub get_schema_views : ℕ → Action S (Unit {0})
  get_schema_views schema_id = do
    connect w
    views ← asking (client.get_all_views_of_schema (uuid_text schema_id))
    print_entries "No views exist yet for the given schema in the schema registry." view_line views
