-- ===== src/Api/Mutation.antt =====
-- The mutations of the GraphQL API that write to the schema registry, crates/api/src/schema/mutation.rs.
use common_data_layer.Prelude.{ℕ, Option, none, some}
use common_data_layer.Exec.{pure, lift, ◌>>=◌, ◌>>◌}
use common_data_layer.Registry.Types.{SchemaType}
use common_data_layer.Registry.Rpc.Queries.{as_i32}
use common_data_layer.Api.{
  Schema, Definition, View, NewSchema, NewView, NewVersion, UpdateSchema, UpdateView, Context,
  Field, asking, connect, parse, get_view, get_schema,
}

-- `schema_type.and_then(|s| s.to_i32())`
abbrev pub to_i32 : Option SchemaType → Option ℕ
to_i32 none = none
to_i32 (some t) = some (as_i32 t)

module _ {S : Type 0} (c : Context S) where
  open c use {conn, uuid_text}

  unfoldable pub add_schema : NewSchema → Field S Schema
  add_schema new = do
    connect c
    text ← asking (
        conn.add_schema (record {
          id = "";
          name = new.name;
          query_address = new.query_address;
          topic = new.topic;
          definition = new.definition;
          schema_type = as_i32 new.schema_type;
        }))
    id ← lift (parse c text)
    pure (record {
      id = id;
      name = new.name;
      query_address = new.query_address;
      topic = new.topic;
      schema_type = new.schema_type;
    })

  unfoldable pub add_schema_definition : ℕ → NewVersion → Field S Definition
  add_schema_definition schema_id new_version = do
    connect c
    asking (
        conn.add_schema_version (record {
          id = uuid_text schema_id;
          version = new_version.version;
          definition = new_version.definition;
        }))
    pure (record { definition = new_version.definition; version = new_version.version })

  unfoldable pub add_view : ℕ → NewView → Field S View
  add_view schema_id new_view = do
    connect c
    text ← asking (
        conn.add_view_to_schema (record {
          schema_id = uuid_text schema_id;
          view_id = "";
          name = new_view.name;
          jmespath = new_view.expression;
        }))
    id ← lift (parse c text)
    pure (record { id = id; name = new_view.name; expression = new_view.expression })

  unfoldable pub update_view : ℕ → UpdateView → Field S View
  update_view id update = do
    connect c
    asking (
        conn.update_view
          (record { id = uuid_text id; name = update.name; jmespath = update.expression }))
    get_view c id

  unfoldable pub update_schema : ℕ → UpdateSchema → Field S Schema
  update_schema id update = do
    connect c
    asking (
        conn.update_schema_metadata (record {
          id = uuid_text id;
          name = update.name;
          address = update.query_address;
          topic = update.topic;
          schema_type = to_i32 update.schema_type;
        }))
    get_schema c id
